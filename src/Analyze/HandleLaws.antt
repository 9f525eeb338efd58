-- ===== src/Analyze/HandleLaws.antt =====
-- Which handles are discovered, and which calls each has.
use fearless.Base.{
  Option, none, some, Str, str_eq, List, [], ◌∷◌, ◌++◌, Dict, if◌then◌else◌, or_else, ◌≡◌,
}
use mathlib.Core.Option
use fearless.Syntax.{Node}
use fearless.Analyze.Handles.{
  HandleMethodCall, DiscoveredHandle, match_fearless_handle, template_call,
}

abbrev declared_as : Str → Option DiscoveredHandle → Option DiscoveredHandle
declared_as name none = none
declared_as name (some h) = if str_eq h.variable_name name then some h else none

-- The last declaration of a name among the nodes.
unfoldable pub last_declared : Str → List Node → Option DiscoveredHandle
last_declared name [] = none
last_declared name (n ∷ ns) =
    or_else (last_declared name ns) (declared_as name (match_fearless_handle n))

-- Each handle stands under the name of its variable.
IsKeyed : Dict DiscoveredHandle → Type 0
IsKeyed [] = Unit
IsKeyed ((key, h) ∷ handles) = (h.variable_name ≡ key) × IsKeyed handles

module _ (source_text : Node → Str) where
  abbrev call_named : Str → Option (Str × HandleMethodCall) → List HandleMethodCall
  call_named name none = []
  call_named name (some (object, c)) = if str_eq object name then c ∷ [] else []

  -- The calls with a template of the object of that name, in order.
  unfoldable pub calls_of : Str → List Node → List HandleMethodCall
  unfolding template_call
  calls_of name [] = []
  calls_of name (n ∷ ns) = call_named name (template_call source_text n) ++ calls_of name ns

  abbrev pub with_calls : List Node → DiscoveredHandle → DiscoveredHandle
  with_calls ns h = record h { method_calls = h.method_calls ++ calls_of h.variable_name ns }

  -- The first handle of a variable among those that are discovered.
  unfoldable pub find_handle : Str → List DiscoveredHandle → Option DiscoveredHandle
  find_handle name [] = none
  find_handle name (h ∷ hs) =
      let rest = find_handle name hs in if str_eq h.variable_name name then some h else rest
