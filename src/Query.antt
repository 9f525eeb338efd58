-- ===== src/Query.antt =====
-- `parseQueryString` of src/ctx.ts, `parseQuery` of src/request.ts and `joinQueryParams` of
-- src/app.ts, which share one loop over the entries of `URLSearchParams`. The result is an object
-- literal, so reading a key that it lacks reads `Object.prototype`.
pub mod Laws
use fearless.Base.{
  Option, none, some, Bool, true, false, Str, codes, str_eq, List, [], ◌∷◌, ◌++◌, Dict, get, put,
  some_of, if◌then◌else◌, length, ltb,
}

-- The names of the properties of `Object.prototype`.
abbrev prototype_keys : List Str
prototype_keys =
    codes "constructor"
    ∷ codes "__defineGetter__"
    ∷ codes "__defineSetter__"
    ∷ codes "hasOwnProperty"
    ∷ codes "__lookupGetter__"
    ∷ codes "__lookupSetter__"
    ∷ codes "isPrototypeOf"
    ∷ codes "propertyIsEnumerable"
    ∷ codes "toString"
    ∷ codes "valueOf"
    ∷ codes "__proto__"
    ∷ codes "toLocaleString"
    ∷ []

unfoldable pub is_inherited : Str → Bool
unfolding str_eq
is_inherited key = some_of (str_eq key) prototype_keys

-- An element of a list in a query: a value, or what was read from `Object.prototype`.
pub data Element : Type 0 where
  value : Str → Element
  inherited : Str → Element

-- `string | string[]`
pub data QueryValue : Type 0 where
  single : Str → QueryValue
  several : List Element → QueryValue

abbrev pub QueryParams : Type 0
QueryParams = Dict QueryValue

abbrev pub after_own : Option QueryValue → Bool → Str → Str → QueryValue
after_own none false key v = single v
after_own none true key v = several (inherited key ∷ value v ∷ [])
after_own (some (single w)) b key v = several (value w ∷ value v ∷ [])
after_own (some (several es)) b key v = several (es ++ value v ∷ [])

-- One round of the loop. (A write to `__proto__` sets the prototype, which is not modelled: the
-- theorems exclude that key.)
unfoldable pub add_entry : Str → Str → QueryParams → QueryParams
unfolding is_inherited get put
add_entry key v result = put key (after_own (get key result) (is_inherited key) key v) result

unfoldable pub add_entries : List (Str × Str) → QueryParams → QueryParams
unfolding add_entry
add_entries [] result = result
add_entries ((key, v) ∷ entries) result = add_entries entries (add_entry key v result)

module _ (search_params : Str → List (Str × Str)) where
  -- An empty text gives `{}` at once.
  unfoldable pub parse_query_string : Str → QueryParams
  unfolding add_entries
  parse_query_string [] = []
  parse_query_string (c ∷ s) = add_entries (search_params (c ∷ s)) []

  -- `joinQueryParams` returns `{}` for a text shorter than two units.
  unfoldable pub join_query_params : Str → QueryParams
  unfolding add_entries
  join_query_params text = if ltb (length text) 2 then [] else add_entries (search_params text) []
