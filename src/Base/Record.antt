-- ===== src/Base/Record.antt =====
-- JavaScript's `Record<string, V>` and `Map<string, V>`: association lists in insertion order. A write
-- to a present key keeps its place. (The engine lists keys that read as integers first; no theorem
-- speaks of the order of keys.)
use mathlib.Core.Path.{◌≡◌, refl}
use mathlib.Core.Option.{Option, none, some}
use mathlib.Core.List.{List, [], ◌∷◌}
use native.Mathlib.Omega.{arith}
use fearless.Base.Tests.{if◌then◌else◌, or_else}
use fearless.Base.Text.{Str, str_eq, str_eq_iff}

abbrev pub Dict {ℓ} : Type ℓ → Type ℓ
Dict V = List (Str × V)

module _ {ℓ} {V : Type ℓ} where
  -- `o[k]`, of the own keys; `m.get(k)`
  unfoldable pub get : Str → Dict V → Option V
  get k [] = none
  get k ((j, v) ∷ m) = if str_eq j k then some v else get k m

  -- `o[k] = v`; `m.set(k, v)`
  unfoldable pub put : Str → V → Dict V → Dict V
  put k v [] = (k, v) ∷ []
  put k v ((j, w) ∷ m) = if str_eq j k then (k, v) ∷ m else (j, w) ∷ put k v m

  -- `delete o[k]`
  unfoldable pub remove : Str → Dict V → Dict V
  remove k [] = []
  remove k ((j, v) ∷ m) = let rest = remove k m in if str_eq j k then rest else (j, v) ∷ rest

  -- `for (const k of Object.keys(n)) m[k] = n[k]`, and `{ ...m, ...n }`
  unfoldable pub assign : Dict V → Dict V → Dict V
  unfolding put
  assign m [] = m
  assign m ((k, v) ∷ n) = assign (put k v m) n

  pub get-put :
      (j k : Str) (v : V) (m : Dict V)
      → get j (put k v m) ≡ (if str_eq k j then some v else get j m)
  unfolding get put
  get-put j k v [] = refl
  get-put j k v ((i, w) ∷ m) =
      ground (arith, str_eq_iff k j, str_eq_iff i k, str_eq_iff i j, get-put j k v m)

  get-remove :
      (j k : Str) (m : Dict V) → get j (remove k m) ≡ (if str_eq k j then none else get j m)
  unfolding get remove
  get-remove j k [] = ground arith
  get-remove j k ((i, w) ∷ m) =
      ground (arith, str_eq_iff k j, str_eq_iff i k, str_eq_iff i j, get-remove j k m)

  -- The last binding of a key, which is the one that a sequence of writes leaves.
  unfoldable pub last : Str → Dict V → Option V
  last k [] = none
  last k ((j, v) ∷ m) = or_else (last k m) (if str_eq j k then some v else none)

  pub get-assign : (j : Str) (m n : Dict V) → get j (assign m n) ≡ or_else (last j n) (get j m)
  unfolding assign last
  get-assign j m [] = refl
  get-assign j m ((k, v) ∷ n) = ground (arith, get-assign j (put k v m) n, get-put j k v m)
