-- ===== src/Base/Unique.antt =====
-- Objects in which no key occurs twice, as every JavaScript object is.
use mathlib.Core.Path.{◌≡◌, refl}
use mathlib.Core.Option.{none}
use mathlib.Core.List.{[], ◌∷◌}
use native.Mathlib.Omega.{arith}
use fearless.Base.Text.{Str, str_eq_iff}
use fearless.Base.Record.{Dict, get, put, get-put, assign, last}

module _ {ℓ} {V : Type ℓ} where
  abbrev IsUnique : Dict V → Type ℓ
  IsUnique [] = Unit
  IsUnique ((k, v) ∷ m) = (get k m ≡ none) × IsUnique m

  put-IsUnique : (k : Str) (v : V) (m : Dict V) → IsUnique m → IsUnique (put k v m)
  unfolding get put
  put-IsUnique k v [] h = (refl, tt)
  put-IsUnique k v ((j, w) ∷ m) h =
      ground (arith, put-IsUnique k v m h.1, get-put j k v m, str_eq_iff j k, str_eq_iff k j)

  assign-IsUnique : (m n : Dict V) → IsUnique m → IsUnique (assign m n)
  unfolding assign
  assign-IsUnique m [] h = h
  assign-IsUnique m ((k, v) ∷ n) h = assign-IsUnique (put k v m) n (put-IsUnique k v m h)

  last-eq-get : (k : Str) (m : Dict V) → IsUnique m → last k m ≡ get k m
  unfolding last get
  last-eq-get k [] h = refl
  last-eq-get k ((j, v) ∷ m) h = ground (arith, last-eq-get k m h.1, str_eq_iff j k)
