-- ===== src/Base/Lists.antt =====
-- Lists measured by native numbers, and predicates on every or some element.
use Prim.Native.Nat.{ℕ, suc, ◌+◌}
use mathlib.Core.Path.{◌≡◌, refl}
use mathlib.Core.Logic.{◌⊎◌, inl, inr}
use mathlib.Core.Bool.{Bool, true, false, ◌||◌}
use mathlib.Core.List.{List, [], ◌∷◌, ◌++◌}
use native.Mathlib.Omega.{arith}

module _ {ℓ} {A : Type ℓ} where
  abbrev pub length : List A → ℕ
  length [] = 0
  length (x ∷ xs) = suc (length xs)

  pub length-append : (xs ys : List A) → length (xs ++ ys) ≡ length xs + length ys
  length-append [] ys = omega arith
  length-append (x ∷ xs) ys = omega (arith, length-append xs ys)

  -- `xs.some(p)`
  abbrev pub some_of : (A → Bool) → List A → Bool
  some_of p [] = false
  some_of p (x ∷ xs) = p x || some_of p xs

module _ {ℓ κ} {A : Type ℓ} (P : A → Type κ) where
  abbrev pub All : List A → Type κ
  All [] = Unit
  All (x ∷ xs) = P x × All xs

  pub All-append : (xs ys : List A) → All xs → All ys → All (xs ++ ys)
  All-append [] ys _ k = k
  All-append (x ∷ xs) ys (p, h) k = (p, All-append xs ys h k)

-- Some element satisfies `P`.
module _ {ℓ} {A : Type ℓ} (P : A → Type 0) where
  abbrev pub Any : List A → Type 0
  Any [] = ⊥
  Any (x ∷ xs) = P x ⊎ Any xs

  Any-append_left : (xs ys : List A) → Any xs → Any (xs ++ ys)
  Any-append_left [] ys h = elim h [ ]
  Any-append_left (x ∷ xs) ys (inl p) = inl p
  Any-append_left (x ∷ xs) ys (inr h) = inr (Any-append_left xs ys h)

  Any-append_right : (xs ys : List A) → Any ys → Any (xs ++ ys)
  Any-append_right [] ys h = h
  Any-append_right (x ∷ xs) ys h = inr (Any-append_right xs ys h)

  Any-append : (xs ys : List A) → Any (xs ++ ys) → Any xs ⊎ Any ys
  Any-append [] ys h = inr h
  Any-append (x ∷ xs) ys (inl p) = inl (inl p)
  Any-append (x ∷ xs) ys (inr h) = elim (Any-append xs ys h) [ inl a ↦ inl (inr a) | inr b ↦ inr b ]

module _ {ℓ} {A : Type ℓ} {P Q : A → Type 0} where
  pub Any-map : (xs : List A) → ((a : A) → P a → Q a) → Any P xs → Any Q xs
  Any-map [] f h = elim h [ ]
  Any-map (x ∷ xs) f (inl p) = inl (f x p)
  Any-map (x ∷ xs) f (inr h) = inr (Any-map xs f h)

module _ {ℓ} {A : Type ℓ} (f : A → Bool) where
  pub Any-or_All : (xs : List A) → Any (λ x. f x ≡ true) xs ⊎ All (λ x. f x ≡ false) xs
  Any-or_All [] = inr tt
  Any-or_All (x ∷ xs) = go (f x) refl (Any-or_All xs)
    where
      go :
          (b : Bool)
          → f x ≡ b
          → Any (λ x. f x ≡ true) xs ⊎ All (λ x. f x ≡ false) xs
          → Any (λ x. f x ≡ true) (x ∷ xs) ⊎ All (λ x. f x ≡ false) (x ∷ xs)
      go true e h = inl (inl e)
      go false e (inl h) = inl (inr h)
      go false e (inr h) = inr (e, h)

  pub not_Any_and_All : (xs : List A) → All (λ x. f x ≡ false) xs → Any (λ x. f x ≡ true) xs → ⊥
  not_Any_and_All [] a h = elim h [ ]
  not_Any_and_All (x ∷ xs) a (inl e) = cc (e, a.0)
  not_Any_and_All (x ∷ xs) a (inr h) = not_Any_and_All xs a.1 h

module _ {ℓ} {A : Type ℓ} (P Q : A → Type 0) where
  pub Any-All : (xs : List A) → Any P xs → All Q xs → Any (λ a. P a × Q a) xs
  Any-All [] h a = elim h [ ]
  Any-All (x ∷ xs) (inl p) (q, a) = inl (p, q)
  Any-All (x ∷ xs) (inr h) (q, a) = inr (Any-All xs h a)

-- An element that satisfies the predicate, with the fact that it is in the list.
pub Any-witness :
    {A : Type 0} (P : A → Type 0) (xs : List A) → Any P xs → (a : A) × P a × Any (λ x. x ≡ a) xs
Any-witness P [] h = elim h [ ]
Any-witness P (x ∷ xs) (inl p) = (x, p, inl refl)
Any-witness P (x ∷ xs) (inr h) = let (a, p, m) = Any-witness P xs h in (a, p, inr m)
