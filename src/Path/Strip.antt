-- ===== src/Path/Strip.antt =====
-- The loop that cuts trailing slashes by an index, as a recursion on the string.
use fearless.Base.{
  ℕ, zero, suc, ◌≤◌, ◌<◌, ◌≡◌, refl, ap, Bool, true, false, Str, [], ◌∷◌, ◌++◌, ◌==◌, length,
  if◌then◌else◌, arith, ◌&&◌,
}
use fearless.Path.{take, char_is, trim_end}

unfoldable pub is_empty : Str → Bool
is_empty [] = true
is_empty (c ∷ s) = false

-- A string without its trailing slashes.
unfoldable pub strip : Str → Str
unfolding is_empty
strip [] = []
strip (c ∷ s) = let r = strip s in if is_empty r && c == b'/' then [] else c ∷ r

strip-snoc : (s : Str) (d : ℕ) → strip (s ++ d ∷ []) ≡ (if d == b'/' then strip s else s ++ d ∷ [])
unfolding strip is_empty
strip-snoc [] d = ground arith
strip-snoc (c ∷ []) d = ground arith
strip-snoc (c ∷ e ∷ s) d = ground (arith, strip-snoc (e ∷ s) d)

-- One step of the loop: the character before `end`.
take-suc :
    (e : ℕ) (s : Str)
    → e < length s
    → (d : ℕ) × (take (suc e) s ≡ take e s ++ d ∷ []) × (char_is s e b'/' ≡ (d == b'/'))
unfolding take char_is
take-suc e [] h = elim h [ ]
take-suc zero (c ∷ s) h = (c, refl, refl)
take-suc (suc e) (c ∷ s) h = let (d, p, q) = take-suc e s (omega arith) in (d, ap (λ t. c ∷ t) p, q)

trim_end-take :
    (c : ℕ) (s : Str) (e : ℕ)
    → e ≤ length s
    → take (trim_end (c ∷ s) (suc e)) (c ∷ s) ≡ c ∷ strip (take e s)
unfolding take trim_end char_is strip
trim_end-take c s zero h = refl
trim_end-take c s (suc e) h =
    let (d, p, q) = take-suc e s h in
    let ih = trim_end-take c s e (omega arith) in ground (arith, p, q, ih, strip-snoc (take e s) d)

take-length : (s : Str) → take (length s) s ≡ s
unfolding take
take-length [] = refl
take-length (c ∷ s) = ap (λ t. c ∷ t) (take-length s)

pub trim_end_lem :
    (c : ℕ) (s : Str) → take (trim_end (c ∷ s) (length (c ∷ s))) (c ∷ s) ≡ c ∷ strip s
trim_end_lem c s =
    rw (trim_end-take c s (length s) (omega arith)) (ap (λ t. c ∷ strip t) (take-length s))
