-- ===== src/Path/Laws.antt =====
-- The normal form of a path: one leading slash or more, no query, and no trailing slash but the
-- root's.
use fearless.Base.{
  ℕ, ◌-◌, ◌≡◌, ◌≢◌, ◌↔◌, refl, false, Str, before, str_eq, str_eq_iff, [], ◌∷◌, ◌++◌, ◌==◌, All,
  length, arith, Bool-cases, inl, inr, ◌&&◌, ◌||◌, if◌then◌else◌,
}
use fearless.Path.{char_is, normalize_part, or_root, normalize_path, root}
use fearless.Path.Strip.{strip, trim_end_lem, is_empty}

abbrev NoQuery : Str → Type 0
NoQuery = All (λ c. c ≢ b'?')

abbrev EndsPlain : Str → Type 0
EndsPlain [] = Unit
EndsPlain (c ∷ []) = c ≢ b'/'
EndsPlain (c ∷ d ∷ s) = EndsPlain (d ∷ s)

abbrev pub IsNormal : Str → Type 0
IsNormal [] = ⊥
IsNormal (c ∷ s) = (c ≡ b'/') × NoQuery s × EndsPlain s

before-NoQuery : (s : Str) → NoQuery (before b'?' s)
unfolding before
before-NoQuery [] = tt
before-NoQuery (c ∷ s) = ground (arith, before-NoQuery s)

before-eq : (s : Str) → NoQuery s → before b'?' s ≡ s
unfolding before
before-eq [] h = refl
before-eq (c ∷ s) h = ground (arith, before-eq s h.1)

strip-NoQuery : (s : Str) → NoQuery s → NoQuery (strip s)
unfolding strip is_empty
strip-NoQuery [] h = tt
strip-NoQuery (c ∷ s) h = ground (arith, strip-NoQuery s h.1)

EndsPlain-cons : (c : ℕ) (s : Str) → EndsPlain s → is_empty s ≡ false → EndsPlain (c ∷ s)
unfolding is_empty
EndsPlain-cons c [] h e = cc
EndsPlain-cons c (d ∷ s) h e = h

strip-EndsPlain : (s : Str) → EndsPlain (strip s)
unfolding strip
strip-EndsPlain [] = tt
strip-EndsPlain (c ∷ s) = go (strip s) (strip-EndsPlain s)
  where
    go : (r : Str) → EndsPlain r → EndsPlain (if is_empty r && c == b'/' then [] else c ∷ r)
    go [] h = ground arith
    go (d ∷ r) h = h

strip-eq : (s : Str) → EndsPlain s → strip s ≡ s
unfolding strip is_empty
strip-eq [] h = refl
strip-eq (c ∷ []) h = ground arith
strip-eq (c ∷ d ∷ s) h = ground (arith, strip-eq (d ∷ s) h)

-- The test of the last character.
last_plain_iff : (c : ℕ) (s : Str) → (char_is (c ∷ s) (length s) b'/' ≡ false) ↔ EndsPlain (c ∷ s)
unfolding char_is
last_plain_iff c [] = ground arith
last_plain_iff c (d ∷ s) = last_plain_iff d s

EndsPlain-tail : (c : ℕ) (s : Str) → EndsPlain (c ∷ s) → EndsPlain s
EndsPlain-tail c [] h = tt
EndsPlain-tail c (d ∷ s) h = h

pred_length : (c : ℕ) (s : Str) → length (c ∷ s) - 1 ≡ length s
pred_length c s = omega arith

cut : (c : ℕ) (s : Str) → NoQuery s → c ≡ b'/' → IsNormal (c ∷ strip s)
cut c s h e = (e, strip-NoQuery s h, strip-EndsPlain s)

normalize_part-IsNormal :
    (c : ℕ) (s : Str) → NoQuery (c ∷ s) → IsNormal (or_root (normalize_part (c ∷ s)))
unfolding normalize_part or_root
normalize_part-IsNormal c s h = elim (Bool-cases (c == b'/')) [
  | inl slash ↦ ground (
    arith,
    pred_length c s,
    trim_end_lem c s,
    cut c s h.1,
    last_plain_iff c s,
    EndsPlain-tail c s,
  )
  | inr plain ↦ ground (
    arith,
    pred_length c s,
    trim_end_lem b'/' (c ∷ s),
    cut b'/' (c ∷ s) h refl,
    last_plain_iff c s,
  )
]

-- Whatever the path, the normalised path begins with a slash, holds no `?`, and ends in a slash only if it is
-- the root.
pub normalize_path-IsNormal : (path : Str) → IsNormal (normalize_path path)
unfolding normalize_path
normalize_path-IsNormal path = elim (Bool-cases (str_eq path [] || str_eq path root)) [
  | inl plain ↦ rw plain (refl, tt, tt)
  | inr other ↦ rw other (go (before b'?' path) (before-NoQuery path))
]
  where
    go :
        (part : Str)
        → NoQuery part
        → IsNormal (if str_eq part [] then root else or_root (normalize_part part))
    go [] h = (refl, tt, tt)
    go (c ∷ s) h = normalize_part-IsNormal c s h

normalize_part-eq : (s : Str) → IsNormal s → or_root (normalize_part s) ≡ s
unfolding normalize_part or_root
normalize_part-eq [] h = elim h [ ]
normalize_part-eq (c ∷ s) h =
    ground (arith, pred_length c s, trim_end_lem c s, strip-eq s h.2, last_plain_iff c s)

-- A path in normal form is left as it is.
normalize_path-eq : (path : Str) → IsNormal path → normalize_path path ≡ path
unfolding normalize_path
normalize_path-eq [] h = elim h [ ]
normalize_path-eq (c ∷ s) h =
    ground (arith, str_eq_iff (c ∷ s) root, normalize_part-eq (c ∷ s) h, before-eq (c ∷ s))

-- Normalising a path twice is normalising it once.
pub normalize_path_idempotent :
    (path : Str) → normalize_path (normalize_path path) ≡ normalize_path path
normalize_path_idempotent path = normalize_path-eq _ (normalize_path-IsNormal path)

before-append : (p q : Str) → NoQuery p → before b'?' (p ++ b'?' ∷ q) ≡ p
unfolding before
before-append [] q h = refl
before-append (c ∷ p) q h = ground (arith, before-append p q h.1)

-- What follows the first `?` of a path does not matter to `normalizePath`.
pub normalize_path-append_query :
    (p q : Str) → NoQuery p → normalize_path (p ++ b'?' ∷ q) ≡ normalize_path p
unfolding normalize_path
normalize_path-append_query [] q h = unfold before str_eq in refl
normalize_path-append_query (c ∷ p) q h = ground (
  arith,
  before-append (c ∷ p) q h,
  before-eq (c ∷ p) h,
  str_eq_iff (c ∷ p) root,
  str_eq_iff (c ∷ p ++ b'?' ∷ q) root,
  normalize_part-eq root (refl, tt, tt),
)
