-- ===== src/Routing/Splitting.antt =====
-- `splitNormalizedPath` loses nothing of a path in normal form, and what a pattern without
-- parameters fits.
use fearless.Base.{
  ℕ, true, false, Str, codes, str_eq_iff, join, List, [], ◌∷◌, ◌==◌, ==_iff, ◌≡◌, ◌≢◌, refl, ap,
  sym, ◌∙◌, arith, Bool-cases, inl, inr, starts_with, str_eq_refl,
}
use fearless.Path.Laws.{IsNormal}
use fearless.Routing.Pattern.{split_slash, cons_head, split_normalized_path, compile_segments}
use fearless.Routing.Fits.{fits}

abbrev slash : Str
slash = codes "/"

IsCons : List Str → Type 0
IsCons [] = ⊥
IsCons (p ∷ ps) = Unit

split_slash-IsCons : (s : Str) → IsCons (split_slash s)
unfolding split_slash IsCons
split_slash-IsCons [] = tt
split_slash-IsCons (c ∷ s) = elim (Bool-cases (c == b'/')) [
  | inl e ↦ rw e tt
  | inr e ↦ rw e (go (split_slash s))
]
  where
    go : (ps : List Str) → IsCons (cons_head c ps)
    go [] = tt
    go (p ∷ ps) = tt

join-nil_cons : (ps : List Str) → IsCons ps → join slash ([] ∷ ps) ≡ b'/' ∷ join slash ps
unfolding join IsCons
join-nil_cons [] h = elim h [ ]
join-nil_cons (p ∷ ps) h = refl

join-cons_head :
    (c : ℕ) (ps : List Str) → IsCons ps → join slash (cons_head c ps) ≡ c ∷ join slash ps
unfolding join IsCons
join-cons_head c [] h = elim h [ ]
join-cons_head c (p ∷ []) h = refl
join-cons_head c (p ∷ q ∷ r) h = refl

-- Joining the parts by slashes gives the text back.
join-split_slash : (s : Str) → join slash (split_slash s) ≡ s
unfolding split_slash
join-split_slash [] = unfold join in refl
join-split_slash (c ∷ s) = ground (
  arith,
  ==_iff c b'/',
  join-nil_cons (split_slash s) (split_slash-IsCons s),
  join-cons_head c (split_slash s) (split_slash-IsCons s),
  join-split_slash s,
)

split_slash-injective : (s t : Str) → split_slash s ≡ split_slash t → s ≡ t
split_slash-injective s t e = sym (join-split_slash s) ∙ ap (join slash) e ∙ join-split_slash t

split_slash-ne-nil : (s : Str) → split_slash s ≢ []
unfolding IsCons
split_slash-ne-nil s e = rw e at (split_slash-IsCons s)

split_normalized_path-cons :
    (d : ℕ) (s : Str) → split_normalized_path (b'/' ∷ d ∷ s) ≡ split_slash (d ∷ s)
unfolding split_normalized_path
split_normalized_path-cons d s = refl

split_normalized_path-root : split_normalized_path (b'/' ∷ []) ≡ []
unfolding split_normalized_path
split_normalized_path-root = refl

-- Two paths in normal form with the same segments are the same path.
pub split_normalized_path-injective :
    (p q : Str)
    → IsNormal p
    → IsNormal q
    → split_normalized_path p ≡ split_normalized_path q
    → p ≡ q
split_normalized_path-injective [] q hp hq e = elim hp [ ]
split_normalized_path-injective (c ∷ s) [] hp hq e = elim hq [ ]
split_normalized_path-injective (c ∷ s) (d ∷ t) hp hq e =
    ground (arith, go s t (rw (hp.0, hq.0) at e))
  where
    go : (s t : Str) → split_normalized_path (b'/' ∷ s) ≡ split_normalized_path (b'/' ∷ t) → s ≡ t
    go [] [] e = refl
    go [] (x ∷ t) e = absurd (
        split_slash-ne-nil (x ∷ t)
          (sym (split_normalized_path-cons x t) ∙ sym e ∙ split_normalized_path-root))
    go (x ∷ s) [] e = absurd (
        split_slash-ne-nil (x ∷ s)
          (sym (split_normalized_path-cons x s) ∙ e ∙ split_normalized_path-root))
    go (x ∷ s) (y ∷ t) e =
        split_slash-injective (x ∷ s) (y ∷ t)
          (sym (split_normalized_path-cons x s) ∙ e ∙ split_normalized_path-cons y t)

-- A compiled pattern fits the segments that it is compiled from.
pub fits-compile_segments : (ss : List Str) → fits (compile_segments ss).0 ss ≡ true
unfolding fits compile_segments
fits-compile_segments [] = refl
fits-compile_segments (s ∷ ss) = elim (Bool-cases (starts_with (codes ":") s)) [
  | inl e ↦ rw e (fits-compile_segments ss)
  | inr e ↦ rw e (ground (arith, str_eq_refl s, fits-compile_segments ss))
]

-- Without parameters it fits nothing else.
pub fits_exact :
    (ss xs : List Str)
    → (compile_segments ss).1 ≡ false
    → fits (compile_segments ss).0 xs ≡ true
    → ss ≡ xs
unfolding fits compile_segments
fits_exact [] [] h k = refl
fits_exact [] (x ∷ xs) h k = cc
fits_exact (s ∷ ss) [] h k = ground arith
fits_exact (s ∷ ss) (x ∷ xs) h k = ground (arith, str_eq_iff s x, fits_exact ss xs)
