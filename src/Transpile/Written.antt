-- ===== src/Transpile/Written.antt =====
-- What lists of chunks write.
use fearless.Base.{
  Option, none, some, Bool, true, false, Str, codes, List, [], ◌∷◌, ◌++◌, join, ◌≡◌, refl, ap, sym,
  ◌∙◌, append_assoc, append-nil, ◌⊎◌, inl, inr,
}
use mathlib.Core.Option.{some-injective}
use fearless.Web.JsonText.{json_escape, json_quote, json_escape-append}
use fearless.Transpile.Shapes.{json_string_format, CtxRead, BodyChunk, literal, read_chunk}
use fearless.Transpile.Json.{
  literal_unless_empty, enclosed, comma_unless, read_in_quotes, or_dynamic,
}
use fearless.Transpile.Value.{write_chunks}

-- Texts with commas between them, and with one before the first unless it is the first of all.
unfoldable pub comma_texts : Bool → List Str → Str
comma_texts first [] = []
comma_texts true (t ∷ ts) = t ++ comma_texts false ts
comma_texts false (t ∷ ts) = b',' ∷ (t ++ comma_texts false ts)

pub comma_texts-eq-join : (ts : List Str) → comma_texts true ts ≡ join (codes ",") ts
unfolding comma_texts join
comma_texts-eq-join [] = refl
comma_texts-eq-join (t ∷ []) = append-nil t
comma_texts-eq-join (t ∷ u ∷ ts) =
    ap (λ s. t ++ (b',' ∷ s)) (comma_texts-eq-join (u ∷ ts))
    ∙ sym (append_assoc t (codes ",") (join (codes ",") (u ∷ ts)))

pub or_dynamic-eq-some :
    (text : Option Str) (read : Option CtxRead) (chunks : Option (List BodyChunk))
    (cs : List BodyChunk)
    → or_dynamic text read chunks ≡ some cs
    → ((t : Str) × (text ≡ some t) × (cs ≡ literal t ∷ []))
      ⊎ (((r : CtxRead) × (text ≡ none) × (read ≡ some r) × (cs ≡ read_in_quotes r))
          ⊎ (chunks ≡ some cs))
or_dynamic-eq-some (some t) read chunks cs h = inl (t, refl, sym (some-injective _ _ h))
or_dynamic-eq-some none (some r) chunks cs h = inr (inl (r, refl, refl, sym (some-injective _ _ h)))
or_dynamic-eq-some none none chunks cs h = inr (inr h)

module _ (url_encode : Str → Str) (reads : CtxRead → Str) where
  unfoldable pub written : List BodyChunk → Str
  unfolding write_chunks
  written cs = write_chunks url_encode reads cs

  pub written-append : (cs ds : List BodyChunk) → written (cs ++ ds) ≡ written cs ++ written ds
  unfolding written write_chunks
  written-append [] ds = refl
  written-append (c ∷ cs) ds =
      rw (written-append cs ds) (sym (append_assoc _ (written cs) (written ds)))

  pub written-enclosed :
      (opening closing : Str) (cs : List BodyChunk)
      → written (enclosed opening closing cs) ≡ opening ++ (written cs ++ closing)
  unfolding written write_chunks
  written-enclosed opening closing cs =
      rw (written-append cs (literal closing ∷ [])) (rw (append-nil closing) refl)

  pub written-literal_unless_empty :
      (s : Str) (cs : List BodyChunk) → written (literal_unless_empty s cs) ≡ s ++ written cs
  unfolding written write_chunks
  written-literal_unless_empty [] cs = refl
  written-literal_unless_empty (c ∷ s) cs = refl

  pub span_lem :
      (r : CtxRead) (text s : Str) (ds cs : List BodyChunk)
      → json_escape text ≡ text
      → written ds ≡ json_escape s
      → read_chunk r json_string_format ∷ literal_unless_empty text ds ≡ cs
      → written cs ≡ json_escape (reads r ++ (text ++ s))
  unfolding written write_chunks
  span_lem r text s ds cs p w e = rw (sym e) (
      ap (λ t. json_escape (reads r) ++ t) (written-literal_unless_empty text ds)
      ∙ rw (w, json_escape-append (reads r) (text ++ s), json_escape-append text s, p) refl)

  pub written-literal : (t : Str) → written (literal t ∷ []) ≡ t
  unfolding written write_chunks
  written-literal t = append-nil t

  pub written-read_in_quotes : (r : CtxRead) → written (read_in_quotes r) ≡ json_quote (reads r)
  unfolding written write_chunks json_quote
  written-read_in_quotes r = refl

  pub template_lem :
      (head s : Str) (ds es cs : List BodyChunk)
      → json_escape head ≡ head
      → written ds ≡ json_escape s
      → literal_unless_empty head ds ≡ es
      → enclosed (codes "\"") (codes "\"") es ≡ cs
      → written cs ≡ json_quote (head ++ s)
  unfolding json_quote
  template_lem head s ds es cs p w e f =
      ap written (sym f)
      ∙ written-enclosed (codes "\"") (codes "\"") es
      ∙ ap (λ t. b'"' ∷ (t ++ b'"' ∷ []))
          (ap written (sym e)
            ∙ written-literal_unless_empty head ds
            ∙ rw (w, json_escape-append head s, p) refl)

  pub item_lem :
      (first : Bool) (ts : List Str) (t : Str) (ds es cs : List BodyChunk)
      → written ds ≡ t
      → written es ≡ comma_texts false ts
      → comma_unless first (ds ++ es) ≡ cs
      → written cs ≡ comma_texts first (t ∷ ts)
  unfolding comma_texts written write_chunks
  item_lem true ts t ds es cs w ws e = ap written (sym e) ∙ rw (written-append ds es, w, ws) refl
  item_lem false ts t ds es cs w ws e =
      ap written (sym e) ∙ ap (λ s. b',' ∷ s) (rw (written-append ds es, w, ws) refl)
