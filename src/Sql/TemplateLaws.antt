-- ===== src/Sql/TemplateLaws.antt =====
-- The analyser computes the text that the runtime computes.
use fearless.Base.{
  ℕ, suc, ◌≡◌, refl, ap, sym, ◌∙◌, some, Str, codes, str_eq, List, [], ◌∷◌, ◌++◌, map, join, length,
  arith, append-nil,
}
use fearless.Emit.Response.{decimal}
use fearless.Sql.Template.{
  sql, sql_loop, placeholder, TemplateSpan, TemplateLiteral, no_substitution, with_spans,
  TaggedTemplate, SqlBindParam, SqlTemplate, parts_from, params_from, parse_sql_template,
  strings_of, spans_of, template_of_literal,
}

join-cons : (s : Str) (ss : List Str) → join [] (s ∷ ss) ≡ s ++ join [] ss
unfolding join
join-cons s [] = sym (append-nil s)
join-cons s (t ∷ ss) = ap (λ u. u ++ join [] (t ∷ ss)) (append-nil s)

module _ {V : Type 0} where
  join-parts_from :
      (i : ℕ) (spans : List TemplateSpan) (values : List V)
      → length values ≡ length spans
      → join [] (parts_from i spans) ≡ sql_loop i (map (λ span. span.literal_text) spans) values
  unfolding join parts_from sql_loop
  join-parts_from i [] [] h = refl
  join-parts_from i [] (v ∷ values) h = absurd (omega arith)
  join-parts_from i (span ∷ spans) [] h = absurd (omega arith)
  join-parts_from i (span ∷ spans) (v ∷ values) h =
      join-cons (placeholder i) (span.literal_text ∷ parts_from (suc i) spans)
      ∙ ap (λ s. placeholder i ++ s)
          (join-cons span.literal_text (parts_from (suc i) spans)
            ∙ ap (λ s. span.literal_text ++ s) (join-parts_from (suc i) spans values (omega arith)))

-- The numbers of the parameters are their places.
unfoldable pub InOrder : ℕ → List SqlBindParam → Type 0
InOrder i [] = Unit
InOrder i (p ∷ ps) = (p.index ≡ i) × InOrder (suc i) ps

params_from-InOrder : (i : ℕ) (spans : List TemplateSpan) → InOrder i (params_from i spans)
unfolding params_from InOrder
params_from-InOrder i [] = tt
params_from-InOrder i (span ∷ spans) = (refl, params_from-InOrder (suc i) spans)

-- The text of a template with `$n`, `$n+1` and so on for its substitutions.
abbrev pub numbered_text : ℕ → Str → List TemplateSpan → Str
numbered_text n text [] = text
numbered_text n text (span ∷ spans) =
    text ++ (b'$' ∷ (decimal n ++ numbered_text (suc n) span.literal_text spans))

abbrev pub head_of : TemplateLiteral → Str
head_of (no_substitution text) = text
head_of (with_spans head spans) = head

abbrev pub expressions : List TemplateSpan → List Str
expressions spans = map (λ span. span.expression) spans

abbrev pub Agrees : {V : Type 0} → SqlTemplate → TemplateLiteral → List V → Type 0
Agrees t template values =
    (t.sql_text ≡ (sql (strings_of template) values).text)
    × (t.sql_text ≡ numbered_text 1 (head_of template) (spans_of template))
    × (map (λ p. p.expression) t.params ≡ expressions (spans_of template))
    × InOrder 0 t.params

join-numbered :
    (i : ℕ) (text : Str) (spans : List TemplateSpan)
    → join [] (text ∷ parts_from i spans) ≡ numbered_text (suc i) text spans
unfolding parts_from placeholder join
join-numbered i text [] = join-cons text [] ∙ append-nil text
join-numbered i text (span ∷ spans) =
    join-cons text (parts_from i (span ∷ spans))
    ∙ ap (λ s. text ++ s)
        (join-cons (placeholder i) (span.literal_text ∷ parts_from (suc i) spans)
          ∙ ap (λ s. placeholder i ++ s) (join-numbered (suc i) span.literal_text spans))

expressions-params_from :
    (i : ℕ) (spans : List TemplateSpan)
    → map (λ p. p.expression) (params_from i spans) ≡ expressions spans
unfolding params_from
expressions-params_from i [] = refl
expressions-params_from i (span ∷ spans) =
    ap (λ l. span.expression ∷ l) (expressions-params_from (suc i) spans)

template_of_literal-Agrees :
    {V : Type 0} (template : TemplateLiteral) (values : List V)
    → length values ≡ length (spans_of template)
    → Agrees (template_of_literal template) template values
unfolding sql InOrder sql_loop template_of_literal
template_of_literal-Agrees (no_substitution text) [] e = (sym (append-nil text), refl, refl, tt)
template_of_literal-Agrees (no_substitution text) (v ∷ vs) e = absurd (omega arith)
template_of_literal-Agrees (with_spans head spans) values e = (
  join-cons head (parts_from 0 spans) ∙ ap (λ s. head ++ s) (join-parts_from 0 spans values e),
  join-numbered 0 head spans,
  expressions-params_from 0 spans,
  params_from-InOrder 0 spans,
)

-- For a template with the tag `sql`, the text that the analyser registers is the text that `sql` makes
-- at runtime of the same template, with any values, one for each substitution; it is the template's
-- text with `$1`, `$2` and so on for the substitutions; and the parameters that it records are the
-- expressions of the substitutions, in their order and numbered from 0.
pub parse_sql_template-sql :
    {V : Type 0} (node : TaggedTemplate) (values : List V)
    → node.tag ≡ some (codes "sql")
    → length values ≡ length (spans_of node.template)
    → (t : SqlTemplate) × (parse_sql_template node ≡ some t) × Agrees t node.template values
unfolding parse_sql_template str_eq
parse_sql_template-sql node values h e = (
  template_of_literal node.template,
  rw h refl,
  template_of_literal-Agrees node.template values e,
)
