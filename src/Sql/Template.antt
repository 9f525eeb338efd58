-- ===== src/Sql/Template.antt =====
-- `sql` of src/sql.ts and `parseSqlTemplate` of packages/aot-analyzer/src/sql-template.ts. Both see the
-- same template: the tag `sql` at runtime its strings and values, the analyser its syntax.
use fearless.Base.{
  ℕ, suc, Option, none, some, Str, codes, str_eq, List, [], ◌∷◌, ◌++◌, map, join, if◌then◌else◌,
}
use fearless.Emit.Response.{decimal}

pub record SqlQuery (V : Type 0) : Type 0 where
  pub text : Str
  pub values : List V

-- `$${i + 1}`
unfoldable pub placeholder : ℕ → Str
unfolding decimal
placeholder i = b'$' ∷ decimal (suc i)

module _ {V : Type 0} where
  -- The loop, from the value at `i`; `rest` holds the strings from `i + 1`.
  unfoldable pub sql_loop : ℕ → List Str → List V → Str
  unfolding placeholder
  sql_loop i rest [] = []
  sql_loop i [] (v ∷ values) = placeholder i ++ sql_loop (suc i) [] values
  sql_loop i (s ∷ rest) (v ∷ values) = placeholder i ++ (s ++ sql_loop (suc i) rest values)

  unfoldable pub sql : List Str → List V → SqlQuery V
  unfolding sql_loop
  sql [] values = record { text = sql_loop 0 [] values; values = values }
  sql (s ∷ rest) values = record { text = s ++ sql_loop 0 rest values; values = values }

-- A span of a template: the source text of its expression, and the text behind it.
pub record TemplateSpan : Type 0 where
  pub expression : Str
  pub literal_text : Str

pub data TemplateLiteral : Type 0 where
  no_substitution : Str → TemplateLiteral
  with_spans : Str → List TemplateSpan → TemplateLiteral

-- A tag that is not an identifier is none.
pub record TaggedTemplate : Type 0 where
  pub tag : Option Str
  pub template : TemplateLiteral

pub record SqlBindParam : Type 0 where
  pub expression : Str
  pub index : ℕ

pub record SqlTemplate : Type 0 where
  pub sql_text : Str
  pub params : List SqlBindParam

-- What `forEach` pushes to `parts` and to `params`, from the span at `index`.
unfoldable pub parts_from : ℕ → List TemplateSpan → List Str
unfolding placeholder
parts_from index [] = []
parts_from index (span ∷ spans) =
    placeholder index ∷ span.literal_text ∷ parts_from (suc index) spans

unfoldable pub params_from : ℕ → List TemplateSpan → List SqlBindParam
params_from index [] = []
params_from index (span ∷ spans) =
    record { expression = span.expression; index = index } ∷ params_from (suc index) spans

unfoldable pub template_of_literal : TemplateLiteral → SqlTemplate
unfolding join parts_from params_from
template_of_literal (no_substitution text) = record { sql_text = text; params = [] }
template_of_literal (with_spans head spans) = record {
  sql_text = join [] (head ∷ parts_from 0 spans);
  params = params_from 0 spans;
}

abbrev if_sql : Option Str → SqlTemplate → Option SqlTemplate
if_sql none t = none
if_sql (some tag) t = if str_eq tag (codes "sql") then some t else none

unfoldable pub parse_sql_template : TaggedTemplate → Option SqlTemplate
unfolding template_of_literal str_eq
parse_sql_template node = if_sql node.tag (template_of_literal node.template)

-- The strings with which the runtime calls the tag.
abbrev pub strings_of : TemplateLiteral → List Str
strings_of (no_substitution text) = text ∷ []
strings_of (with_spans head spans) = head ∷ map (λ span. span.literal_text) spans

abbrev pub spans_of : TemplateLiteral → List TemplateSpan
spans_of (no_substitution text) = []
spans_of (with_spans head spans) = spans
