-- ===== src/Sql/Kept.antt =====
-- What is collected has the statements of the handlers.
use fearless.Base.{
  Option, none, some, Bool, true, false, Str, str_eq_iff, str_eq_refl, List, [], ◌∷◌, Dict, get,
  put, get-put, if◌then◌else◌, ◌≡◌, refl, ap, sym, ◌∙◌, arith, subst, All,
}
use mathlib.Core.Option.{some-injective}
use fearless.Transpile.Json.{unless_null}
use fearless.Transpile.LiteralLaws.{unless_null-eq-some, map-eq-some}
use fearless.Sql.Collection.{
  TranspileResult, CollectedSql, conflicts, add_statements, add_names, collect_results, collect_sql,
}

-- The statement stands in the dictionary under its key.
abbrev pub Kept : Dict Str → Str × Str → Type 0
Kept m (key, text) = get key m ≡ some text

get-put-kept :
    (j k : Str) (s t : Str) (m : Dict Str)
    → conflicts (get k m) t ≡ false
    → get j m ≡ some s
    → get j (put k t m) ≡ some s
get-put-kept j k s t m h e = ground (arith, get-put j k t m, str_eq_iff k j, str_eq_iff s t)

guard_none :
    {A : Type 0} (b : Bool) (o : Option A) (x : A)
    → (if b then none else o) ≡ some x
    → (b ≡ false) × (o ≡ some x)
guard_none true o x h = cc
guard_none false o x h = (refl, h)

Grows : Dict Str → Dict Str → Type 0
Grows m m' = (j s : Str) → get j m ≡ some s → get j m' ≡ some s

-- The statements of a result that are collected.
abbrev pub statements_of : TranspileResult → Dict Str
statements_of r = if r.is_async then r.statements else []

All-Grows : (m m' l : Dict Str) → Grows m m' → All (Kept m) l → All (Kept m') l
unfolding Grows
All-Grows m m' [] g h = tt
All-Grows m m' ((k, t) ∷ l) g (h, hs) = (g k t h, All-Grows m m' l g hs)

add_statements_lem :
    (l m m' : Dict Str) → add_statements l m ≡ some m' → Grows m m' × All (Kept m') l
unfolding add_statements Grows
add_statements_lem [] m m' h = (λ j s e. ap (get j) (sym (some-injective m m' h)) ∙ e, tt)
add_statements_lem ((k, t) ∷ l) m m' h =
    let (clean, added) = guard_none (conflicts (get k m) t) (add_statements l (put k t m)) m' h in
    let (grows, kept) = add_statements_lem l (put k t m) m' added in
    (
      λ j s e. grows j s (get-put-kept j k s t m clean e),
      (grows k t (get-put k k t m ∙ rw (str_eq_refl k) refl), kept),
    )

Collects : List TranspileResult → CollectedSql → CollectedSql → Type 0
Collects rs c c' =
    Grows c.statements c'.statements × All (λ r. All (Kept c'.statements) (statements_of r)) rs

collect_step :
    (b : Bool) (l : Dict Str) (rs : List TranspileResult) (names : List Str) (c c' : CollectedSql)
    → ((d : CollectedSql) → collect_results rs d ≡ some c' → Collects rs d c')
    → (if b
        then unless_null (add_statements l c.statements) (λ statements.
          collect_results rs (record { statements = statements; registered_handle_names = names }))
        else collect_results rs c)
      ≡ some c'
    → Grows c.statements c'.statements
      × All (Kept c'.statements) (if b then l else [])
      × All (λ r. All (Kept c'.statements) (statements_of r)) rs
unfolding Collects Grows
collect_step false l rs names c c' further h = let (grows, rest) = further c h in (grows, tt, rest)
collect_step true l rs names c c' further h =
    let (m, added, collected) = unless_null-eq-some (add_statements l c.statements) _ c' h in
    let (grows, kept) = add_statements_lem l c.statements m added in
    let (grows', rest) =
      further (record { statements = m; registered_handle_names = names }) collected in
    (λ j s e. grows' j s (grows j s e), All-Grows m c'.statements l grows' kept, rest)

collect_results_lem :
    (rs : List TranspileResult) (c c' : CollectedSql)
    → collect_results rs c ≡ some c'
    → Collects rs c c'
unfolding collect_results Collects Grows
collect_results_lem [] c c' h =
    (λ j s e. ap (λ x. get j x.statements) (sym (some-injective c c' h)) ∙ e, tt)
collect_results_lem (r ∷ rs) c c' h =
    let (grows, kept, rest) =
      collect_step r.is_async r.statements rs
        (add_names r.registered_handle_names c.registered_handle_names) c c'
        (λ d e. collect_results_lem rs d c' e) h in
    (grows, (kept, rest))

-- What is collected has every statement of every handler that is `async`, under its key.
pub collect_sql-keeps :
    (sort_names : List Str → List Str) (rs : List TranspileResult) (c : CollectedSql)
    → collect_sql sort_names rs ≡ some c
    → All (λ r. All (Kept c.statements) (statements_of r)) rs
unfolding collect_sql Collects
collect_sql-keeps sort_names rs c h =
    let start : CollectedSql = record { statements = []; registered_handle_names = [] } in
    let (d, collected, sorted) = map-eq-some _ (collect_results rs start) c h in
    subst (λ x. All (λ r. All (Kept x.statements) (statements_of r)) rs) sorted
      (collect_results_lem rs start d collected).1
