-- ===== src/Sql/CollectionLaws.antt =====
-- When the statements of all handlers can be collected.
use fearless.Base.{
  Option, none, some, Bool, true, false, Str, str_eq, str_eq_iff, str_eq_refl, List, [], ◌∷◌, Dict,
  get, put, get-put, if◌then◌else◌, ◌≡◌, refl, ap, sym, ◌∙◌, get_or, ◌↔◌, All, ◌⊎◌, inl, inr,
}
use mathlib.Core.Option.{map, some-injective}
use fearless.Transpile.Json.{unless_null}
use fearless.Sql.Collection.{
  TranspileResult, CollectedSql, conflicts, add_statements, add_names, collect_results, sorted_by,
  collect_sql,
}
use fearless.Sql.Kept.{Kept, statements_of, collect_sql-keeps}

-- A text for each key, with which statements agree.
Agreeing : (Str → Str) → Dict Str → Type 0
Agreeing text_of m = (j s : Str) → get j m ≡ some s → text_of j ≡ s

abbrev pub Agreed : (Str → Str) → Str × Str → Type 0
Agreed text_of (key, text) = text_of key ≡ text

no_conflict : (o : Option Str) (t : Str) → ((s : Str) → o ≡ some s → t ≡ s) → conflicts o t ≡ false
no_conflict none t h = refl
no_conflict (some s) t h = rw (← h s refl, str_eq_refl t) refl

agrees_at :
    (text_of : Str → Str) (k t : Str) (m : Dict Str)
    → Agreeing text_of m
    → text_of k ≡ t
    → (s : Str) → get k m ≡ some s
    → t ≡ s
unfolding Agreeing
agrees_at text_of k t m h e s found = sym e ∙ h k s found

pick :
    (b : Bool) (t s : Str) (o : Option Str)
    → (if b then some t else o) ≡ some s
    → ((b ≡ true) × (t ≡ s)) ⊎ (o ≡ some s)
pick true t s o h = inl (refl, some-injective t s h)
pick false t s o h = inr h

put-Agreeing :
    (text_of : Str → Str) (k t : Str) (m : Dict Str)
    → Agreeing text_of m
    → text_of k ≡ t
    → Agreeing text_of (put k t m)
unfolding Agreeing
put-Agreeing text_of k t m h e j s found =
    elim (pick (str_eq k j) t s (get j m) (sym (get-put j k t m) ∙ found)) [
      | inl (same, texts) ↦ ap text_of (sym ((str_eq_iff k j).0 same)) ∙ e ∙ texts
      | inr before ↦ h j s before
    ]

add_statements_total :
    (text_of : Str → Str) (l m : Dict Str)
    → Agreeing text_of m
    → All (Agreed text_of) l
    → (m' : Dict Str) × (add_statements l m ≡ some m') × Agreeing text_of m'
unfolding add_statements
add_statements_total text_of [] m h a = (m, refl, h)
add_statements_total text_of ((k, t) ∷ l) m h (e, a) =
    let (m', added, agreeing) =
      add_statements_total text_of l (put k t m) (put-Agreeing text_of k t m h e) a in
    (m', rw (no_conflict (get k m) t (agrees_at text_of k t m h e)) added, agreeing)

none-some : {A : Type 0} (a : A) → ¬ (none ≡ some a)
none-some a h = cc

AllAgreed : (Str → Str) → List TranspileResult → Type 0
AllAgreed text_of rs = All (λ r. All (Agreed text_of) (statements_of r)) rs

total_step :
    (text_of : Str → Str) (b : Bool) (l : Dict Str) (rs : List TranspileResult) (names : List Str)
    (c : CollectedSql)
    → ((d : CollectedSql)
        → Agreeing text_of d.statements
        → (c' : CollectedSql) × (collect_results rs d ≡ some c'))
    → Agreeing text_of c.statements
    → All (Agreed text_of) (if b then l else [])
    → (c' : CollectedSql) × ((if b
          then unless_null (add_statements l c.statements) (λ statements.
            collect_results rs
              (record { statements = statements; registered_handle_names = names }))
          else collect_results rs c)
        ≡ some c')
total_step text_of false l rs names c further h a = further c h
total_step text_of true l rs names c further h a =
    let (m, added, agreeing) = add_statements_total text_of l c.statements h a in
    let (c', collected) =
      further (record { statements = m; registered_handle_names = names }) agreeing in
    (c', rw added collected)

collect_results_total :
    (text_of : Str → Str) (rs : List TranspileResult) (c : CollectedSql)
    → Agreeing text_of c.statements
    → AllAgreed text_of rs
    → (c' : CollectedSql) × (collect_results rs c ≡ some c')
unfolding collect_results AllAgreed
collect_results_total text_of [] c h a = (c, refl)
collect_results_total text_of (r ∷ rs) c h (a, rest) =
    total_step text_of r.is_async r.statements rs
      (add_names r.registered_handle_names c.registered_handle_names) c
      (λ d h'. collect_results_total text_of rs d h' rest) h a

Kept-Agreed : (m l : Dict Str) → All (Kept m) l → All (Agreed (λ k. get_or (get k m) [])) l
Kept-Agreed m [] h = tt
Kept-Agreed m ((k, t) ∷ l) (h, hs) = (ap (λ o. get_or o []) h, Kept-Agreed m l hs)

Kept-AllAgreed :
    (m : Dict Str) (rs : List TranspileResult)
    → All (λ r. All (Kept m) (statements_of r)) rs
    → AllAgreed (λ k. get_or (get k m) []) rs
unfolding AllAgreed
Kept-AllAgreed m [] h = tt
Kept-AllAgreed m (r ∷ rs) (h, hs) = (Kept-Agreed m (statements_of r) h, Kept-AllAgreed m rs hs)

-- `collectSql` returns exactly if the statements of the handlers that are `async` give no key two
-- texts; otherwise it throws.
pub collect_sql_iff :
    (sort_names : List Str → List Str) (rs : List TranspileResult)
    → ((c : CollectedSql) × (collect_sql sort_names rs ≡ some c))
      ↔ ((text_of : Str → Str) × All (λ r. All (Agreed text_of) (statements_of r)) rs)
unfolding collect_sql Agreeing AllAgreed
collect_sql_iff sort_names rs = (
  λ (c, h). (
    (λ k. get_or (get k c.statements) []),
    Kept-AllAgreed c.statements rs (collect_sql-keeps sort_names rs c h),
  ),
  λ (text_of, a).
      let start : CollectedSql = record { statements = []; registered_handle_names = [] } in
      let (c, collected) =
        collect_results_total text_of rs start (λ j s e. absurd (none-some s e)) a in
      (sorted_by sort_names c, ap (map (sorted_by sort_names)) collected),
)
