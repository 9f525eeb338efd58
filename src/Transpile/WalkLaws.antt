-- ===== src/Transpile/WalkLaws.antt =====
-- The blocks of a handler, tried in order, return what its statements return.
use fearless.Base.{
  Option, none, some, Bool, true, false, not, Str, List, [], ◌∷◌, ◌++◌, map, if◌then◌else◌, get_or,
  or_else, ◌≡◌, refl, ap, ◌∙◌, is_some, arith,
}
use mathlib.Core.Option
use fearless.Syntax.{Node, Nodes, no_nodes, node, return_of, if_then, if_then_else, block_of}
use fearless.Transpile.Shapes.{CtxRead}
use fearless.Transpile.Reads.{rust_read}
use fearless.Transpile.Guards.{
  guarded, negated, if_some, render_condition_as_rust, ReturnBlock, walk_statements, walk_branch,
}
use fearless.Transpile.Formula.{
  Formula, both, negation, print_formula, truth, first_branch, condition, holds, Branching,
  BranchingBranch, run, run_branch,
}
use fearless.Transpile.GuardLaws.{render_condition_lem}

-- A branch as a formula, and as the text that the transpiler has of it.
abbrev pub printed : Option Formula × Node → ReturnBlock
printed (guard, e) = (Option.map print_formula guard, e)

abbrev within : Option Formula → Formula → Formula
within none f = f
within (some g) f = both g f

within_lem :
    (guard : Option Formula) (f : Formula)
    → guarded (Option.map print_formula guard) (print_formula f) ≡ print_formula (within guard f)
unfolding print_formula
within_lem none f = refl
within_lem (some g) f = refl

map-append :
    (bs cs : List (Option Formula × Node))
    → map printed (bs ++ cs) ≡ map printed bs ++ map printed cs
map-append [] cs = refl
map-append (b ∷ bs) cs = ap (λ l. printed b ∷ l) (map-append bs cs)

condition-is_some : (o : Option Bool) → is_some o ≡ true → o ≡ some (get_or o false)
condition-is_some (some b) h = refl
condition-is_some none h = cc

module _ (to_lower_case : Str → Str) (request : CtxRead → Option Str) where
  first_branch-append :
      (bs cs : List (Option Formula × Node))
      → first_branch (rust_read request) (bs ++ cs)
        ≡ or_else (first_branch (rust_read request) bs) (first_branch (rust_read request) cs)
  unfolding first_branch
  first_branch-append [] cs = refl
  first_branch-append ((none, e) ∷ bs) cs = refl
  first_branch-append ((some f, e) ∷ bs) cs = ground (arith, first_branch-append bs cs)

  abbrev is_open : Option Formula → Bool
  is_open none = true
  is_open (some g) = truth (rust_read request) g

  under :
      (guard : Option Formula) (f : Formula) (b : Bool) (returned : Option Node)
      → truth (rust_read request) f ≡ b
      → (if is_open (some (within guard f)) then returned else none)
        ≡ (if is_open guard then (if b then returned else none) else none)
  unfolding truth
  under none f b returned h = rw h refl
  under (some g) f b returned h = ground (arith, h)

  -- The branches of `blocks`: tried in order under `guard`, they return what `returned` has.
  abbrev pub Branches : List ReturnBlock → Option Formula → Option Node → Type 0
  Branches blocks guard returned =
      (bs : List (Option Formula × Node)) × (blocks ≡ map printed bs)
      × (first_branch (rust_read request) bs ≡ (if is_open guard then returned else none))

  either_branch :
      (b : Bool) (r s : Option Node)
      → or_else (if b then r else none) (if b then s else none) ≡ (if b then or_else r s else none)
  either_branch true r s = refl
  either_branch false r s = refl

  negated_branch :
      (b : Bool) (r s : Option Node)
      → or_else (if b then r else none) (if not b then s else none) ≡ (if b then r else s)
  negated_branch true none s = refl
  negated_branch true (some e) s = refl
  negated_branch false r s = refl

  Branches-append :
      (xs ys : List ReturnBlock) (guard : Option Formula) (r s : Option Node)
      → Branches xs guard r
      → Branches ys guard s
      → Branches (xs ++ ys) guard (or_else r s)
  Branches-append xs ys guard r s (bs, e, first) (cs, e', first') = (
    bs ++ cs,
    rw (map-append bs cs, ← e, ← e') refl,
    first_branch-append bs cs ∙ rw (first, first') (either_branch (is_open guard) r s),
  )

  if_then_lem :
      (c t : Node) (guard : Option Formula)
      → ((f : Formula)
          → Branches
              (walk_branch to_lower_case t (print_formula f))
              (some f)
              (run_branch to_lower_case request t))
      → is_some (condition to_lower_case request c) ≡ true
      → Branches
          (if_some
            (render_condition_as_rust to_lower_case c)
            (λ cond. walk_branch to_lower_case t (guarded (Option.map print_formula guard) cond)))
          guard
          (if holds to_lower_case request c then run_branch to_lower_case request t else none)
  if_then_lem c t guard branch h =
      let (f, e, t') =
        render_condition_lem to_lower_case request c (holds to_lower_case request c)
          (condition-is_some (condition to_lower_case request c) h) in
      let (bs, eb, first) = branch (within guard f) in
      (
        bs,
        rw (e, within_lem guard f) eb,
        first
            ∙ under guard f (holds to_lower_case request c) (run_branch to_lower_case request t) t',
      )

  -- The same for the `else`, whose guard negates the condition.
  else_lem :
      (c e : Node) (guard : Option Formula) (f : Formula)
      → ((g : Formula)
          → Branches
              (walk_branch to_lower_case e (print_formula g))
              (some g)
              (run_branch to_lower_case request e))
      → truth (rust_read request) f ≡ holds to_lower_case request c
      → Branches
          (walk_branch to_lower_case e
            (guarded (Option.map print_formula guard) (negated (print_formula f))))
          guard
          (if not (holds to_lower_case request c) then run_branch to_lower_case request e else none)
  unfolding print_formula truth
  else_lem c e guard f branch t =
      let (bs, eb, first) = branch (within guard (negation f)) in
      (
        bs,
        rw (within_lem guard (negation f)) eb,
        first
            ∙ under guard (negation f) (not (holds to_lower_case request c))
                (run_branch to_lower_case request e) (ap not t),
      )

  if_then_else_lem :
      (c t e : Node) (guard : Option Formula)
      → ((f : Formula)
          → Branches
              (walk_branch to_lower_case t (print_formula f))
              (some f)
              (run_branch to_lower_case request t))
      → ((f : Formula)
          → Branches
              (walk_branch to_lower_case e (print_formula f))
              (some f)
              (run_branch to_lower_case request e))
      → is_some (condition to_lower_case request c) ≡ true
      → Branches
          (if_some (render_condition_as_rust to_lower_case c) (λ cond.
            walk_branch to_lower_case t (guarded (Option.map print_formula guard) cond)
            ++ walk_branch to_lower_case e
                (guarded (Option.map print_formula guard) (negated cond))))
          guard
          (if holds to_lower_case request c
            then run_branch to_lower_case request t
            else run_branch to_lower_case request e)
  if_then_else_lem c t e guard branch other h =
      let (f, ef, t') =
        render_condition_lem to_lower_case request c (holds to_lower_case request c)
          (condition-is_some (condition to_lower_case request c) h) in
      let (bs, eb, first) = branch (within guard f) in
      let then_blocks =
        walk_branch to_lower_case t (guarded (Option.map print_formula guard) (print_formula f)) in
      let then_part : Branches then_blocks guard
          (if holds to_lower_case request c then run_branch to_lower_case request t else none) =
        (
          bs,
          rw (within_lem guard f) eb,
          first
              ∙ under guard f (holds to_lower_case request c) (run_branch to_lower_case request t)
                  t',
        ) in
      let (ds, ed, both_first) =
        Branches-append then_blocks _ guard _ _ then_part (else_lem c e guard f other t') in
      (
        ds,
        rw ef ed,
        both_first
            ∙ ap (λ r. if is_open guard then r else none)
                (negated_branch (holds to_lower_case request c) (run_branch to_lower_case request t)
                  (run_branch to_lower_case request e)),
      )

  one_return :
      (guard : Option Formula) (e : Node)
      → Branches ((Option.map print_formula guard, e) ∷ []) guard (some e)
  unfolding first_branch
  one_return none e = ((none, e) ∷ [], refl, refl)
  one_return (some f) e = ((some f, e) ∷ [], refl, refl)

  no_returns :
      (guard : Option Formula) → ◌≡◌ {A = Option Node} none (if is_open guard then none else none)
  no_returns guard = ground arith

  mutual
    unfolding first_branch walk_statements walk_branch run run_branch Branching BranchingBranch

    -- Statements that return or branch on conditions over texts: the guards of the blocks that
    -- `walkStatements` pushes are texts of formulas, and the first block whose formula is true has the
    -- expression that the statements return, if they return.
    pub walk_statements_lem :
        (ns : Nodes) (guard : Option Formula)
        → Branching to_lower_case request ns
        → Branches
            (walk_statements to_lower_case ns (Option.map print_formula guard))
            guard
            (run to_lower_case request ns)
    walk_statements_lem no_nodes guard h = ([], refl, no_returns guard)
    walk_statements_lem (node (return_of e) rest) guard h = one_return guard e
    walk_statements_lem (node (if_then c t) rest) guard (h, ht, hr) =
        Branches-append _ _ guard _ _ (if_then_lem c t guard (λ f. walk_branch_lem t f ht) h)
          (walk_statements_lem rest guard hr)
    walk_statements_lem (node (if_then_else c t e) rest) guard (h, ht, he, hr) =
        Branches-append _ _ guard _ _
          (if_then_else_lem c t e guard (λ f. walk_branch_lem t f ht) (λ f. walk_branch_lem e f he)
            h)
          (walk_statements_lem rest guard hr)
    walk_statements_lem (node _ rest) guard h = absurd h

    walk_branch_lem :
        (s : Node) (f : Formula)
        → BranchingBranch to_lower_case request s
        → Branches
            (walk_branch to_lower_case s (print_formula f))
            (some f)
            (run_branch to_lower_case request s)
    walk_branch_lem (block_of ns) f h = walk_statements_lem ns (some f) h
    walk_branch_lem (return_of e) f h = one_return (some f) e
    walk_branch_lem (if_then c t) f (h, ht) =
        if_then_lem c t (some f) (λ g. walk_branch_lem t g ht) h
    walk_branch_lem (if_then_else c t e) f (h, ht, he) =
        if_then_else_lem c t e (some f) (λ g. walk_branch_lem t g ht) (λ g. walk_branch_lem e g he)
          h
    walk_branch_lem _ f h = absurd h
