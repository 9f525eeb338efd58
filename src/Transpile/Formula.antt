-- ===== src/Transpile/Formula.antt =====
-- What the conditions of a handler mean, and what the Rust guards mean that the transpiler writes for
-- them. The transpiler does not use this file.
use fearless.Base.{
  Option, none, some, Bool, true, false, not, ◌&&◌, ◌||◌, Str, codes, str_eq, List, [], ◌∷◌, ◌++◌,
  if◌then◌else◌, get_or, or_else, ◌≡◌, is_some,
}
use mathlib.Core.Option.{map}
use fearless.Syntax.{
  Node, string_literal, plain_template, binary, equals_equals_equals, equals_equals,
  exclamation_equals_equals, exclamation_equals, ampersand_ampersand, bar_bar, Nodes, no_nodes,
  node, return_of, if_then, if_then_else, block_of,
}
use fearless.Emit.Response.{escape_quotes, getter}
use fearless.Transpile.Shapes.{CtxRead}
use fearless.Transpile.ReadLaws.{js_text}

pub data RustValue : Type 0 where
  text_literal : Str → RustValue
  get_read : CtxRead → RustValue

-- A Boolean expression of Rust over comparisons of strings.
pub data Formula : Type 0 where
  equal unequal : RustValue → RustValue → Formula
  both either : Formula → Formula → Formula
  negation : Formula → Formula

unfoldable pub print_value : RustValue → Str
unfolding escape_quotes getter
print_value (text_literal s) = b'"' ∷ (escape_quotes s ++ codes "\"")
print_value (get_read r) = getter r

unfoldable pub print_formula : Formula → Str
unfolding print_value
print_formula (equal v w) = print_value v ++ (codes " == " ++ print_value w)
print_formula (unequal v w) = print_value v ++ (codes " != " ++ print_value w)
print_formula (both f g) =
    codes "(" ++ (print_formula f ++ (codes ") && (" ++ (print_formula g ++ codes ")")))
print_formula (either f g) =
    codes "(" ++ (print_formula f ++ (codes ") || (" ++ (print_formula g ++ codes ")")))
print_formula (negation f) = codes "!(" ++ (print_formula f ++ codes ")")

abbrev pub both_tests : Option Bool → Option Bool → (Bool → Bool → Bool) → Option Bool
both_tests (some a) (some b) f = some (f a b)
both_tests _ _ f = none

module _ (reads : CtxRead → Str) where
  abbrev pub value : RustValue → Str
  value (text_literal s) = s
  value (get_read r) = reads r

  unfoldable pub truth : Formula → Bool
  unfolding str_eq
  truth (equal v w) = str_eq (value v) (value w)
  truth (unequal v w) = not (str_eq (value v) (value w))
  truth (both f g) = truth f && truth g
  truth (either f g) = truth f || truth g
  truth (negation f) = not (truth f)

  -- The guard of the first branch that is open, `none` being no guard.
  unfoldable pub first_branch : List (Option Formula × Node) → Option Node
  unfolding truth
  first_branch [] = none
  first_branch ((none, e) ∷ bs) = some e
  first_branch ((some f, e) ∷ bs) = let rest = first_branch bs in if truth f then some e else rest

module _ (to_lower_case : Str → Str) (request : CtxRead → Option Str) where
  -- An operand that is a text: a literal, or what is read of the request. None where the request has no
  -- text there.
  unfoldable pub operand : Node → Option Str
  unfolding js_text
  operand (string_literal s) = some s
  operand (plain_template s) = some s
  operand n = js_text to_lower_case request n

  abbrev pub compare_texts : Option Str → Option Str → Option Bool
  compare_texts (some a) (some b) = some (str_eq a b)
  compare_texts _ _ = none

  -- The value of a condition that compares texts, or combines such.
  unfoldable pub condition : Node → Option Bool
  unfolding operand str_eq
  condition (binary equals_equals_equals m n) = compare_texts (operand m) (operand n)
  condition (binary equals_equals m n) = compare_texts (operand m) (operand n)
  condition (binary exclamation_equals_equals m n) = map not (compare_texts (operand m) (operand n))
  condition (binary exclamation_equals m n) = map not (compare_texts (operand m) (operand n))
  condition (binary ampersand_ampersand m n) =
      both_tests (condition m) (condition n) (λ a b. a && b)
  condition (binary bar_bar m n) = both_tests (condition m) (condition n) (λ a b. a || b)
  condition _ = none

  abbrev pub holds : Node → Bool
  holds n = get_or (condition n) false

  -- Statements that return, or branch on a condition over texts into such. Each read of the request in
  -- the conditions has a text.
  unfoldable mutual
    unfolding condition

    pub Branching : Nodes → Type 0
    Branching no_nodes = Unit
    Branching (node (return_of e) rest) = Branching rest
    Branching (node (if_then c t) rest) =
        (is_some (condition c) ≡ true) × BranchingBranch t × Branching rest
    Branching (node (if_then_else c t e) rest) =
        (is_some (condition c) ≡ true) × BranchingBranch t × BranchingBranch e × Branching rest
    Branching (node _ rest) = ⊥

    pub BranchingBranch : Node → Type 0
    BranchingBranch (block_of ns) = Branching ns
    BranchingBranch (return_of e) = Unit
    BranchingBranch (if_then c t) = (is_some (condition c) ≡ true) × BranchingBranch t
    BranchingBranch (if_then_else c t e) =
        (is_some (condition c) ≡ true) × BranchingBranch t × BranchingBranch e
    BranchingBranch _ = ⊥

  -- The expression that the statements return, if they return.
  unfoldable mutual
    unfolding condition

    pub run : Nodes → Option Node
    run no_nodes = none
    run (node s rest) = or_else (run_branch s) (run rest)

    pub run_branch : Node → Option Node
    run_branch (block_of ns) = run ns
    run_branch (return_of e) = some e
    run_branch (if_then c t) =
        let then_returns = run_branch t in if holds c then then_returns else none
    run_branch (if_then_else c t e) =
        let then_returns = run_branch t in
        let else_returns = run_branch e in if holds c then then_returns else else_returns
    run_branch _ = none
