-- ===== src/Transpile/ChainLaws.antt =====
-- What the overrides of a chain are, and the pending shape that the same calls leave at runtime.
use fearless.Base.{
  ℕ, suc, ◌≤◌, ◌≡◌, refl, ◌∙◌, Option, none, some, Str, codes, str_eq, List, [], ◌∷◌, or_else,
  arith,
}
use fearless.Syntax.{
  Node, string_literal, numeric_literal, property_access, call_of, no_nodes, node,
}
use fearless.Transpile.Chain.{
  Overrides, no_overrides, override_header, link_step, unwrap_links, parse_int,
}
use fearless.Ctx.Builders.{PendingResponseShape, set_status, set_header}

-- `.status(200)` and `.header("name", "value")`, with an integer literal or two string literals.
pub data Link : Type 0 where
  status_call : Str → Link
  header_call : Str → Str → Link

abbrev pub link_call : Link → Node → Node
link_call (status_call s) n =
    call_of (property_access n (codes "status")) (node (numeric_literal s) no_nodes)
link_call (header_call k v) n =
    call_of (property_access n (codes "header"))
      (node (string_literal k) (node (string_literal v) no_nodes))

-- The links of a chain, the first one next to `n`.
unfoldable pub chain_call : Node → List Link → Node
chain_call n [] = n
chain_call n (l ∷ ls) = chain_call (link_call l n) ls

-- What the calls do to the pending shape of a context.
abbrev run_link : Link → PendingResponseShape → PendingResponseShape
run_link (status_call s) pending = set_status (parse_int s) pending
run_link (header_call k v) pending = set_header k v pending

unfoldable pub run_links : List Link → PendingResponseShape → PendingResponseShape
unfolding set_status set_header
run_links [] pending = pending
run_links (l ∷ ls) pending = run_links ls (run_link l pending)

unfoldable pub status_calls : List Link → ℕ
status_calls [] = 0
status_calls (status_call s ∷ ls) = suc (status_calls ls)
status_calls (header_call k v ∷ ls) = status_calls ls

unfoldable pub first_status : List Link → Option ℕ
first_status [] = none
first_status (status_call s ∷ ls) = some (parse_int s)
first_status (header_call k v ∷ ls) = first_status ls

unfoldable pub last_status : List Link → Option ℕ
last_status [] = none
last_status (status_call s ∷ ls) = or_else (last_status ls) (some (parse_int s))
last_status (header_call k v ∷ ls) = last_status ls

run_links-status :
    (ls : List Link) (pending : PendingResponseShape)
    → (run_links ls pending).status ≡ or_else (last_status ls) pending.status
unfolding run_links set_status set_header last_status
run_links-status [] pending = refl
run_links-status (status_call s ∷ ls) pending =
    ground (arith, run_links-status ls (set_status (parse_int s) pending))
run_links-status (header_call k v ∷ ls) pending = run_links-status ls (set_header k v pending)

no_status : (ls : List Link) → status_calls ls ≡ 0 → last_status ls ≡ none
unfolding status_calls last_status
no_status [] h = refl
no_status (status_call s ∷ ls) h = ground arith
no_status (header_call k v ∷ ls) h = no_status ls h

one_status : (ls : List Link) → status_calls ls ≤ 1 → last_status ls ≡ first_status ls
unfolding status_calls last_status first_status
one_status [] h = refl
one_status (status_call s ∷ ls) h = rw (no_status ls (omega arith)) refl
one_status (header_call k v ∷ ls) h = one_status ls h

module _ (to_lower_case : Str → Str) where
  abbrev override_link : Link → Overrides → Overrides
  override_link (status_call s) o = record o { status = some (parse_int s) }
  override_link (header_call k v) o = override_header to_lower_case k v o

  unfoldable pub overrides_of : List Link → Overrides → Overrides
  unfolding override_header
  overrides_of [] o = o
  overrides_of (l ∷ ls) o = override_link l (overrides_of ls o)

  -- The links act from the last to the first.
  pub unwrap_links-chain_call :
      (n : Node) (ls : List Link) (o : Overrides)
      → unwrap_links to_lower_case (chain_call n ls) o
        ≡ unwrap_links to_lower_case n (overrides_of ls o)
  unfolding unwrap_links link_step chain_call overrides_of str_eq override_header
  unwrap_links-chain_call n [] o = refl
  unwrap_links-chain_call n (status_call s ∷ ls) o =
      unwrap_links-chain_call (link_call (status_call s) n) ls o
  unwrap_links-chain_call n (header_call k v ∷ ls) o =
      unwrap_links-chain_call (link_call (header_call k v) n) ls o

  override_header-status :
      (k v : Str) (o : Overrides) → (override_header to_lower_case k v o).status ≡ o.status
  unfolding override_header
  override_header-status k v o = ground arith

  overrides_of-status :
      (ls : List Link) (o : Overrides)
      → (overrides_of ls o).status ≡ or_else (first_status ls) o.status
  unfolding overrides_of first_status override_header
  overrides_of-status [] o = refl
  overrides_of-status (status_call s ∷ ls) o = refl
  overrides_of-status (header_call k v ∷ ls) o =
      override_header-status k v (overrides_of ls o) ∙ overrides_of-status ls o

  -- The status that the transpiler reads from a chain is its first one; the status that the calls
  -- leave pending is the last one. With at most one call of `status` they are the same.
  pub chain_status_agrees :
      (ls : List Link) (pending : PendingResponseShape)
      → pending.status ≡ none
      → status_calls ls ≤ 1
      → (overrides_of ls no_overrides).status ≡ (run_links ls pending).status
  chain_status_agrees ls pending h one =
      rw (overrides_of-status ls no_overrides, run_links-status ls pending, one_status ls one, h)
        refl
