-- ===== src/Build/Names.antt =====
-- The names of the compiled functions are different, since each begins with its own number.
use fearless.Base.{
  ℕ, zero, suc, ◌+◌, ◌/◌, ◌%◌, ◌≤◌, ◌<◌, ◌≡◌, ◌≢◌, refl, sym, ap, ◌∙◌, Option, none, some, Bool,
  true, false, Str, codes, List, [], ◌∷◌, ◌++◌, drop, if◌then◌else◌, arith, All, inl, inr,
  starts_with, length, length-append, append-nil,
}
use fearless.Emit.Response.{digits, decimal}
use fearless.Emit.ResponseLaws.{size, leading_digits-digits}
use fearless.Transpile.Chain.{leading_digits}
use fearless.Transpile.Function.{
  sanitize_id, fn_name, Outcome, success, failure, transpile_sync_handler,
}
use mathlib.Core.Option.{some-injective}
use fearless.Routing.Pattern.{HttpMethod, get_method}
use fearless.Analyze.Handler.{Handler}
use fearless.Analyze.Analysis.{AnalysisResult, compilable, not_compilable, analyze_handler}
use fearless.Build.Compile.{
  Registration, handler_call, template_call, inline_function, other_expression, TranspileResult,
  transpile_handler, transpiled, sync_result, async_result, compiled_handler, aot_or,
  discover_handler_route, synthesize_template_as_aot, synthetic_handler, path_id, DiscoveredRoute,
  aot_route, bun_route, template_route, route_id, template_id, compile_routes, route_of,
  next_counter, handler_functions, and_register, emitted_functions,
}

digits-append : (fuel n : ℕ) (acc s : Str) → digits fuel n (acc ++ s) ≡ digits fuel n acc ++ s
unfolding digits
digits-append zero n acc s = refl
digits-append (suc fuel) n acc s =
    ground (arith, digits-append fuel (n / 10) ((b'0' + n % 10) ∷ acc) s)

sanitize_id-digit :
    (d : ℕ) (s : Str) → d < 10 → sanitize_id ((b'0' + d) ∷ s) ≡ (b'0' + d) ∷ sanitize_id s
unfolding sanitize_id
sanitize_id-digit d s h = ground arith

sanitize_id-digits :
    (fuel n : ℕ) (acc : Str) → sanitize_id (digits fuel n acc) ≡ digits fuel n (sanitize_id acc)
unfolding digits
sanitize_id-digits zero n acc = refl
sanitize_id-digits (suc fuel) n acc = elim (size n) [
  | inl (small, e) ↦ rw e (sanitize_id-digit n acc small)
  | inr (large, e) ↦ rw e (
      sanitize_id-digits fuel (n / 10) ((b'0' + n % 10) ∷ acc)
      ∙ ap (digits fuel (n / 10)) (sanitize_id-digit (n % 10) acc (omega arith)))
]

-- The number in the name of a function.
number_of : Str → ℕ
number_of name = leading_digits 0 (drop 8 name)

number_of-fn_name : (k : ℕ) (s t : Str) → number_of (fn_name (decimal k ++ (b'_' ∷ s)) ++ t) ≡ k
unfolding number_of fn_name decimal sanitize_id
number_of-fn_name k s t =
    ap (leading_digits 0) (
      ap (λ name. name ++ t)
        (ap sanitize_id (sym (digits-append (suc k) k [] (b'_' ∷ s)))
          ∙ sanitize_id-digits (suc k) k (b'_' ∷ s))
      ∙ sym (digits-append (suc k) k (sanitize_id (b'_' ∷ s)) t))
    ∙ leading_digits-digits (suc k) k (sanitize_id (b'_' ∷ s) ++ t) (omega arith)

-- A name of a handler, with what may stand behind it.
IsNamed : ℕ → Str → Type 0
IsNamed k name =
    (number_of name ≡ k)
    × (number_of (name ++ codes "_dispatch") ≡ k)
    × (starts_with (codes "handler_") name ≡ true)

fn_name-IsNamed : (k : ℕ) (s : Str) → IsNamed k (fn_name (decimal k ++ (b'_' ∷ s)))
unfolding IsNamed fn_name starts_with
fn_name-IsNamed k s = (
  ap number_of (sym (append-nil (fn_name (decimal k ++ (b'_' ∷ s))))) ∙ number_of-fn_name k s [],
  number_of-fn_name k s (codes "_dispatch"),
  refl,
)

route_id-IsNamed : (k : ℕ) (path : Str) → IsNamed k (fn_name (route_id k path))
unfolding route_id
route_id-IsNamed k path = fn_name-IsNamed k (path_id path)

template_id-IsNamed : (k : ℕ) (path : Str) → IsNamed k (fn_name (template_id k path))
unfolding template_id
template_id-IsNamed k path = fn_name-IsNamed k (codes "template_" ++ path_id path)

append-ne : (s t : Str) (c : ℕ) → s ≢ s ++ c ∷ t
append-ne s t c e = omega (arith, ap length e, length-append {0} s (c ∷ t))

-- Names that are all different.
pub Distinct : List Str → Type 0
Distinct [] = Unit
Distinct (x ∷ xs) = All (λ y. x ≢ y) xs × Distinct xs

module _ (to_lower_case : Str → Str) (encode : Str → List ℕ) (handles : List Str)
    (emit_async : Str → Handler → Option Str) where
  -- The name in an outcome, if it is a success.
  name_in : Str → Outcome TranspileResult → Str
  name_in default (success t) = t.fn_name
  name_in default (failure e) = default

  transpile_handler-fn_name :
      (id : Str) (h : Handler)
      → name_in (fn_name id) (transpile_handler to_lower_case encode handles emit_async id h)
        ≡ fn_name id
  unfolding transpile_handler name_in
  transpile_handler-fn_name id h =
      outcome_name h.is_async (emit_async id h)
        (transpile_sync_handler encode to_lower_case id h.body)
    where
      outcome_name :
          (b : Bool) (o : Option Str) (s : Outcome Str)
          → name_in (fn_name id) (
              if b
              then async_result to_lower_case encode handles emit_async id h o
              else sync_result to_lower_case encode handles emit_async id s)
            ≡ fn_name id
      outcome_name true none s = refl
      outcome_name true (some source) s = refl
      outcome_name false o (success source) = refl
      outcome_name false o (failure e) = refl

  transpiled-eq-some :
      (a : AnalysisResult) (o : Outcome TranspileResult) (t : TranspileResult)
      → transpiled to_lower_case encode handles emit_async a o ≡ some t
      → o ≡ success t
  transpiled-eq-some (not_compilable reasons) o t e = cc
  transpiled-eq-some compilable (failure x) t e = cc
  transpiled-eq-some compilable (success r) t e = ap success (some-injective r t e)

  compiled_handler-fn_name :
      (names : List Str) (id : Str) (h : Handler) (t : TranspileResult)
      → compiled_handler to_lower_case encode handles emit_async names id h ≡ some t
      → t.fn_name ≡ fn_name id
  unfolding compiled_handler name_in
  compiled_handler-fn_name names id h t e =
      ap (name_in (fn_name id)) (sym (transpiled-eq-some (analyze_handler names h) _ t e))
      ∙ transpile_handler-fn_name id h

  -- What the first route adds to the names has the number of the counter.
  abbrev NextFrom : ℕ → DiscoveredRoute → Type 0
  NextFrom c (aot_route method path t) = IsNamed c t.fn_name
  NextFrom c _ = Unit

  aot_or-NextFrom :
      (c : ℕ) (id : Str) (other : DiscoveredRoute) (method : HttpMethod) (path : Str)
      (o : Option TranspileResult)
      → NextFrom c other
      → IsNamed c (fn_name id)
      → ((t : TranspileResult) → o ≡ some t → t.fn_name ≡ fn_name id)
      → NextFrom c (aot_or to_lower_case encode handles emit_async other method path o)
  aot_or-NextFrom c id other method path none k n h = k
  aot_or-NextFrom c id other method path (some t) k n h = rw (h t refl) n

  route_of-NextFrom :
      (r : Registration) (c : ℕ) → NextFrom c (route_of to_lower_case encode handles emit_async r c)
  unfolding route_of discover_handler_route synthesize_template_as_aot
  route_of-NextFrom (handler_call method path other_expression) c = tt
  route_of-NextFrom (handler_call method path (inline_function h)) c =
      aot_or-NextFrom c (route_id c path) (bun_route method path) method path _ tt
        (route_id-IsNamed c path) (λ t e. compiled_handler-fn_name handles (route_id c path) h t e)
  route_of-NextFrom (template_call method path body) c =
      aot_or-NextFrom c (template_id c path) (template_route get_method path) get_method path _ tt
        (template_id-IsNamed c path)
        (λ t e.
          compiled_handler-fn_name [] (template_id c path) (synthetic_handler method body) t e)

  -- The names of handlers from the number `c` on.
  IsHandler : ℕ → Str → Type 0
  IsHandler c name = (c ≤ number_of name) × (starts_with (codes "handler_") name ≡ true)

  NamesFrom : ℕ → List Str → Type 0
  NamesFrom c names = All (IsHandler c) names × Distinct names

  later : (c : ℕ) (names : List Str) → All (IsHandler (suc c)) names → All (IsHandler c) names
  unfolding IsHandler
  later c [] h = tt
  later c (n ∷ names) (h, hs) = ((omega (arith, h.0), h.1), later c names hs)

  fresh :
      (c : ℕ) (name : Str) (names : List Str)
      → number_of name ≡ c
      → All (IsHandler (suc c)) names
      → All (λ y. name ≢ y) names
  unfolding IsHandler
  fresh c name [] e h = tt
  fresh c name (n ∷ names) e (h, hs) =
      ((λ same. absurd (omega (arith, ap number_of same, h.0))), fresh c name names e hs)

  handler-append :
      (name t : Str)
      → starts_with (codes "handler_") name ≡ true
      → starts_with (codes "handler_") (name ++ t) ≡ true
  unfolding starts_with
  handler-append name t h = starts_with-append (codes "handler_") name t h
    where
      starts_with-append : (p s u : Str) → starts_with p s ≡ true → starts_with p (s ++ u) ≡ true
      starts_with-append [] s u e = refl
      starts_with-append (c ∷ p) [] u e = cc
      starts_with-append (c ∷ p) (d ∷ s) u e = ground (arith, starts_with-append p s u)

  names_of_route :
      (is_async : Bool) (c : ℕ) (name : Str) (names : List Str)
      → IsNamed c name
      → NamesFrom (suc c) names
      → NamesFrom c
          ((if is_async then name ∷ (name ++ codes "_dispatch") ∷ [] else name ∷ []) ++ names)
  unfolding NamesFrom Distinct IsNamed IsHandler
  names_of_route false c name names (n, d, h) (from, distinct) =
      (((omega (arith, n), h), later c names from), (fresh c name names n from, distinct))
  names_of_route true c name names (n, d, h) (from, distinct) = (
    (
      (omega (arith, n), h),
      ((omega (arith, d), handler-append name (codes "_dispatch") h), later c names from),
    ),
    (
      (append-ne name (codes "dispatch") b'_', fresh c name names n from),
      (fresh c (name ++ codes "_dispatch") names d from, distinct),
    ),
  )

  names_step :
      (c : ℕ) (route : DiscoveredRoute) (routes : List DiscoveredRoute)
      → NextFrom c route
      → NamesFrom
          (next_counter to_lower_case encode handles emit_async route c)
          (handler_functions routes)
      → NamesFrom c (handler_functions (route ∷ routes))
  names_step c (aot_route method path t) routes e h =
      names_of_route t.is_async c t.fn_name (handler_functions routes) e h
  names_step c (bun_route method path) routes e h = h
  names_step c (template_route method path) routes e h = h

  compile_routes-NamesFrom :
      (c : ℕ) (rs : List Registration)
      → NamesFrom c
          (handler_functions (compile_routes to_lower_case encode handles emit_async c rs))
  unfolding compile_routes NamesFrom Distinct
  compile_routes-NamesFrom c [] = (tt, tt)
  compile_routes-NamesFrom c (r ∷ rs) =
      let route = route_of to_lower_case encode handles emit_async r c in
      let next = next_counter to_lower_case encode handles emit_async route c in
      names_step c route (compile_routes to_lower_case encode handles emit_async next rs)
        (route_of-NextFrom r c) (compile_routes-NamesFrom next rs)

  registered : ¬ (starts_with (codes "handler_") (codes "register") ≡ true)
  unfolding starts_with
  registered h = cc

  not_register :
      (c : ℕ) (names : List Str) (x : Str)
      → All (λ y. x ≢ y) names
      → starts_with (codes "handler_") x ≡ true
      → All (λ y. x ≢ y) (names ++ codes "register" ∷ [])
  unfolding starts_with
  not_register c [] x a h = ((λ same. absurd (registered (rw same at h))), tt)
  not_register c (n ∷ names) x (a, as') h = (a, not_register c names x as' h)

  Distinct-register :
      (c : ℕ) (names : List Str) → NamesFrom c names → Distinct (names ++ codes "register" ∷ [])
  unfolding NamesFrom Distinct IsHandler
  Distinct-register c [] h = (tt, tt)
  Distinct-register c (n ∷ names) ((h, hs), (d, ds)) =
      (not_register c names n d h.1, Distinct-register c names (hs, ds))

  and_register-Distinct :
      (c : ℕ) (names : List Str) → NamesFrom c names → Distinct (and_register names)
  unfolding Distinct
  and_register-Distinct c [] h = tt
  and_register-Distinct c (n ∷ names) h = Distinct-register c (n ∷ names) h

  -- The functions that the emitted file of an app declares, the handlers of the compiled routes, the
  -- adapters of the async ones and `register`, all have different names, whatever the paths of the
  -- routes are.
  pub compile_routes-Distinct :
      (rs : List Registration)
      → Distinct (emitted_functions (compile_routes to_lower_case encode handles emit_async 0 rs))
  compile_routes-Distinct rs = and_register-Distinct 0 _ (compile_routes-NamesFrom 0 rs)
