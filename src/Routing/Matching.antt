-- ===== src/Routing/Matching.antt =====
-- `matchRouteTable` finds a route exactly if a pattern of the table fits the segments.
use fearless.Base.{
  Option, none, some, true, Str, str_eq, str_eq_iff, str_eq_refl, List, [], ◌∷◌, ◌≡◌, ◌≢◌, refl,
  arith, Option-cases, Bool-cases, subst, inl, inr, ◌⊎◌,
}
use mathlib.Core.Option.{some-injective}
use fearless.Routing.Pattern.{RouteSegment, fixed, param, RouteDefinition}
use fearless.Routing.Table.{
  RouteTable, Children, ParamChild, table, child, no_children, param_child, no_param_child,
  get_child, param_key, match_route_table, search_static, search_param, keep_or_delete, or_param,
  Params, Found,
}
use fearless.Routing.Fits.{fits, route_at, IsKeyed, IsKeyedChildren}

module _ {A : Type 0} where
  -- A pattern of the table that fits the segments, and holds the route.
  abbrev HasFit : List Str → RouteTable A → RouteDefinition A → Type 0
  HasFit ss t r = (p : List RouteSegment) × (fits p ss ≡ true) × (route_at p t ≡ some r)

  or_param-eq-some :
      (m : Found A) (go : Params → Found A) {r : RouteDefinition A}
      → (or_param m go).0 ≡ some r
      → (m.0 ≡ some r) ⊎ ((go m.1).0 ≡ some r)
  or_param-eq-some (some q, ps) go h = inl h
  or_param-eq-some (none, ps) go h = inr h

  keep_or_delete-eq : (key : Str) (m : Found A) → (keep_or_delete key m).0 ≡ m.0
  keep_or_delete-eq key (some q, ps) = refl
  keep_or_delete-eq key (none, ps) = refl

  get_child_sound :
      (s : Str) (ss : List Str) (q : Option (RouteDefinition A)) (cs : Children A)
      (pc : ParamChild A) (key : Option Str) (t : RouteTable A) {r : RouteDefinition A}
      → get_child s cs ≡ some t
      → HasFit ss t r
      → HasFit (s ∷ ss) (table q cs pc key) r
  unfolding fits route_at
  get_child_sound s ss q cs pc key t e (p, fit, at) =
      (fixed s ∷ p, ground (arith, str_eq_refl s), rw e at)

  param_child_sound :
      (s : Str) (ss : List Str) (q : Option (RouteDefinition A)) (cs : Children A)
      (key : Option Str) (t : RouteTable A) {r : RouteDefinition A}
      → HasFit ss t r
      → HasFit (s ∷ ss) (table q cs (param_child t) key) r
  unfolding fits route_at
  param_child_sound s ss q cs key t (p, fit, at) = (param [] ∷ p, fit, at)

  module _ (decode_uri_component : Str → Option Str) where
    search_param-eq-some :
        (pc : ParamChild A) (go : RouteTable A → Params → Found A) (s : Str) (ps : Params)
        {r : RouteDefinition A}
        → (search_param decode_uri_component pc go s ps).0 ≡ some r
        → (t : RouteTable A) × (ps' : Params) × (pc ≡ param_child t) × ((go t ps').0 ≡ some r)
    search_param-eq-some no_param_child go s ps h = cc
    search_param-eq-some (param_child (table q cs pc none)) go s ps h = cc
    search_param-eq-some (param_child (table q cs pc (some key))) go s ps h =
        (table q cs pc (some key), _, refl, rw keep_or_delete-eq at h)

    search_static-eq-some :
        (o : Option (RouteTable A)) (go : RouteTable A → Params → Found A) (ps : Params)
        {r : RouteDefinition A}
        → (search_static o go ps).0 ≡ some r
        → (t : RouteTable A) × (o ≡ some t) × ((go t ps).0 ≡ some r)
    search_static-eq-some none go ps h = cc
    search_static-eq-some (some t) go ps h = (t, refl, h)

    -- A route that is found is held by a pattern that fits.
    pub match_route_table_sound :
        (ss : List Str) (t : RouteTable A) (ps : Params) (r : RouteDefinition A)
        → (match_route_table decode_uri_component ss t ps).0 ≡ some r
        → HasFit ss t r
    unfolding match_route_table fits route_at
    match_route_table_sound [] (table q cs pc key) ps r h = ([], refl, h)
    match_route_table_sound (s ∷ ss) (table q cs pc key) ps r h = elim (or_param-eq-some _ _ h) [
      | inl e ↦
          let (t, eq, found) =
            search_static-eq-some (get_child s cs) (match_route_table decode_uri_component ss) ps
              e in
          get_child_sound s ss q cs pc key t eq (match_route_table_sound ss t ps r found)
      | inr e ↦
          let (t, ps', eq, found) =
            search_param-eq-some pc (match_route_table decode_uri_component ss) s _ e in
          rw eq (param_child_sound s ss q cs key t (match_route_table_sound ss t ps' r found))
    ]

    or_param-ne-none_left :
        (m : Found A) (go : Params → Found A) → m.0 ≢ none → (or_param m go).0 ≢ none
    or_param-ne-none_left (some q, ps) go h = cc
    or_param-ne-none_left (none, ps) go h = absurd (h refl)

    or_param-ne-none_right :
        (m : Found A) (go : Params → Found A)
        → ((ps : Params) → (go ps).0 ≢ none)
        → (or_param m go).0 ≢ none
    or_param-ne-none_right (some q, ps) go h = cc
    or_param-ne-none_right (none, ps) go h = h ps

    search_static-ne-none :
        (o : Option (RouteTable A)) (go : RouteTable A → Params → Found A) (ps : Params)
        (t : RouteTable A)
        → o ≡ some t
        → (go t ps).0 ≢ none
        → (search_static o go ps).0 ≢ none
    search_static-ne-none none go ps t e h = cc
    search_static-ne-none (some t') go ps t e h = rw (some-injective t' t e) h

    search_param-ne-none :
        (t : RouteTable A) (go : RouteTable A → Params → Found A) (s : Str)
        → param_key t ≢ none
        → ((ps : Params) → (go t ps).0 ≢ none)
        → (ps : Params) → (search_param decode_uri_component (param_child t) go s ps).0 ≢ none
    search_param-ne-none (table q cs pc none) go s key h ps = absurd (key refl)
    search_param-ne-none (table q cs pc (some k)) go s key h ps = rw keep_or_delete-eq (h _)

    get_child-IsKeyed :
        (v : Str) (cs : Children A) (t : RouteTable A)
        → IsKeyedChildren cs
        → get_child v cs ≡ some t
        → IsKeyed t
    unfolding get_child IsKeyed
    get_child-IsKeyed v no_children t h e = cc
    get_child-IsKeyed v (child u t' cs) t h e = elim (Bool-cases (str_eq u v)) [
      | inl eq ↦ subst IsKeyed (ground arith) h.0
      | inr ne ↦ get_child-IsKeyed v cs t h.1 (ground arith)
    ]

    -- Where a pattern of the table fits, a route is found.
    pub match_route_table_complete :
        (p : List RouteSegment) (ss : List Str) (t : RouteTable A) (ps : Params)
        → IsKeyed t
        → fits p ss ≡ true
        → route_at p t ≢ none
        → (match_route_table decode_uri_component ss t ps).0 ≢ none
    unfolding match_route_table fits route_at IsKeyed
    match_route_table_complete [] [] (table q cs pc key) ps k fit at = at
    match_route_table_complete [] (s ∷ ss) (table q cs pc key) ps k fit at = cc
    match_route_table_complete (fixed v ∷ p) [] (table q cs pc key) ps k fit at = cc
    match_route_table_complete (param n ∷ p) [] (table q cs pc key) ps k fit at = cc
    match_route_table_complete (fixed v ∷ p) (s ∷ ss) (table q cs pc key) ps k fit at =
        elim (Option-cases (get_child v cs)) [
          | inl e ↦ absurd (at (rw e))
          | inr (t, e) ↦
              let same : v ≡ s = ground (arith, str_eq_iff v s) in
              or_param-ne-none_left
                (search_static (get_child s cs) (match_route_table decode_uri_component ss) ps) _
                (search_static-ne-none (get_child s cs) (match_route_table decode_uri_component ss)
                  ps t (rw (← same) e)
                  (match_route_table_complete p ss t ps (get_child-IsKeyed v cs t k.0 e)
                    (ground arith) (rw e at at)))
        ]
    match_route_table_complete (param n ∷ p) (s ∷ ss) (table q cs no_param_child key) ps k fit at =
        absurd (at refl)
    match_route_table_complete (param n ∷ p) (s ∷ ss) (table q cs (param_child t) key) ps k fit at =
        or_param-ne-none_right
          (search_static (get_child s cs) (match_route_table decode_uri_component ss) ps)
          (search_param decode_uri_component (param_child t)
            (match_route_table decode_uri_component ss) s)
          (search_param-ne-none t (match_route_table decode_uri_component ss) s k.1.0
            (λ ps'. match_route_table_complete p ss t ps' k.1.1 fit at))
