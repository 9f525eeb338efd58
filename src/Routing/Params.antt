-- ===== src/Routing/Params.antt =====
-- Which parameters `matchRouteTable` leaves in the object that it fills.
use fearless.Base.{
  Option, none, some, Bool, false, Str, str_eq, str_eq_iff, str_eq_refl, get, put, remove, List, [],
  ◌∷◌, ◌++◌, ◌||◌, ◌≡◌, ◌≢◌, refl, arith, Bool-cases, inl, inr, ◌⊎◌, append-nil, get_or, subst, sym,
  ap,
}
use mathlib.Core.Option.{some-injective}
use fearless.Routing.Pattern.{fixed, param, RouteDefinition}
use fearless.Routing.Table.{
  RouteTable, Children, ParamChild, table, child, no_children, param_child, no_param_child,
  create_route_table, get_child, param_key, match_route_table, search_static, search_with_key,
  keep_or_delete, or_param, Params, Found, decoded, insert_segments, with_child,
}

-- No name stands twice on a way down the table, nor is one of `used` met.
unfoldable mutual
  pub IsDistinct : {A : Type 0} → RouteTable A → (Str → Bool) → Type 0
  IsDistinct (table r cs pc key) used = IsDistinctChildren cs used × IsDistinctParam pc used

  IsDistinctChildren : {A : Type 0} → Children A → (Str → Bool) → Type 0
  IsDistinctChildren no_children used = Unit
  IsDistinctChildren (child v t cs) used = IsDistinct t used × IsDistinctChildren cs used

  IsDistinctParam : {A : Type 0} → ParamChild A → (Str → Bool) → Type 0
  IsDistinctParam no_param_child used = Unit
  IsDistinctParam (param_child t) used =
      (used (get_or (param_key t) []) ≡ false)
      × IsDistinct t (λ j. str_eq (get_or (param_key t) []) j || used j)

abbrev pub nothing_used : Str → Bool
nothing_used j = false

-- No parameter is set but those of `used`.
abbrev IsClear : (Str → Bool) → Params → Type 0
IsClear used ps = (j : Str) → used j ≡ false → get j ps ≡ none

put-append : (k v : Str) (ps : Params) → get k ps ≡ none → put k v ps ≡ ps ++ (k, v) ∷ []
unfolding get put
put-append k v [] h = refl
put-append k v ((j, w) ∷ ps) h = ground (arith, put-append k v ps)

remove-append : (k v : Str) (ps : Params) → get k ps ≡ none → remove k (ps ++ (k, v) ∷ []) ≡ ps
unfolding get remove
remove-append k v [] h = ground (arith, str_eq_refl k)
remove-append k v ((j, w) ∷ ps) h = ground (arith, remove-append k v ps)

get-append_none :
    (j k v : Str) (ps : Params)
    → get j ps ≡ none
    → str_eq k j ≡ false
    → get j (ps ++ (k, v) ∷ []) ≡ none
unfolding get
get-append_none j k v [] h e = ground arith
get-append_none j k v ((i, w) ∷ ps) h e = ground (arith, get-append_none j k v ps)

IsClear-append :
    (used : Str → Bool) (k v : Str) (ps : Params)
    → IsClear used ps
    → IsClear (λ j. str_eq k j || used j) (ps ++ (k, v) ∷ [])
IsClear-append used k v ps h j e = get-append_none j k v ps (h j (ground arith)) (ground arith)

append-snoc : {A : Type 0} (x : A) (ys xs : List A) → (xs ++ x ∷ []) ++ ys ≡ xs ++ x ∷ ys
append-snoc x ys [] = refl
append-snoc x ys (y ∷ xs) = ap (λ zs. y ∷ zs) (append-snoc x ys xs)

module _ {A : Type 0} (decode_uri_component : Str → Option Str) where
  -- A way down the table along the segments, with the route at its end and the parameters on it: the
  -- name at each parameter child with its decoded segment.
  pub data Way : List Str → RouteTable A → RouteDefinition A → Params → Type 0 where
    arrive :
        {r : RouteDefinition A} (q : Option (RouteDefinition A)) (cs : Children A)
        (pc : ParamChild A) (key : Option Str)
        → q ≡ some r
        → Way [] (table q cs pc key) r []
    through_child :
        {s : Str} {ss : List Str} {t : RouteTable A} {r : RouteDefinition A} {bs : Params}
        (q : Option (RouteDefinition A)) (cs : Children A) (pc : ParamChild A) (key : Option Str)
        → get_child s cs ≡ some t
        → Way ss t r bs
        → Way (s ∷ ss) (table q cs pc key) r bs
    through_param :
        {s k : Str} {ss : List Str} {t : RouteTable A} {r : RouteDefinition A} {bs bs' : Params}
        (q : Option (RouteDefinition A)) (cs : Children A) (key : Option Str)
        → param_key t ≡ some k
        → Way ss t r bs
        → bs' ≡ (k, decoded decode_uri_component s) ∷ bs
        → Way (s ∷ ss) (table q cs (param_child t) key) r bs'

  -- A failed search leaves the parameters as they were; a successful one adds those of a way to the
  -- route that it returns.
  abbrev pub Outcome : List Str → RouteTable A → Params → Found A → Type 0
  Outcome ss t ps m =
      ((m.0 ≡ none) × (m.1 ≡ ps))
      ⊎ ((r : RouteDefinition A) × (bs : Params) × (m.0 ≡ some r)
          × Way ss t r bs
          × (m.1 ≡ ps ++ bs))

  or_param-Outcome :
      (ss : List Str) (t : RouteTable A) (ps : Params) (m : Found A) (go : Params → Found A)
      → Outcome ss t ps m
      → Outcome ss t ps (go ps)
      → Outcome ss t ps (or_param m go)
  or_param-Outcome ss t ps (some r, ps1) go (inl h) k = cc (h.0)
  or_param-Outcome ss t ps (some r, ps1) go (inr h) k = inr h
  or_param-Outcome ss t ps (none, ps1) go (inl h) k = rw (h.1) k
  or_param-Outcome ss t ps (none, ps1) go (inr h) k = cc (h.2)

  module _ (s : Str) (ss : List Str) (q : Option (RouteDefinition A)) (cs : Children A)
      (pc : ParamChild A) (key : Option Str) where
    child-Outcome :
        (t : RouteTable A) (ps : Params) (m : Found A)
        → get_child s cs ≡ some t
        → Outcome ss t ps m
        → Outcome (s ∷ ss) (table q cs pc key) ps m
    child-Outcome t ps m e (inl h) = inl h
    child-Outcome t ps m e (inr (r, bs, found, w, eq)) =
        inr (r, bs, found, through_child q cs pc key e w, eq)

    static-Outcome :
        (o : Option (RouteTable A)) (go : RouteTable A → Params → Found A) (ps : Params)
        → get_child s cs ≡ o
        → ((t : RouteTable A) → get_child s cs ≡ some t → Outcome ss t ps (go t ps))
        → Outcome (s ∷ ss) (table q cs pc key) ps (search_static o go ps)
    static-Outcome none go ps e h = inl (refl, refl)
    static-Outcome (some t) go ps e h = child-Outcome t ps (go t ps) e (h t e)

  module _ (s : Str) (ss : List Str) (q : Option (RouteDefinition A)) (cs : Children A)
      (key : Option Str) where
    key-Outcome :
        (t : RouteTable A) (k : Str) (ps : Params) (m : Found A)
        → param_key t ≡ some k
        → get k ps ≡ none
        → Outcome ss t (ps ++ (k, decoded decode_uri_component s) ∷ []) m
        → Outcome (s ∷ ss) (table q cs (param_child t) key) ps (keep_or_delete k m)
    key-Outcome t k ps (none, ps1) e clear (inl h) =
        inl (refl, rw (h.1) (remove-append k (decoded decode_uri_component s) ps clear))
    key-Outcome t k ps (some r, ps1) e clear (inl h) = cc (h.0)
    key-Outcome t k ps (none, ps1) e clear (inr h) = cc (h.2)
    key-Outcome t k ps (some r', ps1) e clear (inr (r, bs, found, w, eq)) = inr (
      r,
      (k, decoded decode_uri_component s) ∷ bs,
      found,
      through_param q cs key e w refl,
      rw eq (append-snoc (k, decoded decode_uri_component s) bs ps),
    )

    with_key-Outcome :
        (t : RouteTable A) (used : Str → Bool) (ps : Params) (name : Option Str)
        (go : Params → Found A)
        → param_key t ≡ name
        → used (get_or name []) ≡ false
        → IsClear used ps
        → ((ps' : Params)
            → IsClear (λ j. str_eq (get_or name []) j || used j) ps'
            → Outcome ss t ps' (go ps'))
        → Outcome
            (s ∷ ss)
            (table q cs (param_child t) key)
            ps
            (search_with_key decode_uri_component name go s ps)
    with_key-Outcome t used ps none go e free clear h = inl (refl, refl)
    with_key-Outcome t used ps (some k) go e free clear h = key-Outcome t k ps _ e (clear k free) (
        subst (λ ps'. Outcome ss t ps' (go (put k (decoded decode_uri_component s) ps)))
          (put-append k (decoded decode_uri_component s) ps (clear k free))
          (h _ (
            subst (IsClear (λ j. str_eq k j || used j))
              (sym (put-append k (decoded decode_uri_component s) ps (clear k free)))
              (IsClear-append used k (decoded decode_uri_component s) ps clear))))

  get_child-IsDistinct :
      (v : Str) (cs : Children A) (t : RouteTable A) (used : Str → Bool)
      → IsDistinctChildren cs used
      → get_child v cs ≡ some t
      → IsDistinct t used
  unfolding get_child IsDistinct
  get_child-IsDistinct v no_children t used h e = cc
  get_child-IsDistinct v (child u t' cs) t used h e = elim (Bool-cases (str_eq u v)) [
    | inl eq ↦
        let same : t' ≡ t = ground (arith, some-injective t' t) in
        subst (λ x. IsDistinct x used) same h.0
    | inr ne ↦ get_child-IsDistinct v cs t used h.1 (ground arith)
  ]

  -- In a table that repeats no name on a way down, from an object that has none of the names, a search
  -- that fails leaves the object as it was, whatever it wrote before it went back, and a search that
  -- finds a route adds exactly the parameters of a way down to that route, in order.
  pub match_route_table_params :
      (ss : List Str) (t : RouteTable A) (used : Str → Bool) (ps : Params)
      → IsDistinct t used
      → IsClear used ps
      → Outcome ss t ps (match_route_table decode_uri_component ss t ps)
  unfolding match_route_table IsDistinct
  match_route_table_params [] (table none cs pc key) used ps d clear = inl (refl, refl)
  match_route_table_params [] (table (some r) cs pc key) used ps d clear =
      inr (r, [], refl, arrive (some r) cs pc key refl, sym (append-nil ps))
  match_route_table_params (s ∷ ss) (table q cs no_param_child key) used ps d clear =
      or_param-Outcome (s ∷ ss) (table q cs no_param_child key) ps _ _
        (static-Outcome s ss q cs no_param_child key (get_child s cs) _ ps refl (λ t e.
          match_route_table_params ss t used ps (get_child-IsDistinct s cs t used d.0 e) clear))
        (inl (refl, refl))
  match_route_table_params (s ∷ ss) (table q cs (param_child u) key) used ps d clear =
      or_param-Outcome (s ∷ ss) (table q cs (param_child u) key) ps _ _
        (static-Outcome s ss q cs (param_child u) key (get_child s cs) _ ps refl (λ t e.
          match_route_table_params ss t used ps (get_child-IsDistinct s cs t used d.0 e) clear))
        (with_key-Outcome s ss q cs key u used ps (param_key u)
          (match_route_table decode_uri_component ss u) refl d.1.0 clear
          (λ ps' c. match_route_table_params ss u _ ps' d.1.1 c))

  -- Two routes share the name of a parameter that both have at one place of the table: a route `/:y/z`
  -- inserted after `/:x` is found with its parameter under `x`, and with none under `y`.
  pub shared_param_name :
      (x y z s : Str) (r r' : RouteDefinition A)
      → x ≢ y
      → (let m =
            match_route_table decode_uri_component
              (s ∷ z ∷ [])
              (insert_segments
                (param y ∷ fixed z ∷ [])
                r'
                (insert_segments (param x ∷ []) r create_route_table))
              [] in
          (m.0 ≡ some r')
          × (get x m.1 ≡ some (decoded decode_uri_component s))
          × (get y m.1 ≡ none))
  unfolding match_route_table insert_segments with_child get put get_child
  shared_param_name x y z s r r' ne =
      rw (str_eq_refl z) (refl, ground (arith, str_eq_refl x), ground (arith, str_eq_iff x y))
