-- ===== src/Routing/Insertion.antt =====
-- What `insertParamRoute` does to a table: one pattern gains a route, unless it has one.
use fearless.Base.{
  Option, none, some, Str, str_eq, str_eq_iff, List, [], ◌∷◌, ◌≡◌, ◌≢◌, refl, get_or, or_else,
  if◌then◌else◌, arith, Bool-cases, inl, inr,
}
use fearless.Routing.Pattern.{RouteSegment, fixed, param, RouteDefinition}
use fearless.Routing.Table.{
  RouteTable, Children, table, child, no_children, param_child, no_param_child, create_route_table,
  get_child, with_child, with_key, param_key, insert_segments,
}
use fearless.Routing.Fits.{
  same_shape, route_at, at_child, route_at-create, route_at-with_key, IsKeyed, IsKeyedChildren,
}

pub IsKeyed-create : (A : Type 0) → IsKeyed (create_route_table {A = A})
unfolding IsKeyed
IsKeyed-create A = (tt, tt)

module _ {A : Type 0} where
  get_child-with_child :
      (v w : Str) (f : RouteTable A → RouteTable A) (cs : Children A)
      → get_child v (with_child w f cs) ≡ (
          if str_eq w v
          then some (f (get_or (get_child w cs) create_route_table))
          else get_child v cs)
  unfolding get_child with_child
  get_child-with_child v w f no_children = refl
  get_child-with_child v w f (child u t cs) =
      ground (arith, str_eq_iff u w, str_eq_iff w v, str_eq_iff u v, get_child-with_child v w f cs)

  at_child-get_or :
      (p : List RouteSegment) (o : Option (RouteTable A))
      → route_at p (get_or o create_route_table) ≡ at_child o (route_at p)
  at_child-get_or p none = route_at-create p
  at_child-get_or p (some t) = refl

  -- After `insertParamRoute` of a route under the segments `q`, the pattern `p` holds what it held, and
  -- gains the new route exactly if it has the shape of `q` and held none.
  pub route_at-insert_segments :
      (p q : List RouteSegment) (r : RouteDefinition A) (t : RouteTable A)
      → route_at p (insert_segments q r t)
        ≡ (if same_shape q p then or_else (route_at p t) (some r) else route_at p t)
  unfolding route_at insert_segments same_shape
  route_at-insert_segments [] [] r (table r' cs pc key) = refl
  route_at-insert_segments [] (fixed w ∷ q) r (table r' cs pc key) = refl
  route_at-insert_segments [] (param m ∷ q) r (table r' cs pc key) = refl
  route_at-insert_segments (fixed v ∷ p) [] r (table r' cs pc key) = refl
  route_at-insert_segments (param n ∷ p) [] r (table r' cs pc key) = refl
  route_at-insert_segments (fixed v ∷ p) (param m ∷ q) r (table r' cs pc key) = refl
  route_at-insert_segments (param n ∷ p) (fixed w ∷ q) r (table r' cs pc key) = refl
  route_at-insert_segments (fixed v ∷ p) (fixed w ∷ q) r (table r' cs pc key) = ground (
    arith,
    str_eq_iff w v,
    get_child-with_child v w (insert_segments q r) cs,
    route_at-insert_segments p q r (get_or (get_child w cs) create_route_table),
    at_child-get_or p (get_child w cs),
  )
  route_at-insert_segments (param n ∷ p) (param m ∷ q) r (table r' cs no_param_child key) = rw (
    route_at-insert_segments p q r (with_key m create_route_table),
    route_at-with_key p m create_route_table,
    route_at-create p,
  )
  route_at-insert_segments (param n ∷ p) (param m ∷ q) r (table r' cs (param_child t) key) =
      rw (route_at-insert_segments p q r (with_key m t), route_at-with_key p m t)

  IsKeyed-with_key : (name : Str) (t : RouteTable A) → IsKeyed t → IsKeyed (with_key name t)
  unfolding IsKeyed
  IsKeyed-with_key name (table r cs pc key) h = h

  param_key-with_key : (name : Str) (t : RouteTable A) → param_key (with_key name t) ≢ none
  param_key-with_key name (table r cs pc none) = cc
  param_key-with_key name (table r cs pc (some k)) = cc

  IsKeyed-with_child :
      (v : Str) (f : RouteTable A → RouteTable A) (cs : Children A)
      → ((t : RouteTable A) → IsKeyed t → IsKeyed (f t))
      → IsKeyedChildren cs
      → IsKeyedChildren (with_child v f cs)
  unfolding IsKeyed with_child
  IsKeyed-with_child v f no_children keep h = (keep create_route_table (IsKeyed-create A), tt)
  IsKeyed-with_child v f (child u t cs) keep h = elim (Bool-cases (str_eq u v)) [
    | inl e ↦ rw e (keep t h.0, h.1)
    | inr e ↦ rw e (h.0, IsKeyed-with_child v f cs keep h.1)
  ]

  param_key-insert_segments :
      (q : List RouteSegment) (r : RouteDefinition A) (t : RouteTable A)
      → param_key (insert_segments q r t) ≡ param_key t
  unfolding insert_segments
  param_key-insert_segments [] r (table r' cs pc key) = refl
  param_key-insert_segments (fixed w ∷ q) r (table r' cs pc key) = refl
  param_key-insert_segments (param m ∷ q) r (table r' cs pc key) = refl

  -- An insertion leaves every parameter child with a name.
  pub insert_segments-IsKeyed :
      (q : List RouteSegment) (r : RouteDefinition A) (t : RouteTable A)
      → IsKeyed t
      → IsKeyed (insert_segments q r t)
  unfolding IsKeyed insert_segments
  insert_segments-IsKeyed [] r (table r' cs pc key) h = h
  insert_segments-IsKeyed (fixed w ∷ q) r (table r' cs pc key) h =
      (IsKeyed-with_child w _ cs (insert_segments-IsKeyed q r) h.0, h.1)
  insert_segments-IsKeyed (param m ∷ q) r (table r' cs no_param_child key) h = (
    h.0,
    (
      rw param_key-insert_segments (param_key-with_key m create_route_table),
      insert_segments-IsKeyed q r _ (IsKeyed-with_key m create_route_table (IsKeyed-create A)),
    ),
  )
  insert_segments-IsKeyed (param m ∷ q) r (table r' cs (param_child t) key) h = (
    h.0,
    (
      rw param_key-insert_segments (param_key-with_key m t),
      insert_segments-IsKeyed q r _ (IsKeyed-with_key m t h.1.1),
    ),
  )
