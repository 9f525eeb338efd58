-- ===== src/Routing/Fits.antt =====
-- What it means that a pattern fits a path, that two patterns have one shape, and which route a
-- table holds under a pattern.
use fearless.Base.{
  Option, none, some, Bool, true, false, Str, str_eq, str_eq_iff, List, [], ◌∷◌, ◌&&◌, ◌≡◌, ◌≢◌,
  refl, arith, str_eq_refl,
}
use fearless.Routing.Pattern.{RouteSegment, fixed, param, RouteDefinition}
use fearless.Routing.Table.{
  RouteTable, Children, ParamChild, table, child, no_children, param_child, no_param_child,
  create_route_table, get_child, with_key, param_key,
}

unfoldable pub fits : List RouteSegment → List Str → Bool
fits [] [] = true
fits (fixed v ∷ p) (s ∷ ss) = str_eq v s && fits p ss
fits (param n ∷ p) (s ∷ ss) = fits p ss
fits _ _ = false

-- The same fixed segments at the same places; the names of parameters do not count.
unfoldable pub same_shape : List RouteSegment → List RouteSegment → Bool
same_shape [] [] = true
same_shape (fixed v ∷ p) (fixed w ∷ q) = str_eq v w && same_shape p q
same_shape (param n ∷ p) (param m ∷ q) = same_shape p q
same_shape _ _ = false

pub same_shape_refl : (p : List RouteSegment) → same_shape p p ≡ true
unfolding same_shape
same_shape_refl [] = refl
same_shape_refl (fixed v ∷ p) = ground (arith, str_eq_refl v, same_shape_refl p)
same_shape_refl (param n ∷ p) = same_shape_refl p

-- Patterns of one shape fit the same paths.
pub fits-same_shape :
    (p q : List RouteSegment) (ss : List Str) → same_shape p q ≡ true → fits p ss ≡ fits q ss
unfolding fits same_shape
fits-same_shape [] [] ss h = refl
fits-same_shape [] (fixed w ∷ q) ss h = cc
fits-same_shape [] (param m ∷ q) ss h = cc
fits-same_shape (fixed v ∷ p) [] ss h = cc
fits-same_shape (param v ∷ p) [] ss h = cc
fits-same_shape (fixed v ∷ p) (param w ∷ q) ss h = cc
fits-same_shape (param v ∷ p) (fixed w ∷ q) ss h = cc
fits-same_shape (fixed v ∷ p) (fixed w ∷ q) [] h = refl
fits-same_shape (fixed v ∷ p) (fixed w ∷ q) (s ∷ ss) h =
    ground (arith, str_eq_iff v w, fits-same_shape p q ss)
fits-same_shape (param v ∷ p) (param w ∷ q) [] h = refl
fits-same_shape (param v ∷ p) (param w ∷ q) (s ∷ ss) h = fits-same_shape p q ss h

module _ {A : Type 0} where
  abbrev pub at_child :
      Option (RouteTable A)
      → (RouteTable A → Option (RouteDefinition A))
      → Option (RouteDefinition A)
  at_child none f = none
  at_child (some t) f = f t

  abbrev at_param :
      ParamChild A → (RouteTable A → Option (RouteDefinition A)) → Option (RouteDefinition A)
  at_param no_param_child f = none
  at_param (param_child t) f = f t

  unfoldable pub route_at : List RouteSegment → RouteTable A → Option (RouteDefinition A)
  route_at [] (table r cs pc key) = r
  route_at (fixed v ∷ p) (table r cs pc key) = at_child (get_child v cs) (route_at p)
  route_at (param n ∷ p) (table r cs pc key) = at_param pc (route_at p)

  pub route_at-create : (p : List RouteSegment) → route_at p (create_route_table {A = A}) ≡ none
  unfolding route_at get_child
  route_at-create [] = refl
  route_at-create (fixed v ∷ p) = refl
  route_at-create (param n ∷ p) = refl

  pub route_at-with_key :
      (p : List RouteSegment) (name : Str) (t : RouteTable A)
      → route_at p (with_key name t) ≡ route_at p t
  unfolding route_at
  route_at-with_key [] name (table r cs pc key) = refl
  route_at-with_key (fixed v ∷ p) name (table r cs pc key) = refl
  route_at-with_key (param n ∷ p) name (table r cs pc key) = refl

-- Every parameter child has the name under which its segment is stored.
unfoldable mutual
  pub IsKeyed : {A : Type 0} → RouteTable A → Type 0
  IsKeyed (table r cs pc key) = IsKeyedChildren cs × IsKeyedParam pc

  pub IsKeyedChildren : {A : Type 0} → Children A → Type 0
  IsKeyedChildren no_children = Unit
  IsKeyedChildren (child v t cs) = IsKeyed t × IsKeyedChildren cs

  IsKeyedParam : {A : Type 0} → ParamChild A → Type 0
  IsKeyedParam no_param_child = Unit
  IsKeyedParam (param_child t) = (param_key t ≢ none) × IsKeyed t
