-- ===== src/Routing/Table.antt =====
-- src/app.ts: `RouteTable`, `createRouteTable`, `insertParamRoute` and `matchRouteTable`. A table is a
-- tree; the map of static children and the optional parameter child are types of the block.
use fearless.Base.{
  Option, none, some, Str, str_eq, put, remove, Dict, List, [], ◌∷◌, get_or, or_else, if◌then◌else◌,
}
use fearless.Routing.Pattern.{RouteSegment, fixed, param, RouteDefinition}

mutual
  pub data RouteTable (A : Type 0) : Type 0 where
    table : Option (RouteDefinition A) → Children A → ParamChild A → Option Str → RouteTable A

  pub data Children (A : Type 0) : Type 0 where
    no_children : Children A
    child : Str → RouteTable A → Children A → Children A

  pub data ParamChild (A : Type 0) : Type 0 where
    no_param_child : ParamChild A
    param_child : RouteTable A → ParamChild A

abbrev pub Params : Type 0
Params = Dict Str

module _ {A : Type 0} where
  abbrev pub create_route_table : RouteTable A
  create_route_table = table none no_children no_param_child none

  -- `staticChildren.get(value)`
  unfoldable pub get_child : Str → Children A → Option (RouteTable A)
  get_child value no_children = none
  get_child value (child v t cs) = if str_eq v value then some t else get_child value cs

  -- The static child of `value`, made where it is missing, is changed by `f`.
  unfoldable pub with_child : Str → (RouteTable A → RouteTable A) → Children A → Children A
  with_child value f no_children = child value (f create_route_table) no_children
  with_child value f (child v t cs) =
      if str_eq v value then child v (f t) cs else child v t (with_child value f cs)

  abbrev pub param_key : RouteTable A → Option Str
  param_key (table r cs pc key) = key

  -- `paramKey` is set if it is null.
  abbrev pub with_key : Str → RouteTable A → RouteTable A
  with_key name (table r cs pc key) = table r cs pc (or_else key (some name))

  abbrev with_param_child : Str → (RouteTable A → RouteTable A) → ParamChild A → ParamChild A
  with_param_child name f no_param_child = param_child (f (with_key name create_route_table))
  with_param_child name f (param_child t) = param_child (f (with_key name t))

  -- The loop of `insertParamRoute` over the segments, from the node that it has reached.
  unfoldable pub insert_segments :
      List RouteSegment → RouteDefinition A → RouteTable A → RouteTable A
  unfolding with_child
  insert_segments [] route (table r cs pc key) = table (or_else r (some route)) cs pc key
  insert_segments (fixed value ∷ ss) route (table r cs pc key) =
      table r (with_child value (insert_segments ss route) cs) pc key
  insert_segments (param name ∷ ss) route (table r cs pc key) =
      table r cs (with_param_child name (insert_segments ss route) pc) key

-- `decodeURIComponent` with its exception caught: `none` stands for the exception.
abbrev pub decoded : (Str → Option Str) → Str → Str
decoded decode_uri_component segment = get_or (decode_uri_component segment) segment

-- A search gives the route, if any, and the parameter object as the search has left it.
abbrev pub Found : Type 0 → Type 0
Found A = Option (RouteDefinition A) × Params

module _ {A : Type 0} where
  abbrev pub search_static :
      Option (RouteTable A) → (RouteTable A → Params → Found A) → Params → Found A
  search_static none go params = (none, params)
  search_static (some t) go params = go t params

  -- The part of `matchRouteTable` behind the write to `params`: a failure deletes the key.
  abbrev pub keep_or_delete : Str → Found A → Found A
  keep_or_delete key (some route, params) = (some route, params)
  keep_or_delete key (none, params) = (none, remove key params)

  abbrev pub or_param : Found A → (Params → Found A) → Found A
  or_param (some route, params) go = (some route, params)
  or_param (none, params) go = go params

  module _ (decode_uri_component : Str → Option Str) where
    abbrev pub search_with_key : Option Str → (Params → Found A) → Str → Params → Found A
    search_with_key none go segment params = (none, params)
    search_with_key (some key) go segment params =
        keep_or_delete key (go (put key (decoded decode_uri_component segment) params))

    abbrev pub search_param :
        ParamChild A → (RouteTable A → Params → Found A) → Str → Params → Found A
    search_param no_param_child go segment params = (none, params)
    search_param (param_child t) go segment params =
        search_with_key (param_key t) (go t) segment params

    -- The remaining segments stand for `segments` and `index`.
    unfoldable pub match_route_table : List Str → RouteTable A → Params → Found A
    unfolding get_child
    match_route_table [] (table r cs pc key) params = (r, params)
    match_route_table (segment ∷ ss) (table r cs pc key) params =
        or_param (search_static (get_child segment cs) (match_route_table ss) params)
          (search_param pc (match_route_table ss) segment)
