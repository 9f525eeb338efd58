-- ===== src/Routing/Pattern.antt =====
-- src/types.ts: `HttpMethod`; src/app.ts: `splitNormalizedPath`, `compilePath`, `RouteDefinition`.
use fearless.Base.{
  Bool, true, false, Str, codes, str_eq, List, [], ◌∷◌, ◌==◌, ◌||◌, ℕ, if◌then◌else◌, ◌≡◌, refl,
  starts_with, drop,
}
use fearless.Path.{normalize_path}

pub data HttpMethod : Type 0 where
  get_method post_method put_method delete_method patch_method options_method head_method :
      HttpMethod

abbrev pub method_name : HttpMethod → Str
method_name get_method = codes "GET"
method_name post_method = codes "POST"
method_name put_method = codes "PUT"
method_name delete_method = codes "DELETE"
method_name patch_method = codes "PATCH"
method_name options_method = codes "OPTIONS"
method_name head_method = codes "HEAD"

pub data RouteSegment : Type 0 where
  fixed param : Str → RouteSegment

pub record CompiledPath : Type 0 where
  pub normalized : Str
  pub segments : List RouteSegment
  pub has_params : Bool

pub record RouteDefinition (A : Type 0) : Type 0 where
  pub method : HttpMethod
  pub compiled_path : CompiledPath
  pub action : A

abbrev pub cons_head : ℕ → List Str → List Str
cons_head c [] = (c ∷ []) ∷ []
cons_head c (p ∷ ps) = (c ∷ p) ∷ ps

-- `s.split("/")`
unfoldable pub split_slash : Str → List Str
split_slash [] = [] ∷ []
split_slash (c ∷ s) = let rest = split_slash s in if c == b'/' then [] ∷ rest else cons_head c rest

unfoldable pub split_normalized_path : Str → List Str
unfolding split_slash str_eq
split_normalized_path normalized =
    if str_eq normalized (codes "/") then [] else split_slash (drop 1 normalized)

unfoldable compile_segment : Str → RouteSegment
unfolding starts_with
compile_segment segment =
    if starts_with (codes ":") segment then param (drop 1 segment) else fixed segment

abbrev is_param : RouteSegment → Bool
is_param (param name) = true
is_param (fixed value) = false

-- The loop of `compilePath`; `has_params` is set in it.
unfoldable pub compile_segments : List Str → List RouteSegment × Bool
unfolding compile_segment
compile_segments [] = ([], false)
compile_segments (s ∷ ss) =
    let rest = compile_segments ss in
    let first = compile_segment s in (first ∷ rest.0, is_param first || rest.1)

unfoldable pub compile_path : Str → CompiledPath
unfolding compile_segments split_normalized_path normalize_path
compile_path path =
    let normalized = normalize_path path in
    let compiled = compile_segments (split_normalized_path normalized) in
    record { normalized = normalized; segments = compiled.0; has_params = compiled.1 }

compile_path_runs : compile_path (codes "/users/:id/") ≡ record {
  normalized = codes "/users/:id";
  segments = fixed (codes "users") ∷ param (codes "id") ∷ [];
  has_params = true;
}
unfolding compile_path
compile_path_runs = refl
