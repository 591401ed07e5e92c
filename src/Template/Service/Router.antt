-- ===== src/Template/Service/Router.antt =====
-- template/src/inbound/router.rs: the route table, its mounting under the base path, the guard on
-- the admin routes, and the CORS policy. Axum is a parameter: `nestable` says where `Router::nest`
-- does not panic, `dispatch` picks the route of a table for a path and a method, and `unmatched`
-- answers where there is none.
use maxgame_admin_guard.Base.{
  ℕ, String, Bool, true, false, ◌&&◌, Option, none, some, List, [], ◌∷◌, ◌++◌, map, Result, ok, err,
  if◌then◌else◌,
}
use maxgame_admin_guard.Base.Text.{◌<>◌, is_empty, str_eq}
use maxgame_admin_guard.Error.{GuardError}
use maxgame_admin_guard.Token.{Crates}
use maxgame_admin_guard.Guard.{AdminGuard}
use maxgame_admin_guard.AxumExt.{require_admin}
use maxgame_admin_guard.Template.Config.{Config}
use maxgame_admin_guard.Template.Repo.{Postgres}
use maxgame_admin_guard.Template.Service.{
  HttpRequest, Response, guard_response, healthz, readyz, list_public, list_admin, create_admin,
  example_site, example_feature,
}

pub data Handler : Type 0 where
  healthz_handler readyz_handler list_public_handler list_admin_handler create_admin_handler :
      Handler

-- `guarded` says whether the `require_admin` layer is around the handler.
pub record Route : Type 0 where
  pub path : String
  pub method : String
  pub handler : Handler
  pub guarded : Bool

-- `Router::route` with one method.
abbrev pub route : String → String → Handler → Route
route path method handler = record {
  path = path;
  method = method;
  handler = handler;
  guarded = false;
}

unfoldable pub health_routes : List Route
health_routes = route "/healthz" "GET" healthz_handler ∷ route "/readyz" "GET" readyz_handler ∷ []

unfoldable pub public_routes : List Route
public_routes = route "/example" "GET" list_public_handler ∷ []

unfoldable pub admin_routes : List Route
admin_routes =
    route "/admin/example" "GET" list_admin_handler
    ∷ route "/admin/example" "POST" create_admin_handler
    ∷ []

-- `route_layer` with the guard's middleware.
abbrev pub route_layer : List Route → List Route
route_layer routes = map (λ (r : Route). record r { guarded = true }) routes

-- The routes with a prefix before their paths. A path is a pattern, as axum keeps it.
abbrev pub prefixed : String → List Route → List Route
prefixed prefix routes = map (λ (r : Route). record r { path = prefix <> r.path }) routes

abbrev pub merge : List Route → Option (List Route) → Option (List Route)
merge routes none = none
merge routes (some others) = some (routes ++ others)

module _ (nestable : String → Bool) where
  -- `Router::nest`, or nothing where it panics at the prefix.
  abbrev pub nest : String → List Route → Option (List Route)
  nest prefix routes = if nestable prefix then some (prefixed prefix routes) else none

  -- The route table of `build_router`, or nothing where it panics.
  unfoldable pub build_router : Config → Option (List Route)
  unfolding health_routes public_routes admin_routes is_empty
  build_router config =
      let routes = public_routes ++ route_layer admin_routes in
      merge health_routes
        (if is_empty config.base_path then some routes else nest config.base_path routes)

pub record AppState (W Key : Type 0) : Type 0 where
  pub config : Config
  pub db : Postgres W
  pub admin_guard : AdminGuard W Key

unfoldable pub run_handler : {W : Type 0} → Postgres W → Handler → HttpRequest → W → Response × W
unfolding healthz readyz list_public list_admin create_admin
run_handler db healthz_handler request w = healthz db w
run_handler db readyz_handler request w = readyz db w
run_handler db list_public_handler request w = list_public db w
run_handler db list_admin_handler request w = list_admin db request w
run_handler db create_admin_handler request w = create_admin db request w

abbrev pub layer_response : {W : Type 0} → Result GuardError Response × W → Response × W
layer_response (ok r, w) = (r, w)
layer_response (err e, w) = (guard_response e, w)

module _ {W Key : Type 0} (crates : Crates Key) (unix_seconds : W → ℕ)
    (state : AppState W Key) where
  abbrev pub run_route : Route → HttpRequest → W → Response × W
  run_route r request w =
      if r.guarded
      then layer_response (
          require_admin crates unix_seconds
            (λ head. run_handler state.db r.handler (record request { head = head }))
            state.admin_guard example_site example_feature request.head w)
      else run_handler state.db r.handler request w

  module _ (dispatch : List Route → String → String → Option Route)
      (unmatched : HttpRequest → Response) (routes : List Route) where
    abbrev pub dispatched : Option Route → HttpRequest → W → Response × W
    dispatched none request w = (unmatched request, w)
    dispatched (some r) request w = run_route r request w

    -- A request through the router with these routes.
    unfoldable pub serve : HttpRequest → W → Response × W
    unfolding run_handler
    serve request w = dispatched (dispatch routes request.path request.head.method) request w

-- The first route with exactly the path and the method.
unfoldable pub first_match : List Route → String → String → Option Route
first_match [] path method = none
first_match (r ∷ rs) path method =
    if str_eq r.path path && str_eq r.method method then some r else first_match rs path method

pub record CorsLayer : Type 0 where
  pub allow_origins : List String
  pub allow_methods : List String
  pub allow_headers : List String
  pub max_age : ℕ

-- `filter_map` of the parse of a header's value.
unfoldable pub parsed_origins : (String → Option String) → List String → List String
parsed_origins parse [] = []
parsed_origins parse (o ∷ os) = elim (parse o) [
  | some value ↦ value ∷ parsed_origins parse os
  | none ↦ parsed_origins parse os
]

unfoldable pub cors_layer : (String → Option String) → Config → CorsLayer
unfolding parsed_origins
cors_layer parse config = record {
  allow_origins = parsed_origins parse config.cors_allowed_origins;
  allow_methods = "GET" ∷ "POST" ∷ "OPTIONS" ∷ [];
  allow_headers = "authorization" ∷ "content-type" ∷ "accept" ∷ "x-request-id" ∷ [];
  max_age = 600;
}
