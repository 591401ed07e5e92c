-- ===== src/Template/Service/Laws.antt =====
-- template/src/inbound: what the handlers and the guard's layer let out.
use maxgame_admin_guard.Base.{
  ℕ, subst, ◌++◌, String, ◌≡◌, ◌≤◌, ◌⊎◌, inl, inr, refl, sym, ap, Bool, true, false, ◌&&◌,
  some-injective, Option, none, some, List, [], ◌∷◌, Result, ok, err, and_then, arith, All, length,
  if◌then◌else◌,
}
use maxgame_admin_guard.Base.Int.{pos}
use maxgame_admin_guard.Base.Text.{is_empty, lacks}
use maxgame_admin_guard.Error.{GuardError}
use maxgame_admin_guard.Access.{AdminIdentity}
use maxgame_admin_guard.Token.{Crates}
use maxgame_admin_guard.Guard.{authorize}
use maxgame_admin_guard.AxumExt.{Request, bearer_token, requirement, require_admin}
use maxgame_admin_guard.AxumExt.Laws.{require_admin_iff}
use maxgame_admin_guard.Template.{DomainError}
use maxgame_admin_guard.Template.Config.{Config}
use maxgame_admin_guard.Template.Repo.{ExampleItem, Postgres, list}
use maxgame_admin_guard.Template.Repo.Laws.{IsSql, IsPublic, list-IsFetched, fetched-IsPublic}
use maxgame_admin_guard.Template.Service.{
  HttpRequest, Body, status_body, public_list, admin_list, item_body, error_body, guard_body,
  rejected, no_route, Response, answer, respond, lift, healthz, readyz, list_public, readiness,
  example_site, example_feature,
}
use maxgame_admin_guard.Template.Service.Router.{
  Handler, healthz_handler, readyz_handler, list_public_handler, list_admin_handler,
  create_admin_handler, Route, build_router, AppState, run_handler, layer_response, run_route,
  dispatched, serve, first_match, route_layer, prefixed, merge, health_routes, public_routes,
  admin_routes,
}

-- The rows that only the admin routes show.
abbrev pub is_admin_body : Body → Bool
is_admin_body (status_body status dependency) = false
is_admin_body (public_list items) = false
is_admin_body (admin_list items meta) = true
is_admin_body (item_body item) = true
is_admin_body (error_body body) = false
is_admin_body (guard_body message) = false
is_admin_body rejected = false
is_admin_body no_route = false

abbrev pub OneOf : Route → List Route → Type 0
OneOf r [] = ⊥
OneOf r (x ∷ xs) = (r ≡ x) ⊎ OneOf r xs

-- A path without the characters of axum's patterns, those of its older versions among them.
abbrev pub is_literal : String → Bool
is_literal path = lacks b'{' path && lacks b'}' path && lacks b':' path && lacks b'*' path

abbrev pub AllLiteral : List Route → Type 0
AllLiteral routes = All (λ (r : Route). is_literal r.path ≡ true) routes

-- What the service relies on of axum's router: a request goes to a registered route, and where the
-- table's paths are no patterns to the one with exactly its path and method if there is one; any
-- other answer shows no rows.
pub record IsAxum (dispatch : List Route → String → String → Option Route)
    (unmatched : HttpRequest → Response) : Type 0 where
  pub registered :
      (routes : List Route) (path method : String) (r : Route)
      → dispatch routes path method ≡ some r
      → OneOf r routes
  pub exact :
      (routes : List Route) (path method : String) (r : Route)
      → AllLiteral routes
      → first_match routes path method ≡ some r
      → dispatch routes path method ≡ some r
  pub empty_handed : (request : HttpRequest) → (unmatched request).body ≡ no_route

-- The two shapes of the public list's answer.
listed :
    {W : Type 0} (r : Result DomainError (List ExampleItem) × W)
    → let sent : Response × W =
        respond (and_then r (λ items. lift (ok (answer 200 (public_list items))))) in
      (is_admin_body sent.0.body ≡ false)
      × ((items : List ExampleItem) (w : W)
          → sent ≡ (answer 200 (public_list items), w)
          → r ≡ (ok items, w))
listed (ok xs, v) = (refl, λ items w h. ground (arith, h))
listed (err e, v) = (refl, λ items w h. cc h)

-- The public list shows public rows alone, a hundred at most, whatever the table holds.
pub list_public-IsPublic :
    {W : Type 0} (db : Postgres W) (table : W → List ExampleItem)
    → IsSql db table
    → (w w' : W) (items : List ExampleItem)
    → list_public db w ≡ (answer 200 (public_list items), w')
    → All IsPublic items × (length items ≤ 100)
unfolding list_public
list_public-IsPublic db table sql w w' items h = fetched-IsPublic 100 0 (table w) items (
    list-IsFetched db table sql true 100 0 w w' items
      ((listed (list db true (pos 100) (pos 0) w)).1 items w' h))

abbrev is_admin_handler : Handler → Bool
is_admin_handler healthz_handler = false
is_admin_handler readyz_handler = false
is_admin_handler list_public_handler = false
is_admin_handler list_admin_handler = true
is_admin_handler create_admin_handler = true

run_handler-open :
    {W : Type 0} (db : Postgres W) (h : Handler) (request : HttpRequest) (w : W)
    → is_admin_handler h ≡ false
    → is_admin_body (run_handler db h request w).0.body ≡ false
unfolding run_handler healthz readyz list_public
run_handler-open db healthz_handler request w n = refl
run_handler-open db readyz_handler request w n = by_answer (db.select_one w).0
  where
    by_answer :
        (r : Result (Option String) (Unit {0})) → is_admin_body (readiness db r).body ≡ false
    by_answer (ok row) = refl
    by_answer (err e) = refl
run_handler-open db list_public_handler request w n = (listed (list db true (pos 100) (pos 0) w)).0
run_handler-open db list_admin_handler request w n = cc n
run_handler-open db create_admin_handler request w n = cc n

-- Every route of the table is behind the guard or shows no admin's rows.
abbrev IsSafe : Route → Type 0
IsSafe r = (r.guarded ≡ true) ⊎ ((r.guarded ≡ false) × (is_admin_handler r.handler ≡ false))

OneOf-IsSafe : (routes : List Route) → All IsSafe routes → (r : Route) → OneOf r routes → IsSafe r
OneOf-IsSafe (x ∷ xs) (h, hs) r (inl e) = subst IsSafe (sym e) h
OneOf-IsSafe (x ∷ xs) (h, hs) r (inr k) = OneOf-IsSafe xs hs r k
OneOf-IsSafe [] hs r k = absurd k

build_router-IsSafe :
    (nestable : String → Bool) (config : Config) (routes : List Route)
    → build_router nestable config ≡ some routes
    → All IsSafe routes
unfolding build_router health_routes public_routes admin_routes
build_router-IsSafe nestable config routes built =
    by_base (is_empty config.base_path) (nestable config.base_path) built
  where
    by_base :
        (bare takes : Bool)
        → merge health_routes (
            if bare
            then some (public_routes ++ route_layer admin_routes)
            else if takes
            then some (prefixed config.base_path (public_routes ++ route_layer admin_routes))
            else none)
          ≡ some routes
        → All IsSafe routes
    by_base true takes e =
        subst (All IsSafe) (some-injective e)
          (inr (refl, refl), (inr (refl, refl), (inr (refl, refl), (inl refl, (inl refl, tt)))))
    by_base false true e =
        subst (All IsSafe) (some-injective e)
          (inr (refl, refl), (inr (refl, refl), (inr (refl, refl), (inl refl, (inl refl, tt)))))
    by_base false false e = cc e

module _ {W Key : Type 0} (crates : Crates Key) (unix_seconds : W → ℕ)
    (state : AppState W Key) where
  -- The guard's answer to a request for the admin routes.
  abbrev pub asked : HttpRequest → W → Result GuardError AdminIdentity × W
  asked request w =
      authorize crates unix_seconds state.admin_guard request.head.method
        (bearer_token request.head.authorization) (some (requirement example_site example_feature))
        w

  layered :
      (r : Result GuardError Response × W) (w' : W) (response : Response)
      → layer_response r ≡ (response, w')
      → is_admin_body response.body ≡ true
      → r ≡ (ok response, w')
  layered (ok x, v) w' response h a = ground (arith, h)
  layered (err e, v) w' response h a = ground (arith, h, a)

  run_route-authorized :
      (r : Route) (request : HttpRequest) (w w' : W) (response : Response)
      → IsSafe r
      → run_route crates unix_seconds state r request w ≡ (response, w')
      → is_admin_body response.body ≡ true
      → (identity : AdminIdentity) × (after : W) × (asked request w ≡ (ok identity, after))
  run_route-authorized r request w w' response (inr (bare_route, plain)) h a =
      let bare : run_handler state.db r.handler request w ≡ (response, w') = cc (h, bare_route) in
      cc (
        ap (λ (x : Response × W). is_admin_body x.0.body) bare,
        a,
        run_handler-open state.db r.handler request w plain,
      )
  run_route-authorized r request w w' response (inl guarded) h a =
      let next : Request → W → Response × W =
        λ head. run_handler state.db r.handler (record request { head = head }) in
      let through : layer_response (
            require_admin crates unix_seconds next state.admin_guard example_site example_feature
              request.head w)
          ≡ (response, w') =
        cc (h, guarded) in
      let (identity, after, seen, authorized, ran, method, header, admin) =
        (require_admin_iff crates unix_seconds next state.admin_guard example_site example_feature
            request.head w w' response).0
          (layered _ w' response through a) in
      (identity, after, authorized)

  module _ (dispatch : List Route → String → String → Option Route)
      (unmatched : HttpRequest → Response) (axum : IsAxum dispatch unmatched)
      (nestable : String → Bool) (routes : List Route)
      (built : build_router nestable state.config ≡ some routes) where
    -- Whatever the path, the method, the headers and the base path: an answer that holds rows of
    -- the admin list or a created row is given only to a request that the guard authorizes for
    -- the service's site and feature.
    pub admin_rows-authorized :
        (request : HttpRequest) (w w' : W) (response : Response)
        → serve crates unix_seconds state dispatch unmatched routes request w ≡ (response, w')
        → is_admin_body response.body ≡ true
        → (identity : AdminIdentity) × (after : W) × (asked request w ≡ (ok identity, after))
    unfolding serve
    admin_rows-authorized request w w' response h a =
        by_route (dispatch routes request.path request.head.method) refl h
      where
        by_route :
            (o : Option Route)
            → dispatch routes request.path request.head.method ≡ o
            → dispatched crates unix_seconds state dispatch unmatched routes o request w
              ≡ (response, w')
            → (identity : AdminIdentity) × (after : W) × (asked request w ≡ (ok identity, after))
        by_route none e k = cc (
          ap (λ (x : Response × W). is_admin_body x.0.body) k,
          ap is_admin_body (axum.empty_handed request),
          a,
        )
        by_route (some r) e k =
            run_route-authorized r request w w' response
              (OneOf-IsSafe routes (build_router-IsSafe nestable state.config routes built) r
                (axum.registered _ request.path request.head.method r e))
              k a
