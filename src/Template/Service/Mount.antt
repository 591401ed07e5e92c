-- ===== src/Template/Service/Mount.antt =====
-- template/src/inbound/router.rs: where the routes are, for a base path that is no pattern.
use maxgame_admin_guard.Base.{
  ℕ, String, ◌≡◌, ◌⊎◌, inl, inr, refl, sym, ap, subst, ◌∙◌, Bool, true, Option, none, some, List,
  err,
}
use maxgame_admin_guard.Base.Text.{◌<>◌}
use maxgame_admin_guard.Error.{GuardError}
use maxgame_admin_guard.Token.{Crates}
use maxgame_admin_guard.AxumExt.{require_admin}
use maxgame_admin_guard.Template.Service.{
  HttpRequest, status_body, Response, answer, guard_response, healthz, readyz, list_public,
}
use maxgame_admin_guard.Template.Service.Router.{
  Handler, run_route, Route, route, healthz_handler, readyz_handler, list_admin_handler,
  create_admin_handler, build_router, AppState, run_handler, dispatched, serve, first_match,
  health_routes,
}
use maxgame_admin_guard.Template.Service.Laws.{IsAxum, asked}
use maxgame_admin_guard.Template.Service.Table.{
  IsPlain, Nests, table_at, built-table, IsPlain-built, table-AllLiteral, first_match-public,
  first_match-list, first_match-create,
}

-- The request for a path and a method, the rest of it as it is.
abbrev pub at : String → String → HttpRequest → HttpRequest
at path method request = record request {
  path = path;
  head = record request.head { method = method };
}

module _ {W Key : Type 0} (crates : Crates Key) (unix_seconds : W → ℕ) (state : AppState W Key)
    (dispatch : List Route → String → String → Option Route) (unmatched : HttpRequest → Response)
    (axum : IsAxum dispatch unmatched) (nestable : String → Bool)
    (plain : IsPlain state.config.base_path) where
  abbrev served : List Route → String → String → HttpRequest → W → Response × W
  served routes path method request w =
      serve crates unix_seconds state dispatch unmatched routes (at path method request) w

  served_by :
      (path method : String) (request : HttpRequest) (w : W) (r : Route)
      → first_match (table_at state.config.base_path) path method ≡ some r
      → served (table_at state.config.base_path) path method request w
        ≡ run_route crates unix_seconds state r (at path method request) w
  unfolding serve
  served_by path method request w r h =
      let table = table_at state.config.base_path in
      ap
        (λ (o : Option Route).
          dispatched crates unix_seconds state dispatch unmatched table o (at path method request)
            w)
        (axum.exact table path method r (table-AllLiteral state.config.base_path plain.literal) h)

  -- With a plain base path the router is built, and the health checks answer at the root and the
  -- public list under the base path; none of them looks at the request's headers. Liveness is always
  -- 200 and leaves the world alone; readiness and the list are what their handlers answer.
  pub open_routes-served :
      Nests nestable
      → (request : HttpRequest) (w : W)
      → (routes : List Route) × (build_router nestable state.config ≡ some routes)
        × (served routes "/healthz" "GET" request w ≡ (answer 200 (status_body "ok" none), w))
        × (served routes "/readyz" "GET" request w ≡ readyz state.db w)
        × (served routes (state.config.base_path <> "/example") "GET" request w
            ≡ list_public state.db w)
  unfolding run_handler healthz first_match table_at health_routes
  open_routes-served nests request w = (
    table_at state.config.base_path,
    IsPlain-built nestable state.config nests plain,
    served_by "/healthz" "GET" request w (route "/healthz" "GET" healthz_handler) refl,
    served_by "/readyz" "GET" request w (route "/readyz" "GET" readyz_handler) refl,
    served_by (state.config.base_path <> "/example") "GET" request w _
        (first_match-public state.config.base_path),
  )

  refused_at :
      (method : String) (h : Handler) (request : HttpRequest) (w v : W) (e : GuardError)
      → first_match
          (table_at state.config.base_path)
          (state.config.base_path <> "/admin/example")
          method
        ≡ some (record {
          path = state.config.base_path <> "/admin/example";
          method = method;
          handler = h;
          guarded = true;
        })
      → asked crates unix_seconds state
          (at (state.config.base_path <> "/admin/example") method request)
          w
        ≡ (err e, v)
      → served
          (table_at state.config.base_path)
          (state.config.base_path <> "/admin/example")
          method
          request
          w
        ≡ (guard_response e, v)
  unfolding require_admin
  refused_at method h request w v e found refused =
      served_by (state.config.base_path <> "/admin/example") method request w _ found
      ∙ (rw refused refl)

  -- Under a plain base path, a request for the admin routes of the built router that the guard
  -- refuses is answered with the refusal's own status and message in the world that the guard left:
  -- neither a row is read nor one inserted.
  pub admin_routes-refused :
      (routes : List Route)
      → build_router nestable state.config ≡ some routes
      → (method : String) → (method ≡ "GET") ⊎ (method ≡ "POST")
      → (request : HttpRequest) (w v : W) (e : GuardError)
      → asked crates unix_seconds state
          (at (state.config.base_path <> "/admin/example") method request)
          w
        ≡ (err e, v)
      → served routes (state.config.base_path <> "/admin/example") method request w
        ≡ (guard_response e, v)
  admin_routes-refused routes built method verb request w v e h =
      subst
        (λ (rs : List Route).
          served rs (state.config.base_path <> "/admin/example") method request w
          ≡ (guard_response e, v))
        (sym (built-table nestable state.config routes built)) (by_verb verb)
    where
      by_verb :
          (method ≡ "GET") ⊎ (method ≡ "POST")
          → served
              (table_at state.config.base_path)
              (state.config.base_path <> "/admin/example")
              method
              request
              w
            ≡ (guard_response e, v)
      by_verb (inl get) =
          refused_at method list_admin_handler request w v e
            (rw get (first_match-list state.config.base_path)) h
      by_verb (inr post) =
          refused_at method create_admin_handler request w v e
            (rw post (first_match-create state.config.base_path)) h
