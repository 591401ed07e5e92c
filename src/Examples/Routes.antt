-- ===== src/Examples/Routes.antt =====
-- template/src/inbound on concrete requests, with a router that takes the first route with exactly
-- the path and the method.
use maxgame_admin_guard.Base.{
  Bool, ℕ, String, ◌≡◌, refl, true, false, ◌&&◌, none, some, List, [], ◌∷◌, ok, err, arith, inl,
  inr, Bool-cases,
}
use maxgame_admin_guard.Base.Text.{
  starts_with, lacks, ◌<>◌, str_eq, is_empty, trim, trim_start_matches, trim_end_matches,
  is_whitespace, split_once, strip_prefix,
}
use maxgame_admin_guard.Base.Int.{pos}
use maxgame_admin_guard.Error.{unauthorized}
use maxgame_admin_guard.Base.Text.{split, str_le}
use maxgame_admin_guard.Json.{string, array, object, cons, nil, entry, end}
use maxgame_admin_guard.Access.{
  AdminIdentity, has_feature, has_any_site_access, is_super_admin, lookup, normalize_site_access,
  normalize_entries, raw_features, grant_text, insert, insert_sorted, sort, dedup,
}
use maxgame_admin_guard.Token.{
  Crates, verify, open_header, split_jwt, decode_json, decode_base64url, header_kid, check_token,
  check_signature, check_signature_bytes, check_claims, check_issuer, check_expiry,
}
use maxgame_admin_guard.Introspect.{non_blank, not_blank}
use maxgame_admin_guard.Guard.{
  authorize, authorize_identity, check_live, is_configured, is_mutating, check_access,
  default_mutating_methods,
}
use maxgame_admin_guard.AxumExt.{requirement, bearer_token, require_admin, from_request_parts}
use maxgame_admin_guard.Template.Config.{Config, development}
use maxgame_admin_guard.Template.Example.{ListMeta, try_from, offset, list_meta}
use maxgame_admin_guard.Template.Repo.{list, count, visible, or_domain_error}
use maxgame_admin_guard.Template.Service.{
  HttpRequest, admin_list, list_admin, Response, status_body, no_route, answer, guard_response,
  readyz, list_public,
}
use maxgame_admin_guard.Template.Service.Router.{
  Route, AppState, serve, first_match, build_router, health_routes, public_routes, admin_routes,
  run_handler,
}
use maxgame_admin_guard.Template.Service.Laws.{OneOf, IsAxum, asked, admin_rows-authorized}
use maxgame_admin_guard.Template.Service.Table.{IsPlain, Nests, table_at}
use maxgame_admin_guard.Template.Service.Mount.{at, open_routes-served, admin_routes-refused}
use maxgame_admin_guard.Examples.{crates, unix_seconds, guard}
use maxgame_admin_guard.Examples as Toys
use maxgame_admin_guard.Examples.Service.{db, rows}

abbrev pub unmatched : HttpRequest → Response
unmatched request = answer 404 no_route

first_match-OneOf :
    (routes : List Route) (path method : String) (r : Route)
    → first_match routes path method ≡ some r
    → OneOf r routes
unfolding first_match
first_match-OneOf [] path method r h = cc h
first_match-OneOf (x ∷ xs) path method r h =
    elim (Bool-cases (str_eq x.path path && str_eq x.method method)) [
      | inl e ↦ inl (ground (arith, e, h))
      | inr e ↦ inr (first_match-OneOf xs path method r (ground (arith, e, h)))
    ]

pub first_match-IsAxum : IsAxum first_match unmatched
first_match-IsAxum = record {
  registered = first_match-OneOf;
  exact = λ routes path method r literal h. h;
  empty_handed = λ request. refl;
}

abbrev settings : Config
settings = record {
  app_env = development;
  host = "0.0.0.0";
  port = 8097;
  base_path = "/hub";
  database_url = "postgres://db";
  database_max_connections = 10;
  admin_idp = record {
    base_url = "https://idp";
    issuer = "idp";
    jwks_url = "https://idp/jwks";
    introspect_url = "https://idp/introspect";
    introspect_api_key = "secret";
  };
  cors_allowed_origins = [];
}

abbrev state : AppState ℕ ℕ
state = record { config = settings; db = db; admin_guard = guard }

-- A request without a token.
abbrev request : HttpRequest
request = record {
  path = "/hub/admin/example";
  head = record { method = "GET"; authorization = none; extension = none };
  query = ok (record { page = none; take = none });
  body = ok (record { name = "item"; is_public = true });
}

-- A rooted path is enough for this axum.
abbrev nestable : String → Bool
nestable base = starts_with base "/"

nests : Nests nestable
nests base plain e = ground (arith, plain.rooted, e)

plain : IsPlain "/hub"
plain = record {
  literal = unfold lacks in refl;
  rooted = unfold is_empty starts_with in refl;
  open_ended = unfold trim_end_matches in refl;
}

open_routes-served_example :
    (routes : List Route) × (build_router nestable settings ≡ some routes)
    × (serve crates unix_seconds state first_match unmatched routes (at "/healthz" "GET" request) 5
        ≡ (answer 200 (status_body "ok" none), 5))
    × (serve crates unix_seconds state first_match unmatched routes (at "/readyz" "GET" request) 5
        ≡ readyz db 5)
    × (serve crates unix_seconds state first_match unmatched routes
          (at ("/hub" <> "/example") "GET" request)
          5
        ≡ list_public db 5)
open_routes-served_example =
    open_routes-served crates unix_seconds state first_match unmatched first_match-IsAxum nestable
      plain nests request 5

built : build_router nestable settings ≡ some (table_at "/hub")
built =
    unfold build_router table_at health_routes public_routes admin_routes is_empty starts_with in
    refl

no_token :
    asked crates unix_seconds state (at "/hub/admin/example" "POST" request) 5
    ≡ (err (unauthorized "Invalid token"), 5)
unfolding authorize bearer_token is_configured not_blank trim is_empty trim_start_matches
    trim_end_matches is_whitespace Toys.config
no_token = refl

admin_routes-refused_example :
    serve crates unix_seconds state first_match unmatched
      (table_at "/hub")
      (at ("/hub" <> "/admin/example") "POST" request)
      5
    ≡ (guard_response (unauthorized "Invalid token"), 5)
admin_routes-refused_example =
    admin_routes-refused crates unix_seconds state first_match unmatched first_match-IsAxum nestable
      plain (table_at "/hub") built "POST" (inr refl) request 5 5 (unauthorized "Invalid token")
      no_token

-- The claims of an admin who may manage the examples.
abbrev pub manager_crates : Crates ℕ
manager_crates = record crates {
  payload_from_slice = λ b. ok (record Toys.payload {
    site_access = some (
        object
          (entry "maxion-game-back-office" (array (cons (string "example-management") nil)) end));
  });
}

abbrev signed : HttpRequest
signed = record request {
  head = record { method = "GET"; authorization = some "Bearer h.p.s"; extension = none };
}

manager_verifies : verify manager_crates unix_seconds Toys.verifier "h.p.s" 5 ≡ (
  ok (record {
    sub = "ann";
    role = "admin";
    site_access = ("maxion-game-back-office", "example-management" ∷ []) ∷ [];
  }),
  6,
)
unfolding verify open_header split_jwt trim split is_empty trim_start_matches trim_end_matches
    is_whitespace decode_json decode_base64url header_kid check_token check_signature
    check_signature_bytes check_claims check_issuer check_expiry non_blank not_blank
    normalize_site_access normalize_entries insert_sorted sort dedup insert raw_features grant_text
    str_le
manager_verifies = refl

abbrev page_meta : ListMeta
page_meta = record {
  page = pos 1;
  take = pos 10;
  item_count = pos 2;
  page_count = pos 1;
  has_next_page = false;
  has_previous_page = false;
}

bearer : bearer_token (some "Bearer h.p.s") ≡ some "h.p.s"
unfolding bearer_token split_once strip_prefix trim is_empty trim_start_matches trim_end_matches
    is_whitespace
bearer = refl

abbrev manager : AdminIdentity
manager = record {
  admin_id = "ann";
  role = "admin";
  site_access = ("maxion-game-back-office", "example-management" ∷ []) ∷ [];
  token = "h.p.s";
}

manager_authorized :
    authorize manager_crates unix_seconds guard "GET"
      (some "h.p.s")
      (some (requirement "maxion-game-back-office" "example-management"))
      5
    ≡ (ok manager, 6)
unfolding authorize authorize_identity check_live is_configured not_blank trim is_empty
    trim_start_matches trim_end_matches is_whitespace is_mutating default_mutating_methods
    check_access has_feature has_any_site_access is_super_admin lookup Toys.config
manager_authorized = rw manager_verifies refl

shows_rows :
    serve manager_crates unix_seconds state first_match unmatched (table_at "/hub") signed 5
    ≡ (answer 200 (admin_list rows page_meta), 8)
unfolding serve table_at health_routes public_routes admin_routes first_match is_empty require_admin
    run_handler list_admin from_request_parts try_from list count or_domain_error visible offset
    list_meta
shows_rows = rw (bearer, manager_authorized) refl

admin_rows-authorized_example :
    (identity : AdminIdentity) × (after : ℕ) × (asked manager_crates unix_seconds state signed 5
      ≡ (ok identity, after))
admin_rows-authorized_example =
    admin_rows-authorized manager_crates unix_seconds state first_match unmatched first_match-IsAxum
      nestable (table_at "/hub") built signed 5 8 (answer 200 (admin_list rows page_meta))
      shows_rows refl
