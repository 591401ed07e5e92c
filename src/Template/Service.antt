-- ===== src/Template/Service.antt =====
-- template/src/inbound: the state, the handlers, the health checks and the route table.
-- A request is what its handler's extractors find in it, with the guard's part of it as `head`; a
-- response is its status and what its body holds. Tracing is left out.
pub mod Router
pub mod Laws
pub mod Table
pub mod Mount
pub mod Startup
use maxgame_admin_guard.Base.{
  ℕ, String, Bool, true, false, Option, none, some, List, Result, ok, err, Call, and_then,
  if◌then◌else◌,
}
use maxgame_admin_guard.Base.Int.{ℤ, pos}
use maxgame_admin_guard.Base.Text.{trim, is_empty}
use maxgame_admin_guard.Error.{GuardError}
use maxgame_admin_guard.Error
use maxgame_admin_guard.Access.{AdminIdentity}
use maxgame_admin_guard.Guard.{GuardConfig, new_config}
use maxgame_admin_guard.AxumExt.{Request, from_request_parts}
use maxgame_admin_guard.Template.{
  DomainError, bad_request, DomainResult, from_guard_error, ErrorBody, into_response,
}
use maxgame_admin_guard.Template.Config.{Config}
use maxgame_admin_guard.Template.Example.{
  RawAdminListQuery, AdminListQuery, ListMeta, offset, try_from, list_meta,
}
use maxgame_admin_guard.Template.Repo.{ExampleItem, Postgres, list, count, create}

abbrev pub example_site : String
example_site = "maxion-game-back-office"

abbrev pub example_feature : String
example_feature = "example-management"

-- The guard's configuration that `AppState::new` makes of the service's.
unfoldable pub guard_config : Config → GuardConfig
unfolding new_config
guard_config c =
    new_config c.admin_idp.issuer c.admin_idp.jwks_url c.admin_idp.introspect_url
      c.admin_idp.introspect_api_key

pub record CreateExampleBody : Type 0 where
  pub name : String
  pub is_public : Bool

-- An extractor that fails answers with its own status.
pub record HttpRequest : Type 0 where
  pub path : String
  pub head : Request
  pub query : Result ℕ RawAdminListQuery
  pub body : Result ℕ CreateExampleBody

pub data Body : Type 0 where
  status_body : (status : String) (dependency : Option String) → Body
  public_list : List ExampleItem → Body
  admin_list : List ExampleItem → ListMeta → Body
  item_body : ExampleItem → Body
  error_body : ErrorBody → Body
  guard_body : (message : String) → Body
  rejected no_route : Body

pub record Response : Type 0 where
  pub status : ℕ
  pub body : Body

abbrev pub answer : ℕ → Body → Response
answer status body = record { status = status; body = body }

-- `IntoResponse` of a handler's result.
abbrev pub domain_response : Result DomainError Response → Response
domain_response (ok r) = r
domain_response (err e) = answer (into_response e).0 (error_body (into_response e).1)

abbrev pub guard_response : GuardError → Response
guard_response e = answer (Error.into_response e).0 (guard_body (Error.into_response e).1)

abbrev pub respond : {W : Type 0} → Result DomainError Response × W → Response × W
respond (r, w) = (domain_response r, w)

-- An extractor of the handler: a rejection ends the request.
abbrev pub extracted : {W A : Type 0} → Result ℕ A → (A → W → Response × W) → W → Response × W
extracted (ok a) k w = k a w
extracted (err status) k w = (answer status rejected, w)

-- The extractor `VerifiedAdmin`.
abbrev pub verified_admin :
    {W : Type 0}
    → Result GuardError AdminIdentity
    → (AdminIdentity → W → Response × W)
    → W
    → Response × W
verified_admin (ok identity) k w = k identity w
verified_admin (err e) k w = (guard_response e, w)

abbrev pub lift : {W : Type 0} → DomainResult Response → W → Result DomainError Response × W
lift r w = (r, w)

module _ {W : Type 0} (db : Postgres W) where
  -- `healthz` never touches the database; `readyz` asks it.
  unfoldable pub healthz : W → Response × W
  healthz w = (answer 200 (status_body "ok" none), w)

  abbrev pub readiness : Result (Option String) (Unit {0}) → Response
  readiness (ok row) = answer 200 (status_body "ready" none)
  readiness (err e) = answer 503 (status_body "unavailable" (some "postgres"))

  unfoldable pub readyz : W → Response × W
  readyz w = let (r, w') = db.select_one w in (readiness r, w')

  unfoldable pub list_public : W → Response × W
  unfolding list
  list_public w = respond (
      and_then (list db true (pos 100) (pos 0) w)
        (λ items. lift (ok (answer 200 (public_list items)))))

  abbrev pub admin_page : AdminListQuery → Call W DomainError Response
  admin_page query w = and_then (list db false query.take (offset query) w) (λ items w'.
      and_then (count db false w')
        (λ item_count. lift (ok (answer 200 (admin_list items (list_meta query item_count))))))

  abbrev pub parsed_page : DomainResult AdminListQuery → Call W DomainError Response
  parsed_page (ok query) w = admin_page query w
  parsed_page (err e) w = (err e, w)

  unfoldable pub list_admin : HttpRequest → W → Response × W
  unfolding try_from list count offset list_meta from_request_parts
  list_admin request = extracted request.query (λ raw.
      verified_admin (from_request_parts request.head)
        (λ admin w. respond (parsed_page (try_from raw) w)))

  abbrev pub created : CreateExampleBody → Call W DomainError Response
  created body w =
      if is_empty (trim body.name)
      then (err (bad_request "name must not be empty"), w)
      else and_then (create db body.name body.is_public w)
          (λ item. lift (ok (answer 201 (item_body item))))

  unfoldable pub create_admin : HttpRequest → W → Response × W
  unfolding create trim is_empty from_request_parts
  create_admin request =
      verified_admin (from_request_parts request.head)
        (λ admin. extracted request.body (λ body w. respond (created body w)))
