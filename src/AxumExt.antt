-- ===== src/AxumExt.antt =====
-- rust/src/axum_ext.rs: the middleware `require_admin` and the extractor `VerifiedAdmin`.
-- A request is what these two read of it, with `extension` for the identity among its extensions;
-- the rest of the router is the parameter `next`.
pub mod Laws
use maxgame_admin_guard.Base.{
  ℕ, String, Bool, not, Option, none, some, Result, ok, err, Call, and_then, ok_or,
}
use maxgame_admin_guard.Base.Text.{trim, is_empty, split_once, filter}
use maxgame_admin_guard.Error.{GuardError, unauthorized, GuardResult}
use maxgame_admin_guard.Access.{AdminIdentity}
use maxgame_admin_guard.Token.{Crates}
use maxgame_admin_guard.Guard.{AdminGuard, Requirement, authorize}

abbrev pub trimmed_second : Option (String × String) → Option String
trimmed_second none = none
trimmed_second (some (before, token)) = some (trim token)

-- `bearer_token`, of the `Authorization` header's text where it is there and is text.
unfoldable pub bearer_token : Option String → Option String
unfolding split_once trim is_empty
bearer_token none = none
bearer_token (some value) =
    filter (λ token. not (is_empty token)) (trimmed_second (split_once value "Bearer "))

pub record Request : Type 0 where
  pub method : String
  pub authorization : Option String
  pub extension : Option AdminIdentity

-- `Requirement::new`.
abbrev pub requirement : String → String → Requirement
requirement site feature = record { site = site; feature = feature }

-- The handler runs on the request with the identity inserted.
abbrev pub run_next :
    {W Answer : Type 0}
    → (Request → W → Answer × W)
    → Request
    → AdminIdentity
    → Call W GuardError Answer
run_next next request identity w =
    let (answer, w') = next (record request { extension = some identity }) w in (ok answer, w')

module _ {W Key Answer : Type 0} (crates : Crates Key) (unix_seconds : W → ℕ)
    (next : Request → W → Answer × W) where
  unfoldable pub require_admin :
      AdminGuard W Key → (site feature : String) → Request → Call W GuardError Answer
  unfolding bearer_token
  require_admin guard site feature request w =
      and_then
        (authorize crates unix_seconds guard request.method (bearer_token request.authorization)
          (some (requirement site feature)) w)
        (run_next next request)

-- `VerifiedAdmin::from_request_parts`.
unfoldable pub from_request_parts : Request → GuardResult AdminIdentity
from_request_parts request =
    ok_or request.extension
      (unauthorized "admin identity is missing; this route is not behind require_admin")
