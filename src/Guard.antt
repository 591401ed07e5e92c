-- ===== src/Guard.antt =====
-- rust/src/guard.rs: the guard's configuration and `AdminGuard::authorize`, over any key provider
-- and any introspector. A method is its name.
pub mod Laws
pub mod Order
pub mod Refusals
pub mod Blame
pub mod Frame
pub mod Wiring
use maxgame_admin_guard.Base.{
  ℕ, String, Bool, true, false, not, ◌&&◌, ◌||◌, Option, none, some, List, [], ◌∷◌, Result, ok, err,
  ◌>>=◌, ◌>>◌, Call, and_then, if◌then◌else◌,
}
use maxgame_admin_guard.Base.Text.{◌<>◌, trim_end_matches}
use maxgame_admin_guard.Base.{◌==◌}
use maxgame_admin_guard.Error.{GuardError, unauthorized, forbidden, unavailable, GuardResult}
use maxgame_admin_guard.Access.{
  AdminIdentity, SiteAccess, contains, has_feature, has_any_site_access,
}
use maxgame_admin_guard.Introspect.{
  AdminIntrospection, active, inactive, AdminIntrospector, not_blank,
}
use maxgame_admin_guard.Introspect.Client.{
  default_timeout, default_breaker_failure_threshold, default_breaker_reset, default_header_name,
}
use maxgame_admin_guard.Token.{VerifiedAdminToken, Crates, AdminTokenVerifier, verify}

pub record GuardConfig : Type 0 where
  pub issuer : String
  pub jwks_url : String
  pub introspect_url : String
  pub introspect_header : String
  pub introspect_api_key : String
  pub mutating_methods : List String  -- HashSet<Method>
  pub breaker_failure_threshold : ℕ
  pub breaker_open : ℕ
  pub http_timeout : ℕ

unfoldable pub default_mutating_methods : List String
default_mutating_methods = "POST" ∷ "PUT" ∷ "PATCH" ∷ "DELETE" ∷ []

unfoldable pub new_config :
    (issuer jwks_url introspect_url introspect_api_key : String) → GuardConfig
unfolding default_mutating_methods
new_config issuer jwks_url introspect_url introspect_api_key = record {
  issuer = issuer;
  jwks_url = jwks_url;
  introspect_url = introspect_url;
  introspect_header = default_header_name;
  introspect_api_key = introspect_api_key;
  mutating_methods = default_mutating_methods;
  breaker_failure_threshold = default_breaker_failure_threshold;
  breaker_open = default_breaker_reset;
  http_timeout = default_timeout;
}

unfoldable pub from_base_url :
    (issuer idp_base_url jwks_path introspect_path introspect_api_key : String) → GuardConfig
unfolding new_config trim_end_matches
from_base_url issuer idp_base_url jwks_path introspect_path introspect_api_key =
    let base = trim_end_matches (λ c. c == b'/') idp_base_url in
    new_config issuer (base <> jwks_path) (base <> introspect_path) introspect_api_key

unfoldable pub with_introspect_header : GuardConfig → String → GuardConfig
with_introspect_header c header = record c { introspect_header = header }

unfoldable pub with_mutating_methods : GuardConfig → List String → GuardConfig
with_mutating_methods c methods = record c { mutating_methods = methods }

unfoldable pub with_breaker : GuardConfig → ℕ → ℕ → GuardConfig
with_breaker c failure_threshold open_for = record c {
  breaker_failure_threshold = failure_threshold;
  breaker_open = open_for;
}

unfoldable pub with_http_timeout : GuardConfig → ℕ → GuardConfig
with_http_timeout c timeout = record c { http_timeout = timeout }

unfoldable pub is_mutating : GuardConfig → String → Bool
is_mutating c method = contains method c.mutating_methods

unfoldable pub is_configured : GuardConfig → Bool
unfolding not_blank
is_configured c =
    not_blank c.issuer
    && not_blank c.jwks_url
    && not_blank c.introspect_url
    && not_blank c.introspect_api_key

pub record Requirement : Type 0 where
  pub site : String
  pub feature : String

unfoldable pub check_access : AdminIdentity → Requirement → GuardResult (Unit {0})
check_access identity require =
    if not (has_any_site_access identity)
    then err (forbidden "No access assigned. Contact your administrator.")
    else if not (has_feature identity require.site require.feature)
    then err (forbidden "Access denied. Required feature permission is missing.")
    else ok tt

pub record AdminGuard (W Key : Type 0) : Type 0 where
  pub config : GuardConfig
  pub verifier : AdminTokenVerifier W Key
  pub introspector : AdminIntrospector W

-- `AdminGuard::with_ports`.
abbrev pub with_ports :
    {W Key : Type 0}
    → GuardConfig
    → AdminTokenVerifier W Key
    → AdminIntrospector W
    → AdminGuard W Key
with_ports config verifier introspector = record {
  config = config;
  verifier = verifier;
  introspector = introspector;
}

-- The identity that the signed claims give.
abbrev pub token_identity : String → VerifiedAdminToken → AdminIdentity
token_identity token verified = record {
  admin_id = verified.sub;
  role = verified.role;
  site_access = verified.site_access;
  token = token;
}

-- An active verdict replaces the id, the role and the grants; an inactive one is a 401.
unfoldable pub apply_verdict : AdminIdentity → AdminIntrospection → GuardResult AdminIdentity
apply_verdict identity (active admin_id role site_access) =
    ok (record identity { admin_id = admin_id; role = role; site_access = site_access })
apply_verdict identity (inactive reason) =
    err (unauthorized ("Admin session is no longer active (" <> reason <> ")"))

-- The verdict is applied, and the access is checked again.
unfoldable pub recheck :
    AdminIdentity → Requirement → AdminIntrospection → GuardResult AdminIdentity
recheck identity require verdict = do
  live ← apply_verdict identity verdict
  check_access live require
  ok live

-- The live check of a mutation; any other method keeps the signed claims.
unfoldable pub check_live :
    {W Key : Type 0}
    → AdminGuard W Key
    → String
    → AdminIdentity
    → Requirement
    → Call W GuardError AdminIdentity
check_live guard method identity require w =
    if is_mutating guard.config method
    then and_then (guard.introspector.introspect identity.token w)
        (λ verdict w'. (recheck identity require verdict, w'))
    else (ok identity, w)

-- What follows the offline verification: the requirement, the claims, and the live check.
abbrev pub after_claims :
    {W Key : Type 0}
    → AdminGuard W Key
    → String
    → AdminIdentity
    → Requirement
    → GuardResult (Unit {0})
    → Call W GuardError AdminIdentity
after_claims guard method identity require (ok _) w = check_live guard method identity require w
after_claims guard method identity require (err e) w = (err e, w)

unfoldable pub authorize_identity :
    {W Key : Type 0}
    → AdminGuard W Key
    → String
    → Option Requirement
    → AdminIdentity
    → Call W GuardError AdminIdentity
authorize_identity guard method none identity w =
    (err (forbidden "Admin route is missing required site/feature metadata"), w)
authorize_identity guard method (some require) identity w =
    after_claims guard method identity require (check_access identity require) w

module _ {W Key : Type 0} (crates : Crates Key) (unix_seconds : W → ℕ) where
  abbrev pub authorize_bearer :
      AdminGuard W Key
      → String
      → Option String
      → Option Requirement
      → Call W GuardError AdminIdentity
  authorize_bearer guard method none require w = (err (unauthorized "Invalid token"), w)
  authorize_bearer guard method (some token) require w =
      and_then (verify crates unix_seconds guard.verifier token w)
        (λ verified. authorize_identity guard method require (token_identity token verified))

  -- `AdminGuard::authorize`.
  unfoldable pub authorize :
      AdminGuard W Key
      → (method : String) → (bearer : Option String) → Option Requirement
      → Call W GuardError AdminIdentity
  authorize guard method bearer require w =
      if not (is_configured guard.config)
      then (
        err (
            unavailable
              "admin auth guard is not configured (missing IdP base URL, issuer or introspect key)"),
        w,
      )
      else authorize_bearer guard method bearer require w
