-- ===== src/Guard/Wiring.antt =====
-- rust/src/guard.rs: `AdminGuard::new`, the guard over the two real clients and one network.
pub mod Outage
pub mod Success
pub mod Reads
pub mod Blame
use maxgame_admin_guard.Base.{ℕ, String, Option, none, some, Result, ok, err, Call}
use maxgame_admin_guard.Base.Int.{ℤ}
use maxgame_admin_guard.Error.{GuardError}
use maxgame_admin_guard.Json.{Serde}
use maxgame_admin_guard.Introspect.{AdminIntrospection, AdminIntrospector}
use maxgame_admin_guard.Introspect.Client as Live
use maxgame_admin_guard.Introspect.Client.{AdminIntrospectClient}
use maxgame_admin_guard.Token.{JwksKeyProvider, new_verifier}
use maxgame_admin_guard.Jwks.{KeyCrates, new_config}
use maxgame_admin_guard.Jwks.Client as Keys
use maxgame_admin_guard.Jwks.Client.{AdminJwksClient, Reply}
use maxgame_admin_guard.Guard.{GuardConfig, AdminGuard, with_ports}

-- What the guard's calls change: its two clients, and the network.
pub record Wired (Key Net : Type 0) : Type 0 where
  pub jwks : AdminJwksClient Key
  pub introspection : AdminIntrospectClient
  pub net : Net

-- The client that `new` builds for live introspection, and the one for the keys.
unfoldable pub introspect_client : GuardConfig → AdminIntrospectClient
introspect_client config =
    Live.with_breaker
      (Live.with_timeout
        (Live.with_header_name (Live.new config.introspect_url config.introspect_api_key)
          config.introspect_header)
        config.http_timeout)
      config.breaker_failure_threshold config.breaker_open

unfoldable pub jwks_client : {Key : Type 0} → GuardConfig → AdminJwksClient Key
jwks_client config = Keys.new (new_config config.jwks_url)

-- The world in which a new guard takes its first request.
abbrev pub new_world : {Key Net : Type 0} → GuardConfig → Net → Wired Key Net
new_world config net = record {
  jwks = jwks_client config;
  introspection = introspect_client config;
  net = net;
}

module _ {Key Net : Type 0} (crates : KeyCrates Key) (serde : Serde) (now : Net → ℕ)
    (get : String → ℕ → Net → Option Reply × Net)
    (post : Live.Request → Net → Option Live.Response × Net)
    (settled : Keys.World Key Net → Keys.World Key Net) where
  unfoldable pub wired_resolve : String → Call (Wired Key Net) GuardError Key
  wired_resolve kid w =
      let (answer, v) =
        Keys.resolve_key crates now get settled kid (record { client = w.jwks; net = w.net }) in
      (answer, record w { jwks = v.client; net = v.net })

  unfoldable pub wired_introspect : String → Call (Wired Key Net) GuardError AdminIntrospection
  wired_introspect token w =
      let (answer, v) =
        Live.introspect now post serde token (record { client = w.introspection; net = w.net }) in
      (answer, record w { introspection = v.client; net = v.net })

  unfoldable pub wired_introspect_with_step_up :
      String → Call (Wired Key Net) GuardError (AdminIntrospection × Option ℤ)
  wired_introspect_with_step_up token w =
      let (answer, v) =
        Live.introspect_with_step_up now post serde token
          (record { client = w.introspection; net = w.net }) in
      (answer, record w { introspection = v.client; net = v.net })

  -- `AdminGuard::new`.
  unfoldable pub new_guard : GuardConfig → AdminGuard (Wired Key Net) Key
  new_guard config =
      with_ports config (new_verifier (record { resolve_key = wired_resolve }) config.issuer)
        (record {
          introspect = wired_introspect;
          introspect_with_step_up = wired_introspect_with_step_up;
        })
