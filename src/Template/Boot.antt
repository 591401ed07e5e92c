-- ===== src/Template/Boot.antt =====
-- template/src/main.rs, template/src/infrastructure/server.rs and `AppState::new` of
-- template/src/inbound/mod.rs: the service's start, stage by stage. The process's environment, the
-- database's driver, the listener, axum's server and tokio's signals are parameters; logging is left
-- out, but for the choice of its format.
pub mod Laws
pub mod Main
pub mod Exits
pub mod Outage
use maxgame_admin_guard.Base.{
  ℕ, String, Bool, true, false, Option, none, some, List, Result, ok, err, map_err, ok_or, Call,
  and_then,
}
use maxgame_admin_guard.Base.Text.{◌<>◌, decimal}
use maxgame_admin_guard.Json.{Serde}
use maxgame_admin_guard.Introspect.Client as Live
use maxgame_admin_guard.Token.{Crates}
use maxgame_admin_guard.Jwks.{KeyCrates}
use maxgame_admin_guard.Jwks.Client as Keys
use maxgame_admin_guard.Jwks.Client.{Reply}
use maxgame_admin_guard.Guard.Wiring.{Wired, new_guard, new_world}
use maxgame_admin_guard.Template.{DomainError, internal}
use maxgame_admin_guard.Template.Config.{
  AppEnv, development, staging, production, from_str, Config, EnvSource, system_env, load,
}
use maxgame_admin_guard.Template.Server.{Tokio, shutdown_signal}
use maxgame_admin_guard.Template.Repo.{Postgres, Driver, connect, migrate}
use maxgame_admin_guard.Template.Service.{HttpRequest, Response, guard_config}
use maxgame_admin_guard.Template.Service.Router.{Route, AppState, build_router, serve}

-- `Config::bind_address`.
unfoldable pub bind_address : Config → String
unfolding decimal
bind_address c = c.host <> (":" <> decimal c.port)

unfoldable pub is_production : AppEnv → Bool
is_production development = false
is_production staging = false
is_production production = true

abbrev pub parsed_production : Result DomainError AppEnv → Bool
parsed_production (ok env) = is_production env
parsed_production (err e) = false

abbrev pub is_production_named : Option String → Bool
is_production_named none = false
is_production_named (some value) = parsed_production (from_str value)

-- Whether `main` logs in the production format, of what `std::env::var` answers for APP_ENV.
unfoldable pub production_logs : (String → Option String) → Bool
unfolding from_str is_production
production_logs var = is_production_named (var "APP_ENV")

-- Why `run` does not go on: it returns an error, or it panics.
pub data Failure : Type 0 where
  failed : DomainError → Failure
  panicked : Failure

-- The `?` of `run`.
abbrev pub or_failed : {A Net : Type 0} → Result DomainError A × Net → Result Failure A × Net
or_failed (r, net) = (map_err failed r, net)

-- What a constructor that panics has made, if it has.
abbrev pub or_panic : {A Net : Type 0} → Option A → Net → Result Failure A × Net
or_panic made net = (ok_or made panicked, net)

-- The process's surroundings, over a network `Net` that also holds the database. axum's server takes
-- the future that tells it to stop.
pub record Host (Key Net Pool Listener : Type 0) : Type 0 where
  pub var : String → Option String
  pub driver : Driver Net Pool
  pub rows : Pool → Postgres (Wired Key Net)
  pub new_http : Option (Unit {0})  -- `reqwest::Client::new`, none where it panics
  pub nestable : String → Bool  -- where `Router::nest` does not panic
  pub bind : String → Net → Result String Listener × Net
  pub tokio : Tokio Net
  pub axum_serve :
      Listener
      → (HttpRequest → Wired Key Net → Response × Wired Key Net)
      → (Net → Bool)
      → Wired Key Net
      → Result String (Unit {0}) × Wired Key Net

abbrev pub server_result :
    {Key Net : Type 0}
    → Result String (Unit {0}) × Wired Key Net
    → Result DomainError (Unit {0}) × Net
server_result (r, w) = (map_err (λ e. internal ("server error: " <> e)) r, w.net)

module _ {Key Net Pool Listener : Type 0} (host : Host Key Net Pool Listener) where
  -- The bind of `run`.
  unfoldable pub bind_listener : Config → Call Net DomainError Listener
  unfolding bind_address
  bind_listener config net =
      let (r, net') = host.bind (bind_address config) net in
      (map_err (λ e. internal ("cannot bind " <> bind_address config <> ": " <> e)) r, net')

module _ {Key Net Pool Listener : Type 0} (key_crates : KeyCrates Key) (serde : Serde)
    (crates : Crates Key) (now unix_seconds : Net → ℕ) (get : String → ℕ → Net → Option Reply × Net)
    (post : Live.Request → Net → Option Live.Response × Net)
    (settled : Keys.World Key Net → Keys.World Key Net)
    (dispatch : List Route → String → String → Option Route) (unmatched : HttpRequest → Response)
    (host : Host Key Net Pool Listener) where
  -- `AppState::new`.
  unfoldable pub new_state : Config → Pool → AppState (Wired Key Net) Key
  unfolding new_guard guard_config
  new_state config pool = record {
    config = config;
    db = host.rows pool;
    admin_guard = new_guard key_crates serde now get post settled (guard_config config);
  }

  abbrev pub app :
      Config → Pool → List Route → HttpRequest → Wired Key Net → Response × Wired Key Net
  app config pool routes =
      serve crates (λ w. unix_seconds w.net) (new_state config pool) dispatch unmatched routes

  -- `infrastructure::server::serve`, in the world in which the guard has been made.
  unfoldable pub serve_app :
      Config → Pool → List Route → Listener → (Net → Bool) → Call Net DomainError (Unit {0})
  unfolding new_state
  serve_app config pool routes listener shutdown net = server_result (
      host.axum_serve listener (app config pool routes) shutdown
        (new_world (guard_config config) net))

  -- `run` once the database is migrated.
  abbrev pub start : Config → Pool → Net → Result Failure (Unit {0}) × Net
  start config pool net = and_then (or_panic host.new_http net) (λ http net₁.
      and_then (or_panic (build_router host.nestable config) net₁) (λ routes net₂.
        and_then (or_failed (bind_listener host config net₂)) (λ listener net₃.
          or_failed (serve_app config pool routes listener (shutdown_signal host.tokio) net₃))))

  -- `run`.
  unfoldable pub run : Net → Result Failure (Unit {0}) × Net
  unfolding load system_env connect migrate build_router bind_listener serve_app shutdown_signal
  run net = and_then (or_failed (load (system_env host.var), net)) (λ config net₁.
      and_then
        (or_failed (connect host.driver config.database_url config.database_max_connections, net₁))
        (λ pool net₂.
          and_then (or_failed (migrate host.driver pool net₂))
            (λ migrated net₃. start config pool net₃)))
