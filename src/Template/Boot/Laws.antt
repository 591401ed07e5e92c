-- ===== src/Template/Boot/Laws.antt =====
-- template/src/main.rs: every way in which the start ends, and what has been done by then.
use maxgame_admin_guard.Base.{
  ℕ, String, ◌≡◌, refl, sym, ap, ◌∙◌, subst, ◌⊎◌, inl, inr, true, Option, none, some, List, Result,
  ok, err, map_err, and_then,
}
use maxgame_admin_guard.Base.Text.{◌<>◌}
use maxgame_admin_guard.Json.{Serde}
use maxgame_admin_guard.Introspect.Client as Live
use maxgame_admin_guard.Token.{Crates}
use maxgame_admin_guard.Jwks.{KeyCrates}
use maxgame_admin_guard.Jwks.Client as Keys
use maxgame_admin_guard.Jwks.Client.{Reply}
use maxgame_admin_guard.Guard.{is_configured}
use maxgame_admin_guard.Template.{DomainError, DomainResult, internal}
use maxgame_admin_guard.Template.Config.{Config, system_env, load}
use maxgame_admin_guard.Template.Config.Laws.{IsValid, load-IsValid}
use maxgame_admin_guard.Template.Server.{shutdown_signal}
use maxgame_admin_guard.Template.Repo.{acquire_timeout, connect, migrate}
use maxgame_admin_guard.Template.Service.{HttpRequest, Response, guard_config}
use maxgame_admin_guard.Template.Service.Router.{Route, build_router}
use maxgame_admin_guard.Template.Service.Startup.{load-is_configured}
use maxgame_admin_guard.Template.Boot.{
  Failure, failed, panicked, or_failed, or_panic, Host, bind_address, serve_app, bind_listener,
  start, run,
}

module _ {Key Net Pool Listener : Type 0} (key_crates : KeyCrates Key) (serde : Serde)
    (crates : Crates Key) (now unix_seconds : Net → ℕ) (get : String → ℕ → Net → Option Reply × Net)
    (post : Live.Request → Net → Option Live.Response × Net)
    (settled : Keys.World Key Net → Keys.World Key Net)
    (dispatch : List Route → String → String → Option Route) (unmatched : HttpRequest → Response)
    (host : Host Key Net Pool Listener) where
  abbrev pub serving :
      Config → Pool → List Route → Listener → Net → Result DomainError (Unit {0}) × Net
  serving config pool routes listener net =
      serve_app key_crates serde crates now unix_seconds get post settled dispatch unmatched host
        config pool routes listener (shutdown_signal host.tokio) net

  abbrev starting : Config → Pool → Net → Result Failure (Unit {0}) × Net
  starting = start key_crates serde crates now unix_seconds get post settled dispatch unmatched host

  -- The database is migrated, with a configuration that loads.
  pub record Migrated (net : Net) (c : Config) (pool : Pool) (migrated : Net) : Type 0 where
    pub loads : load (system_env host.var) ≡ ok c
    pub connects :
        host.driver.connect_lazy c.database_url c.database_max_connections acquire_timeout ≡ ok pool
    pub migrates : host.driver.run_migrations pool net ≡ (ok tt, migrated)

  -- How the start from `net` ends, with which result and in which network.
  pub data Ending (net : Net) (result : Result Failure (Unit {0})) (net' : Net) : Type 0 where
    bad_config :
        (e : DomainError)
        → load (system_env host.var) ≡ err e
        → result ≡ err (failed e)
        → net' ≡ net
        → Ending net result net'
    bad_pool :
        (c : Config) (text : String)
        → load (system_env host.var) ≡ ok c
        → host.driver.connect_lazy c.database_url c.database_max_connections acquire_timeout
          ≡ err text
        → result ≡ err (failed (internal ("cannot configure database pool: " <> text)))
        → net' ≡ net
        → Ending net result net'
    not_migrated :
        (c : Config) (pool : Pool) (text : String)
        → load (system_env host.var) ≡ ok c
        → host.driver.connect_lazy c.database_url c.database_max_connections acquire_timeout
          ≡ ok pool
        → host.driver.run_migrations pool net ≡ (err text, net')
        → result ≡ err (failed (internal ("migration failed: " <> text)))
        → Ending net result net'
    no_router :
        (c : Config) (pool : Pool)
        → Migrated net c pool net'
        → (host.new_http ≡ none) ⊎ (build_router host.nestable c ≡ none)
        → result ≡ err panicked
        → Ending net result net'
    not_bound :
        (c : Config) (pool : Pool) (migrated : Net) (text : String)
        → Migrated net c pool migrated
        → host.bind (bind_address c) migrated ≡ (err text, net')
        → result ≡ err (failed (internal ("cannot bind " <> bind_address c <> ": " <> text)))
        → Ending net result net'
    served :
        (c : Config) (pool : Pool) (routes : List Route) (listener : Listener)
        (migrated bound : Net)
        → Migrated net c pool migrated
        → IsValid c
        → is_configured (guard_config c) ≡ true
        → build_router host.nestable c ≡ some routes
        → host.bind (bind_address c) migrated ≡ (ok listener, bound)
        → or_failed (serving c pool routes listener bound) ≡ (result, net')
        → Ending net result net'

  module _ (net net' : Net) (result : Result Failure (Unit {0})) where
    left :
        {a b : Result Failure (Unit {0})} {n m : Net}
        → ◌≡◌ {A = Result Failure (Unit {0}) × Net} (a, n) (b, m)
        → b ≡ a
    left h = sym (ap (λ (x : Result Failure (Unit {0}) × Net). x.0) h)

    right :
        {a b : Result Failure (Unit {0})} {n m : Net}
        → ◌≡◌ {A = Result Failure (Unit {0}) × Net} (a, n) (b, m)
        → m ≡ n
    right h = sym (ap (λ (x : Result Failure (Unit {0}) × Net). x.1) h)

    -- Each stage, of what its call returns.
    after_bind :
        (c : Config) (pool : Pool) (routes : List Route) (migrated : Net)
        → Migrated net c pool migrated
        → build_router host.nestable c ≡ some routes
        → (r : Result String Listener × Net) → host.bind (bind_address c) migrated ≡ r
        → and_then
            (or_failed
              (map_err (λ e. internal ("cannot bind " <> bind_address c <> ": " <> e)) r.0, r.1))
            (λ listener n. or_failed (serving c pool routes listener n))
          ≡ (result, net')
        → Ending net result net'
    after_bind c pool routes migrated m k (err text, bound) b h =
        not_bound c pool migrated text m (b ∙ ap (λ n. (err text, n)) (sym (right h))) (left h)
    after_bind c pool routes migrated m k (ok listener, bound) b h =
        served c pool routes listener migrated bound m
          (load-IsValid (system_env host.var) c m.loads).0 (load-is_configured host.var c m.loads) k
          b h

    after_build :
        (c : Config) (pool : Pool) (migrated : Net)
        → Migrated net c pool migrated
        → (o : Option (List Route)) → build_router host.nestable c ≡ o
        → and_then (or_panic o migrated) (λ routes n.
          and_then
            (or_failed (bind_listener host c n))
            (λ listener n'. or_failed (serving c pool routes listener n')))
          ≡ (result, net')
        → Ending net result net'
    unfolding bind_listener
    after_build c pool migrated m none k h =
        no_router c pool (subst (Migrated net c pool) (sym (right h)) m) (inr k) (left h)
    after_build c pool migrated m (some routes) k h =
        after_bind c pool routes migrated m k (host.bind (bind_address c) migrated) refl h

    after_http :
        (c : Config) (pool : Pool) (migrated : Net)
        → Migrated net c pool migrated
        → (o : Option (Unit {0})) → host.new_http ≡ o
        → and_then (or_panic o migrated) (λ http n.
          and_then (or_panic (build_router host.nestable c) n) (λ routes n'.
            and_then
              (or_failed (bind_listener host c n'))
              (λ listener n''. or_failed (serving c pool routes listener n''))))
          ≡ (result, net')
        → Ending net result net'
    after_http c pool migrated m none k h =
        no_router c pool (subst (Migrated net c pool) (sym (right h)) m) (inl k) (left h)
    after_http c pool migrated m (some http) k h =
        after_build c pool migrated m (build_router host.nestable c) refl h

    after_migrate :
        (c : Config) (pool : Pool)
        → load (system_env host.var) ≡ ok c
        → host.driver.connect_lazy c.database_url c.database_max_connections acquire_timeout
          ≡ ok pool
        → (r : Result String (Unit {0}) × Net) → host.driver.run_migrations pool net ≡ r
        → and_then
            (or_failed (map_err (λ e. internal ("migration failed: " <> e)) r.0, r.1))
            (λ done n. starting c pool n)
          ≡ (result, net')
        → Ending net result net'
    after_migrate c pool l p (err text, migrated) m h =
        not_migrated c pool text l p (m ∙ ap (λ n. (err text, n)) (sym (right h))) (left h)
    after_migrate c pool l p (ok done, migrated) m h =
        after_http c pool migrated (record { loads = l; connects = p; migrates = m }) host.new_http
          refl h

    after_connect :
        (c : Config)
        → load (system_env host.var) ≡ ok c
        → (r : Result String Pool)
        → host.driver.connect_lazy c.database_url c.database_max_connections acquire_timeout ≡ r
        → and_then
            (or_failed (map_err (λ e. internal ("cannot configure database pool: " <> e)) r, net))
            (λ pool n.
              and_then (or_failed (migrate host.driver pool n)) (λ done n'. starting c pool n'))
          ≡ (result, net')
        → Ending net result net'
    unfolding migrate
    after_connect c l (err text) p h = bad_pool c text l p (left h) (right h)
    after_connect c l (ok pool) p h =
        after_migrate c pool l p (host.driver.run_migrations pool net) refl h

    after_load :
        (r : DomainResult Config)
        → load (system_env host.var) ≡ r
        → and_then (or_failed (r, net)) (λ c n₁.
          and_then
            (or_failed (connect host.driver c.database_url c.database_max_connections, n₁))
            (λ pool n.
              and_then (or_failed (migrate host.driver pool n)) (λ done n'. starting c pool n')))
          ≡ (result, net')
        → Ending net result net'
    unfolding connect
    after_load (err e) l h = bad_config e l (left h) (right h)
    after_load (ok c) l h =
        after_connect c l
          (host.driver.connect_lazy c.database_url c.database_max_connections acquire_timeout) refl
          h

    -- However the start ends, it ends in one of six ways: a configuration that does not load and
    -- a pool that cannot be made leave the network untouched, a migration that fails comes before
    -- the router is built, which may panic before the listener is bound, and requests are served
    -- only with a valid configuration whose guard is configured, after the migrations, at the
    -- configuration's address. Each error is passed on with the message of its stage.
    pub run-Ending :
        run key_crates serde crates now unix_seconds get post settled dispatch unmatched host net
          ≡ (result, net')
        → Ending net result net'
    unfolding run
    run-Ending h = after_load (load (system_env host.var)) refl h
