-- ===== src/Template/Boot/Exits.antt =====
-- template/src/main.rs and template/src/infrastructure/server.rs: how the process ends.
use maxgame_admin_guard.Base.{ℕ, String, ◌≡◌, Bool, true, Option, some, List, Result, ok, err}
use maxgame_admin_guard.Json.{Serde}
use maxgame_admin_guard.Introspect.Client as Live
use maxgame_admin_guard.Token.{Crates}
use maxgame_admin_guard.Jwks.{KeyCrates}
use maxgame_admin_guard.Jwks.Client as Keys
use maxgame_admin_guard.Guard.Wiring.{Wired}
use maxgame_admin_guard.Template.{DomainError}
use maxgame_admin_guard.Template.Config.{Config}
use maxgame_admin_guard.Template.Server.{Tokio}
use maxgame_admin_guard.Template.Service.{HttpRequest, Response}
use maxgame_admin_guard.Template.Service.Router.{Route}
use maxgame_admin_guard.Template.Boot.{Failure, failed, panicked, Host, app}
use maxgame_admin_guard.Template.Boot.Laws.{Ending}
use maxgame_admin_guard.Template.Boot.Main.{Exit, with_dotenv}

-- What has told the server to stop: Ctrl-C, a handler for it that cannot be installed, or SIGTERM
-- where its handler could be.
pub data Stopped {Net : Type 0} (tokio : Tokio Net) (net : Net) : Type 0 where
  interrupted : tokio.ctrl_c net ≡ some (ok tt) → Stopped tokio net
  not_listening : (e : String) → tokio.ctrl_c net ≡ some (err e) → Stopped tokio net
  terminated :
      (recv : Net → Option (Unit {0}))
      → tokio.sigterm ≡ ok recv
      → recv net ≡ some tt
      → Stopped tokio net

module _ {Key Net Pool Listener : Type 0} (key_crates : KeyCrates Key) (serde : Serde)
    (crates : Crates Key) (now unix_seconds : Net → ℕ)
    (get : String → ℕ → Net → Option Keys.Reply × Net)
    (post : Live.Request → Net → Option Live.Response × Net)
    (settled : Keys.World Key Net → Keys.World Key Net)
    (dispatch : List Route → String → String → Option Route) (unmatched : HttpRequest → Response)
    (host : Host Key Net Pool Listener) (dotenv : (String → Option String) → String → Option String)
    (graceful : (listener : Listener) (app : HttpRequest → Wired Key Net → Response × Wired Key Net)
        (shutdown : Net → Bool) (w w' : Wired Key Net)
      → host.axum_serve listener app shutdown w ≡ (ok tt, w')
      → shutdown w'.net ≡ true) where
  abbrev pub EndsRun : Net → Result Failure (Unit {0}) → Net → Type 0
  EndsRun =
      Ending key_crates serde crates now unix_seconds get post settled dispatch unmatched
        (with_dotenv host dotenv)

  -- The exit status with how the run ended.
  pub data IsExit (net : Net) (x : Exit Net) : Type 0 where
    success : x.status ≡ 0 → EndsRun net (ok tt) x.net → Stopped host.tokio x.net → IsExit net x
    failure : (e : DomainError) → x.status ≡ 1 → EndsRun net (err (failed e)) x.net → IsExit net x
    panic : x.status ≡ 101 → EndsRun net (err panicked) x.net → IsExit net x
