-- ===== src/Template/Boot/Main.antt =====
-- template/src/main.rs: `main`.
use maxgame_admin_guard.Base.{ℕ, String, Bool, Option, List, Result, ok, err}
use maxgame_admin_guard.Json.{Serde}
use maxgame_admin_guard.Introspect.Client as Live
use maxgame_admin_guard.Token.{Crates}
use maxgame_admin_guard.Jwks.{KeyCrates}
use maxgame_admin_guard.Jwks.Client as Keys
use maxgame_admin_guard.Template.Service.{HttpRequest, Response}
use maxgame_admin_guard.Template.Service.Router.{Route}
use maxgame_admin_guard.Template.Boot.{Failure, failed, panicked, Host, production_logs, run}

-- How the process ends: the format of its logs, its exit status, and the network by then.
pub record Exit (Net : Type 0) : Type 0 where
  pub production : Bool
  pub status : ℕ
  pub net : Net

-- A panic of the main thread ends the process with 101.
abbrev pub exit_status : Result Failure (Unit {0}) → ℕ
exit_status (ok done) = 0
exit_status (err (failed e)) = 1
exit_status (err panicked) = 101

-- The environment after `dotenvy::dotenv()` has added the file's variables.
abbrev pub with_dotenv :
    {Key Net Pool Listener : Type 0}
    → Host Key Net Pool Listener
    → ((String → Option String) → String → Option String)
    → Host Key Net Pool Listener
with_dotenv host dotenv = record host { var = dotenv host.var }

module _ {Key Net Pool Listener : Type 0} (key_crates : KeyCrates Key) (serde : Serde)
    (crates : Crates Key) (now unix_seconds : Net → ℕ)
    (get : String → ℕ → Net → Option Keys.Reply × Net)
    (post : Live.Request → Net → Option Live.Response × Net)
    (settled : Keys.World Key Net → Keys.World Key Net)
    (dispatch : List Route → String → String → Option Route) (unmatched : HttpRequest → Response)
    (host : Host Key Net Pool Listener)
    (dotenv : (String → Option String) → String → Option String) where
  unfoldable pub main : Net → Exit Net
  unfolding production_logs run
  main net =
      let (result, net') =
        run key_crates serde crates now unix_seconds get post settled dispatch unmatched
          (with_dotenv host dotenv) net in
      record {
        production = production_logs (with_dotenv host dotenv).var;
        status = exit_status result;
        net = net';
      }
