-- ===== src/Template/Server.antt =====
-- template/src/infrastructure/server.rs: when the server is told to stop. A future that is polled in
-- a state of the network has come to nothing yet, or to a value.
use maxgame_admin_guard.Base.{String, Bool, true, false, ◌||◌, Option, none, some, Result, ok, err}

-- tokio's signals: the future of `ctrl_c()`, and what `signal(SignalKind::terminate())` returns, a
-- stream with the future of its `recv()`.
pub record Tokio (Net : Type 0) : Type 0 where
  pub ctrl_c : Net → Option (Result String (Unit {0}))
  pub sigterm : Result String (Net → Option (Unit {0}))

abbrev pub resolved {ℓ} : {A : Type ℓ} → Option A → Bool
resolved none = false
resolved (some a) = true

module _ {Net : Type 0} (tokio : Tokio Net) where
  -- The block that awaits `ctrl_c()` and drops what it returns.
  abbrev pub ctrl_c : Net → Bool
  ctrl_c net = resolved (tokio.ctrl_c net)

  -- The block that awaits SIGTERM, and never resolves where the handler cannot be installed.
  abbrev pub terminate : Net → Bool
  terminate net = elim tokio.sigterm [ ok recv ↦ resolved (recv net) | err e ↦ false ]

  -- `select!` resolves as soon as one of the two does.
  unfoldable pub shutdown_signal : Net → Bool
  shutdown_signal net = ctrl_c net || terminate net
