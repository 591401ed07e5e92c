-- ===== src/Guard/Wiring/Blame.antt =====
-- rust/src/guard.rs: the wired guard keeps the contract of its ports, whatever their state.
use maxgame_admin_guard.Base.{ℕ, String, ◌≡◌, ap, Option, err, inl, inr, and_then-eq-err}
use maxgame_admin_guard.Error.{GuardError, status}
use maxgame_admin_guard.Json.{Serde}
use maxgame_admin_guard.Introspect.Client as Live
use maxgame_admin_guard.Introspect.Client.Laws.{fetch-unavailable}
use maxgame_admin_guard.Token.{Crates}
use maxgame_admin_guard.Jwks.{KeyCrates}
use maxgame_admin_guard.Jwks.Client as Keys
use maxgame_admin_guard.Jwks.Client.Statuses.{resolve_key-Blames}
use maxgame_admin_guard.Guard.{GuardConfig, Requirement, authorize}
use maxgame_admin_guard.Guard.Blame.{KeepsContract, Blames, authorize-Blames}
use maxgame_admin_guard.Guard.Wiring.{Wired, wired_resolve, wired_introspect, new_guard}

module _ {Key Net : Type 0} (key_crates : KeyCrates Key) (serde : Serde) (now : Net → ℕ)
    (send : String → ℕ → Net → Option Keys.Reply × Net)
    (post : Live.Request → Net → Option Live.Response × Net)
    (settled : Keys.World Key Net → Keys.World Key Net) (config : GuardConfig) where
  introspect-unavailable :
      (token : String) (w : Live.World Net) (e : GuardError)
      → (Live.introspect now post serde token w).0 ≡ err e
      → status e ≡ 503
  unfolding Live.introspect
  introspect-unavailable token w e h =
      let after = (Live.introspect now post serde token w).1 in
      elim (and_then-eq-err (Live.fetch now post token w) _ e after (ap (λ r. (r, after)) h)) [
        | inl failed ↦ fetch-unavailable now post token w e (ap (λ x. x.0) failed)
        | inr (body, between, f, k) ↦ cc
      ]

  new_guard-KeepsContract : KeepsContract (new_guard key_crates serde now send post settled config)
  unfolding new_guard wired_resolve wired_introspect
  new_guard-KeepsContract = record {
    keys = λ kid w w' e h.
        resolve_key-Blames key_crates now send settled kid (record { client = w.jwks; net = w.net })
          e (ap (λ x. x.0) h);
    verdicts = λ token w w' e h.
        introspect-unavailable token (record { client = w.introspection; net = w.net }) e
          (ap (λ x. x.0) h);
  }

  -- Every refusal by the guard over its real clients blames the right party, whatever their state
  -- and that of the network: a 401 or a 403 says that the credential or the grants are no good, and
  -- a 503 that the guard is not configured, that no key could be had, or, on a mutation, that no
  -- verdict could; there is no 500.
  pub new_guard-Blames :
      (crates : Crates Key) (unix_seconds : Wired Key Net → ℕ) (method : String)
      (bearer : Option String) (require : Option Requirement) (w w' : Wired Key Net)
      (e : GuardError)
      → authorize crates unix_seconds
          (new_guard key_crates serde now send post settled config)
          method
          bearer
          require
          w
        ≡ (err e, w')
      → Blames (new_guard key_crates serde now send post settled config) method w e w'
  new_guard-Blames crates unix_seconds method bearer require w w' e h =
      authorize-Blames (new_guard key_crates serde now send post settled config)
        new_guard-KeepsContract crates unix_seconds method bearer require w w' e h
