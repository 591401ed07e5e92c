-- ===== src/Guard/Blame.antt =====
-- rust/src/guard.rs: whom a refusal blames, over any ports that keep their contract.
use maxgame_admin_guard.Base.{ℕ, String, ◌≡◌, true, false, Option, err, ◌⊎◌, inl, inr}
use maxgame_admin_guard.Error.{GuardError, status}
use maxgame_admin_guard.Token.{Crates}
use maxgame_admin_guard.Guard.{Requirement, AdminGuard, is_mutating, is_configured, authorize}
use maxgame_admin_guard.Guard.Refusals.{
  IsRefused, unconfigured, no_token, rejected, claims, no_verdict, ended, revoked,
  authorize-IsRefused,
}

module _ {W Key : Type 0} (guard : AdminGuard W Key) where
  -- What the traits promise of errors: a key provider blames the token or an outage, and an
  -- introspector an outage.
  pub record KeepsContract : Type 0 where
    pub keys :
        (kid : String) (w w' : W) (e : GuardError)
        → guard.verifier.key_provider.resolve_key kid w ≡ (err e, w')
        → (status e ≡ 401) ⊎ (status e ≡ 503)
    pub verdicts :
        (token : String) (w w' : W) (e : GuardError)
        → guard.introspector.introspect token w ≡ (err e, w')
        → status e ≡ 503

  -- What a refusal says: the token or the session is no good, the grants do not suffice, or
  -- something else is down, and then which.
  pub data Blames (method : String) (w : W) (e : GuardError) (w' : W) : Type 0 where
    credential : status e ≡ 401 → Blames method w e w'
    grants : status e ≡ 403 → Blames method w e w'
    setup : status e ≡ 503 → is_configured guard.config ≡ false → Blames method w e w'
    key_outage :
        (kid : String)
        → status e ≡ 503
        → guard.verifier.key_provider.resolve_key kid w ≡ (err e, w')
        → Blames method w e w'
    verdict_outage :
        (token : String) (after : W)
        → status e ≡ 503
        → is_mutating guard.config method ≡ true
        → guard.introspector.introspect token after ≡ (err e, w')
        → Blames method w e w'

  module _ (contract : KeepsContract) (crates : Crates Key) (unix_seconds : W → ℕ) where
    refused-Blames :
        (method : String) (bearer : Option String) (require : Option Requirement) (w w' : W)
        (e : GuardError)
        → IsRefused crates unix_seconds guard method bearer require w e w'
        → Blames method w e w'
    refused-Blames method bearer require w w' e (unconfigured c s same) = setup s c
    refused-Blames method bearer require w w' e (no_token f b s same) = credential s
    refused-Blames method bearer require w w' e (rejected token f b v why) = elim why [
      | inl s ↦ credential s
      | inr (kid, failed) ↦ elim (contract.keys kid w w' e failed) [
        | inl s ↦ credential s
        | inr s ↦ key_outage kid s failed
      ]
    ]
    refused-Blames method bearer require w w' e (claims token verified f b v c s) = grants s
    refused-Blames method bearer require w w' e (no_verdict token after r p m asked) =
        verdict_outage token after (contract.verdicts token after w' e asked) m asked
    refused-Blames method bearer require w w' e (ended token reason after r p m asked s) =
        credential s
    refused-Blames method bearer require w w' e
          (revoked token id role access after r p m asked f s) =
        grants s

    -- A refusal is never a 500, and is a 503 only if the guard is not configured or a port has failed.
    pub authorize-Blames :
        (method : String) (bearer : Option String) (require : Option Requirement) (w w' : W)
        (e : GuardError)
        → authorize crates unix_seconds guard method bearer require w ≡ (err e, w')
        → Blames method w e w'
    authorize-Blames method bearer require w w' e h =
        refused-Blames method bearer require w w' e
          (authorize-IsRefused crates unix_seconds guard method bearer require w w' e h)
