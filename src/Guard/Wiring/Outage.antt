-- ===== src/Guard/Wiring/Outage.antt =====
-- rust/src/guard.rs: the wired guard while the identity provider does not answer.
use maxgame_admin_guard.Base.{
  ℕ, String, ◌≡◌, ◌≢◌, ap, subst, true, false, Option, none, ok, and_then-eq-ok, inl, inr,
}
use maxgame_admin_guard.Json.{Serde}
use maxgame_admin_guard.Access.{AdminIdentity}
use maxgame_admin_guard.Introspect.{AdminIntrospection, IntrospectionBody}
use maxgame_admin_guard.Introspect.Client as Live
use maxgame_admin_guard.Introspect.Client.Laws.{Answers, fetch_cases}
use maxgame_admin_guard.Token.{Crates}
use maxgame_admin_guard.Jwks.{KeyCrates}
use maxgame_admin_guard.Jwks.Client as Keys
use maxgame_admin_guard.Guard.{
  AdminGuard, token_identity, GuardConfig, Requirement, is_mutating, authorize,
}
use maxgame_admin_guard.Guard.Laws.{IsLive, unchanged, confirmed, authorize_iff}
use maxgame_admin_guard.Guard.Wiring.{Wired, wired_introspect, new_guard}

module _ {Net : Type 0} (serde : Serde) (now : Net → ℕ)
    (post : Live.Request → Net → Option Live.Response × Net)
    (dead : (r : Live.Request) (net : Net) → (post r net).0 ≡ none) where
  dead-fetch :
      (token : String) (w : Live.World Net) (body : IntrospectionBody)
      → (Live.fetch now post token w).0 ≢ ok body
  dead-fetch token w body = elim (fetch_cases now post token w) [
    | inl (refused, same, unanswered) ↦ unanswered body
    | inr (world, answers) ↦ λ h.
        subst (λ o. Answers o body) (dead (Live.request w.client token) w.net) ((answers body).0 h)
  ]

  dead-introspect :
      (token : String) (w : Live.World Net) (v : AdminIntrospection)
      → (Live.introspect now post serde token w).0 ≢ ok v
  unfolding Live.introspect
  dead-introspect token w v = λ h.
      let after = (Live.introspect now post serde token w).1 in
      let (body, between, f, k) =
        and_then-eq-ok (Live.fetch now post token w) _ v after (ap (λ r. (r, after)) h) in
      dead-fetch token w body (ap (λ r. r.0) f)

  module _ {Key : Type 0} (key_crates : KeyCrates Key)
      (get : String → ℕ → Net → Option Keys.Reply × Net)
      (settled : Keys.World Key Net → Keys.World Key Net) (crates : Crates Key)
      (unix_seconds : Wired Key Net → ℕ) where
    -- While the identity provider answers no introspection, no mutation is authorized: whatever the
    -- token and its claims, the state of both clients, and what the key endpoint answers.
    pub mutations_fail_closed :
        (config : GuardConfig) (method : String) (bearer : Option String)
        (require : Option Requirement) (w w' : Wired Key Net) (a : AdminIdentity)
        → is_mutating config method ≡ true
        → authorize crates unix_seconds
            (new_guard key_crates serde now get post settled config)
            method
            bearer
            require
            w
          ≢ (ok a, w')
    mutations_fail_closed config method bearer require w w' a m h =
        let shown = (authorize_iff guard method crates unix_seconds bearer require w a w').0 h in
        not_live shown.required (token_identity shown.token shown.verified) shown.after shown.live
      where
        guard : AdminGuard (Wired Key Net) Key
        guard = new_guard key_crates serde now get post settled config

        verdicts :
            (identity : AdminIdentity) (after : Wired Key Net) (verdict : AdminIntrospection)
            → wired_introspect key_crates serde now get post settled identity.token after
              ≢ (ok verdict, w')
        verdicts identity after verdict = λ asked.
            dead-introspect identity.token
              (record { client = after.introspection; net = after.net }) verdict
              (unfold wired_introspect in ap (λ x. x.0) asked)

        not_live :
            (r : Requirement) (identity : AdminIdentity) (after : Wired Key Net)
            → IsLive guard method r identity after a w'
            → ⊥
        not_live r identity after (unchanged n e q) =
            let read : is_mutating config method ≡ false = unfold new_guard in n in cc (m, read)
        not_live r identity after (confirmed verdict n asked applied passed) =
            verdicts identity after verdict (unfold new_guard in asked)
