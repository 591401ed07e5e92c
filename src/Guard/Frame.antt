-- ===== src/Guard/Frame.antt =====
-- rust/src/guard.rs: what a request may change of the world.
use maxgame_admin_guard.Base.{
  ℕ, String, Option, none, some, Result, ok, err, Call, and_then, Bool-cases, inl, inr,
}
use maxgame_admin_guard.Error.{GuardResult}
use maxgame_admin_guard.Access.{AdminIdentity}
use maxgame_admin_guard.Token.{Crates, open_header, resolve_and_check, verify}
use maxgame_admin_guard.Guard.{
  Requirement, AdminGuard, is_mutating, is_configured, token_identity, check_access, after_claims,
  check_live, authorize_identity, authorize_bearer, authorize,
}

and_then-keeps :
    {W E A B : Type 0} (P : W → Type 0) (r : Result E A × W) (k : A → Call W E B)
    → P r.1
    → ((a : A) (w : W) → P w → P (k a w).1)
    → P (and_then r k).1
and_then-keeps P (ok a, w) k p h = h a w p
and_then-keeps P (err e, w) k p h = p

module _ {W Key : Type 0} (crates : Crates Key) (unix_seconds : W → ℕ) (guard : AdminGuard W Key)
    (P : W → Type 0)
    (resolves : (kid : String) (w : W) → P w → P (guard.verifier.key_provider.resolve_key kid w).1)
    (asks : (token : String) (w : W) → P w → P (guard.introspector.introspect token w).1) where
  verify-keeps :
      (token : String) (w : W) → P w → P (verify crates unix_seconds guard.verifier token w).1
  unfolding verify
  verify-keeps token w p = opened (open_header crates token)
    where
      opened :
          (o : GuardResult ((String × String × String) × String))
          → P (resolve_and_check crates unix_seconds guard.verifier o w).1
      opened (err e) = p
      opened (ok (parts, kid)) =
          and_then-keeps P (guard.verifier.key_provider.resolve_key kid w) _ (resolves kid w p)
            (λ key v q. q)

  module _ (method : String) where
    check_live-keeps :
        (identity : AdminIdentity) (r : Requirement) (w : W)
        → P w
        → P (check_live guard method identity r w).1
    unfolding check_live
    check_live-keeps identity r w p = elim (Bool-cases (is_mutating guard.config method)) [
      | inl m ↦ rw m (
          and_then-keeps P (guard.introspector.introspect identity.token w) _
            (asks identity.token w p) (λ verdict v q. q))
      | inr n ↦ rw n p
    ]

    after_claims-keeps :
        (identity : AdminIdentity) (r : Requirement) (c : GuardResult (Unit {0})) (w : W)
        → P w
        → P (after_claims guard method identity r c w).1
    after_claims-keeps identity r (ok u) w p = check_live-keeps identity r w p
    after_claims-keeps identity r (err e) w p = p

    authorize_identity-keeps :
        (q : Option Requirement) (identity : AdminIdentity) (w : W)
        → P w
        → P (authorize_identity guard method q identity w).1
    unfolding authorize_identity
    authorize_identity-keeps none identity w p = p
    authorize_identity-keeps (some r) identity w p =
        after_claims-keeps identity r (check_access identity r) w p

    -- A request changes the world only through its two ports: whatever a key lookup and an
    -- introspection keep, a request keeps, on every path.
    pub authorize-keeps :
        (bearer : Option String) (require : Option Requirement) (w : W)
        → P w
        → P (authorize crates unix_seconds guard method bearer require w).1
    unfolding authorize
    authorize-keeps bearer require w p = elim (Bool-cases (is_configured guard.config)) [
      | inl c ↦ rw c (bearing bearer)
      | inr n ↦ rw n p
    ]
      where
        bearing :
            (b : Option String)
            → P (authorize_bearer crates unix_seconds guard method b require w).1
        bearing none = p
        bearing (some token) =
            and_then-keeps P (verify crates unix_seconds guard.verifier token w) _
              (verify-keeps token w p)
              (λ verified v q. authorize_identity-keeps require (token_identity token verified) v q)
