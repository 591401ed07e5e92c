-- ===== src/Guard/Laws.antt =====
-- rust/src/guard.rs: which requests `authorize` lets through, and what it asks on the way.
use maxgame_admin_guard.Base.{
  ℕ, String, ◌≡◌, ◌↔◌, inl, inr, refl, ap, ◌∙◌, subst, Bool, true, false, Option, none, some, ok,
  err, and_then, >>=-eq-ok, and_then-eq-ok, arith, Bool-cases,
}
use maxgame_admin_guard.Error.{GuardResult}
use maxgame_admin_guard.Access.{AdminIdentity, has_feature}
use maxgame_admin_guard.Access.Laws.{has_feature-implies}
use maxgame_admin_guard.Introspect.{AdminIntrospection}
use maxgame_admin_guard.Token.{VerifiedAdminToken, Crates, verify}
use maxgame_admin_guard.Guard.{
  Requirement, AdminGuard, is_mutating, is_configured, check_access, token_identity, apply_verdict,
  recheck, check_live, after_claims, authorize_identity, authorize_bearer, authorize,
}

-- `check_access` passes exactly where the feature is granted: the check for any access never
-- refuses what the feature check would allow.
pub check_access_iff :
    (a : AdminIdentity) (r : Requirement)
    → (check_access a r ≡ ok tt) ↔ (has_feature a r.site r.feature ≡ true)
unfolding check_access
check_access_iff a r = ground (arith, has_feature-implies a r.site r.feature)

module _ {W Key : Type 0} (guard : AdminGuard W Key) (method : String) where
  -- What a mutation has shown of the live verdict; another method shows nothing more.
  pub data IsLive (r : Requirement) (identity : AdminIdentity) (w : W) (a : AdminIdentity) (w' : W)
      : Type 0 where
    unchanged :
        is_mutating guard.config method ≡ false → a ≡ identity → w' ≡ w → IsLive r identity w a w'
    confirmed :
        (verdict : AdminIntrospection)
        → is_mutating guard.config method ≡ true
        → guard.introspector.introspect identity.token w ≡ (ok verdict, w')
        → apply_verdict identity verdict ≡ ok a
        → check_access a r ≡ ok tt
        → IsLive r identity w a w'

  recheck-ok :
      (identity : AdminIdentity) (r : Requirement) (v : AdminIntrospection) (a : AdminIdentity)
      → recheck identity r v ≡ ok a
      → (apply_verdict identity v ≡ ok a) × (check_access a r ≡ ok tt)
  unfolding recheck
  recheck-ok identity r v a h =
      let (live, applied, h₁) = >>=-eq-ok (apply_verdict identity v) _ h in
      let (u, checked, h₂) = >>=-eq-ok (check_access live r) _ h₁ in
      let same : live ≡ a = cc h₂ in
      (applied ∙ ap ok same, subst (λ x. check_access x r ≡ ok tt) same checked)

  check_live_iff :
      (identity : AdminIdentity) (r : Requirement) (w w' : W) (a : AdminIdentity)
      → (check_live guard method identity r w ≡ (ok a, w')) ↔ IsLive r identity w a w'
  unfolding check_live
  check_live_iff identity r w w' a = (there, back)
    where
      live :
          is_mutating guard.config method ≡ true
          → and_then
              (guard.introspector.introspect identity.token w)
              (λ verdict w''. (recheck identity r verdict, w''))
            ≡ (ok a, w')
          → IsLive r identity w a w'
      live m h =
          let (verdict, w'', asked, checked) =
            and_then-eq-ok (guard.introspector.introspect identity.token w) _ a w' h in
          let (applied, passed) = recheck-ok identity r verdict a (cc checked) in
          let same : w'' ≡ w' = cc checked in
          confirmed verdict m (asked ∙ ap (λ (x : W). (ok verdict, x)) same) applied passed

      there : check_live guard method identity r w ≡ (ok a, w') → IsLive r identity w a w'
      there h = elim (Bool-cases (is_mutating guard.config method)) [
        | inl m ↦ live m (rw m at h)
        | inr n ↦ unchanged n (ground arith) (ground arith)
      ]

      back : IsLive r identity w a w' → check_live guard method identity r w ≡ (ok a, w')
      back (unchanged n e q) = ground arith
      back (confirmed verdict m asked applied passed) =
          rw (m, asked) (unfold recheck in rw (applied, passed))

  module _ (crates : Crates Key) (unix_seconds : W → ℕ) where
    -- All that an authorized request has shown: a configured guard, a bearer token that verifies, a
    -- requirement that the token's own claims meet, and, on a mutation, a live verdict whose grants
    -- meet it too and make up the identity.
    pub record IsAuthorized (bearer : Option String) (require : Option Requirement) (w : W)
        (a : AdminIdentity) (w' : W) : Type 0 where
      pub configured : is_configured guard.config ≡ true
      pub token : String
      pub has_token : bearer ≡ some token
      pub verified : VerifiedAdminToken
      pub after : W
      pub verifies : verify crates unix_seconds guard.verifier token w ≡ (ok verified, after)
      pub required : Requirement
      pub has_requirement : require ≡ some required
      pub claims_suffice : check_access (token_identity token verified) required ≡ ok tt
      pub live : IsLive required (token_identity token verified) after a w'

    -- A request is authorized, as an admin, exactly if it has shown all of this.
    pub authorize_iff :
        (bearer : Option String) (require : Option Requirement) (w : W) (a : AdminIdentity) (w' : W)
        → (authorize crates unix_seconds guard method bearer require w ≡ (ok a, w'))
          ↔ IsAuthorized bearer require w a w'
    unfolding authorize authorize_identity
    authorize_iff bearer require w a w' =
        (there (is_configured guard.config) refl, back bearer require)
      where
        claims :
            (identity : AdminIdentity) (r : Requirement) (v : W) (c : GuardResult (Unit {0}))
            → after_claims guard method identity r c v ≡ (ok a, w')
            → (c ≡ ok tt) × IsLive r identity v a w'
        claims identity r v (ok u) h = (refl, (check_live_iff identity r v w' a).0 h)
        claims identity r v (err e) h = cc

        bearing :
            (b : Option String) (q : Option Requirement)
            → is_configured guard.config ≡ true
            → authorize_bearer crates unix_seconds guard method b q w ≡ (ok a, w')
            → IsAuthorized b q w a w'
        bearing none q c h = cc
        bearing (some token) none c h =
            let (verified, after, verifies, h₁) =
              and_then-eq-ok (verify crates unix_seconds guard.verifier token w) _ a w' h in
            cc h₁
        bearing (some token) (some r) c h =
            let (verified, after, verifies, h₁) =
              and_then-eq-ok (verify crates unix_seconds guard.verifier token w) _ a w' h in
            let (suffice, live) =
              claims (token_identity token verified) r after
                (check_access (token_identity token verified) r) h₁ in
            record {
              configured = c;
              token = token;
              has_token = refl;
              verified = verified;
              after = after;
              verifies = verifies;
              required = r;
              has_requirement = refl;
              claims_suffice = suffice;
              live = live;
            }

        there :
            (c : Bool)
            → is_configured guard.config ≡ c
            → authorize crates unix_seconds guard method bearer require w ≡ (ok a, w')
            → IsAuthorized bearer require w a w'
        there false e h = ground arith
        there true e h = bearing bearer require e (rw e at h)

        back :
            (b : Option String) (q : Option Requirement)
            → IsAuthorized b q w a w'
            → authorize crates unix_seconds guard method b q w ≡ (ok a, w')
        back b q d =
            rw (d.configured, d.has_token, d.has_requirement, d.verifies, d.claims_suffice)
              ((check_live_iff (token_identity d.token d.verified) d.required d.after w' a).1
                d.live)
