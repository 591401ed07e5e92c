-- ===== src/Guard/Refusals.antt =====
-- rust/src/guard.rs: why a request is refused, in the order of the checks.
use maxgame_admin_guard.Base.{
  String, ◌≡◌, refl, ap, ◌∙◌, sym, Bool, true, false, Option, none, some, ok, err, and_then,
  and_then-eq-err, arith, Bool-cases, ◌⊎◌, inl, inr, ℕ,
}
use maxgame_admin_guard.Error.{GuardError, GuardResult, status}
use maxgame_admin_guard.Access.{AdminIdentity, SiteAccess, has_feature}
use maxgame_admin_guard.Introspect.{AdminIntrospection, active, inactive}
use maxgame_admin_guard.Token.{VerifiedAdminToken, Crates, verify}
use maxgame_admin_guard.Token.Verify.{verify-rejects}
use maxgame_admin_guard.Guard.{
  Requirement, AdminGuard, is_mutating, is_configured, token_identity, apply_verdict, recheck,
  check_live, authorize_identity, authorize_bearer, authorize,
}
use maxgame_admin_guard.Guard.Laws.{check_access_iff}
use maxgame_admin_guard.Guard.Order.{
  claims_error, claims_error-403, check_access-refuses, ClaimsRefuse,
}

-- The identity of an active verdict.
abbrev pub live_identity : String → String → String → SiteAccess → AdminIdentity
live_identity token id role access = record {
  admin_id = id;
  role = role;
  site_access = access;
  token = token;
}

module _ {W Key : Type 0} (crates : Crates Key) (unix_seconds : W → ℕ) (guard : AdminGuard W Key)
    (method : String) where
  -- The guard is configured, the bearer token verified, and its own claims meet the requirement.
  pub record HasPassed (bearer : Option String) (require : Option Requirement) (w : W)
      (token : String) (after : W) (r : Requirement) : Type 0 where
    pub configured : is_configured guard.config ≡ true
    pub has_token : bearer ≡ some token
    pub verified : VerifiedAdminToken
    pub verifies : verify crates unix_seconds guard.verifier token w ≡ (ok verified, after)
    pub has_requirement : require ≡ some r
    pub suffices : has_feature (token_identity token verified) r.site r.feature ≡ true

  -- Verification's own refusal is a 401; any other is the key provider's error.
  abbrev IsRejection : W → GuardError → W → Type 0
  IsRejection w e w' =
      (status e ≡ 401)
      ⊎ ((kid : String) × (guard.verifier.key_provider.resolve_key kid w ≡ (err e, w')))

  -- Where a request stops, with which status, and in which world.
  pub data IsRefused (bearer : Option String) (require : Option Requirement) (w : W)
      (e : GuardError) (w' : W) : Type 0 where
    unconfigured :
        is_configured guard.config ≡ false
        → status e ≡ 503
        → w' ≡ w
        → IsRefused bearer require w e w'
    no_token :
        is_configured guard.config ≡ true
        → bearer ≡ none
        → status e ≡ 401
        → w' ≡ w
        → IsRefused bearer require w e w'
    rejected :
        (token : String)
        → is_configured guard.config ≡ true
        → bearer ≡ some token
        → verify crates unix_seconds guard.verifier token w ≡ (err e, w')
        → IsRejection w e w'
        → IsRefused bearer require w e w'
    claims :
        (token : String) (verified : VerifiedAdminToken)
        → is_configured guard.config ≡ true
        → bearer ≡ some token
        → verify crates unix_seconds guard.verifier token w ≡ (ok verified, w')
        → ClaimsRefuse (token_identity token verified) require
        → status e ≡ 403
        → IsRefused bearer require w e w'
    no_verdict :
        (token : String) (after : W) (r : Requirement)
        → HasPassed bearer require w token after r
        → is_mutating guard.config method ≡ true
        → guard.introspector.introspect token after ≡ (err e, w')
        → IsRefused bearer require w e w'
    ended :
        (token reason : String) (after : W) (r : Requirement)
        → HasPassed bearer require w token after r
        → is_mutating guard.config method ≡ true
        → guard.introspector.introspect token after ≡ (ok (inactive reason), w')
        → status e ≡ 401
        → IsRefused bearer require w e w'
    revoked :
        (token id role : String) (access : SiteAccess) (after : W) (r : Requirement)
        → HasPassed bearer require w token after r
        → is_mutating guard.config method ≡ true
        → guard.introspector.introspect token after ≡ (ok (active id role access), w')
        → has_feature (live_identity token id role access) r.site r.feature ≡ false
        → status e ≡ 403
        → IsRefused bearer require w e w'

  recheck-IsRefused :
      {bearer : Option String} {require : Option Requirement} {w : W} (token : String) (after : W)
      (r : Requirement) (verified : VerifiedAdminToken) (verdict : AdminIntrospection)
      (e : GuardError) (w' : W)
      → HasPassed bearer require w token after r
      → is_mutating guard.config method ≡ true
      → guard.introspector.introspect token after ≡ (ok verdict, w')
      → recheck (token_identity token verified) r verdict ≡ err e
      → IsRefused bearer require w e w'
  unfolding recheck apply_verdict
  recheck-IsRefused token after r verified (inactive reason) e w' p m asked h =
      ended token reason after r p m asked (unfold status in ground arith)
  recheck-IsRefused token after r verified (active id role access) e w' p m asked h =
      elim (Bool-cases (has_feature live r.site r.feature)) [
        | inl allowed ↦ cc (h, (check_access_iff live r).1 allowed)
        | inr denied ↦ revoked token id role access after r p m asked denied (denied-403 denied)
      ]
    where
      live : AdminIdentity
      live = live_identity token id role access

      denied-403 : has_feature live r.site r.feature ≡ false → status e ≡ 403
      denied-403 denied =
          ap status (cc (h, check_access-refuses live r denied)) ∙ claims_error-403 live (some r)

  live-IsRefused :
      {bearer : Option String} {require : Option Requirement} {w : W} (token : String) (after : W)
      (r : Requirement) (verified : VerifiedAdminToken) (e : GuardError) (w' : W)
      → HasPassed bearer require w token after r
      → check_live guard method (token_identity token verified) r after ≡ (err e, w')
      → IsRefused bearer require w e w'
  unfolding check_live
  live-IsRefused {bearer} {require} {w} token after r verified e w' p h =
      elim (Bool-cases (is_mutating guard.config method)) [
        | inl m ↦ mutating m (rw m at h)
        | inr n ↦ cc (rw n at h)
      ]
    where
      mutating :
          is_mutating guard.config method ≡ true
          → and_then
              (guard.introspector.introspect token after)
              (λ verdict v. (recheck (token_identity token verified) r verdict, v))
            ≡ (err e, w')
          → IsRefused bearer require w e w'
      mutating m k = elim (and_then-eq-err (guard.introspector.introspect token after) _ e w' k) [
        | inl failed ↦ no_verdict token after r p m failed
        | inr (verdict, v, asked, checked) ↦
            recheck-IsRefused token after r verified verdict e w' p m
              (asked ∙ ap (λ (x : W). (ok verdict, x)) (cc checked)) (cc checked)
      ]

  abbrev answer : GuardError → W → GuardResult AdminIdentity × W
  answer e w = (err e, w)

  -- Every refusal is one of these, in the order of the checks. Without a configuration it is a 503
  -- and the world is as it was. All others need one: a 401 without a token; for a token that does
  -- not verify a 401 or the key provider's own error; a 403 by the signed claims. On a mutation
  -- whose claims suffice it is the introspector's own error, a 401 for an inactive verdict, or a 403
  -- by the live grants.
  pub authorize-IsRefused :
      (bearer : Option String) (require : Option Requirement) (w w' : W) (e : GuardError)
      → authorize crates unix_seconds guard method bearer require w ≡ (err e, w')
      → IsRefused bearer require w e w'
  unfolding authorize
  authorize-IsRefused bearer require w w' e h = guarded (is_configured guard.config) refl
    where
      refused :
          (q : Option Requirement) (token : String) (verified : VerifiedAdminToken) (after : W)
          → verify crates unix_seconds guard.verifier token w ≡ (ok verified, after)
          → ClaimsRefuse (token_identity token verified) q
          → is_configured guard.config ≡ true
          → answer (claims_error (token_identity token verified) q) after ≡ (err e, w')
          → IsRefused (some token) q w e w'
      refused q token verified after v c f k =
          claims token verified f refl (v ∙ ap (λ (x : W). (ok verified, x)) (cc k)) c
            (sym (ap status (cc k)) ∙ claims_error-403 (token_identity token verified) q)

      claiming :
          (q : Option Requirement) (token : String) (verified : VerifiedAdminToken) (after : W)
          → verify crates unix_seconds guard.verifier token w ≡ (ok verified, after)
          → is_configured guard.config ≡ true
          → authorize_identity guard method q (token_identity token verified) after ≡ (err e, w')
          → IsRefused (some token) q w e w'
      claiming none token verified after v f k =
          refused none token verified after v tt f (unfold authorize_identity in k)
      claiming (some r) token verified after v f k =
          elim (Bool-cases (has_feature identity r.site r.feature)) [
            | inl allowed ↦
                live-IsRefused token after r verified e w'
                  (record {
                    configured = f;
                    has_token = refl;
                    verified = verified;
                    verifies = v;
                    has_requirement = refl;
                    suffices = allowed;
                  })
                  (unfold authorize_identity in rw ((check_access_iff identity r).1 allowed) at k)
            | inr denied ↦
                refused (some r) token verified after v denied f
                  (unfold authorize_identity in rw (check_access-refuses identity r denied) at k)
          ]
        where
          identity : AdminIdentity
          identity = token_identity token verified

      bearing :
          (b : Option String)
          → is_configured guard.config ≡ true
          → authorize_bearer crates unix_seconds guard method b require w ≡ (err e, w')
          → IsRefused b require w e w'
      bearing none f k = no_token f refl (unfold status in ground arith) (ground arith)
      bearing (some token) f k =
          elim (and_then-eq-err (verify crates unix_seconds guard.verifier token w) _ e w' k) [
            | inl failed ↦
                rejected token f refl failed
                  (verify-rejects crates unix_seconds guard.verifier token w w' e failed)
            | inr (verified, after, v, k₁) ↦ claiming require token verified after v f k₁
          ]

      guarded : (c : Bool) → is_configured guard.config ≡ c → IsRefused bearer require w e w'
      guarded false c = unconfigured c (unfold status in ground arith) (ground arith)
      guarded true c = bearing bearer c (rw c at h)
