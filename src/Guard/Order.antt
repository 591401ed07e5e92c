-- ===== src/Guard/Order.antt =====
-- rust/src/guard.rs: the order of the checks, and what each refusal means.
use maxgame_admin_guard.Base.{
  ℕ, String, ◌≡◌, refl, Bool, true, false, not, Option, none, some, ok, err, and_then_cong, arith,
  if◌then◌else◌,
}
use maxgame_admin_guard.Error.{GuardError, forbidden, GuardResult, status}
use maxgame_admin_guard.Access.{AdminIdentity, has_feature, has_any_site_access}
use maxgame_admin_guard.Introspect.{AdminIntrospector}
use maxgame_admin_guard.Token.{VerifiedAdminToken, Crates, verify}
use maxgame_admin_guard.Guard.{
  Requirement, AdminGuard, is_mutating, is_configured, check_access, token_identity, check_live,
  after_claims, authorize_identity, authorize_bearer, authorize,
}

-- The same guard with another introspector.
abbrev pub with_introspector :
    {W Key : Type 0} → AdminGuard W Key → AdminIntrospector W → AdminGuard W Key
with_introspector guard other = record {
  config = guard.config;
  verifier = guard.verifier;
  introspector = other;
}

-- The refusal that the signed claims get.
abbrev pub claims_error : AdminIdentity → Option Requirement → GuardError
claims_error identity none = forbidden "Admin route is missing required site/feature metadata"
claims_error identity (some r) =
    if not (has_any_site_access identity)
    then forbidden "No access assigned. Contact your administrator."
    else forbidden "Access denied. Required feature permission is missing."

pub claims_error-403 :
    (identity : AdminIdentity) (q : Option Requirement) → status (claims_error identity q) ≡ 403
unfolding status
claims_error-403 identity none = refl
claims_error-403 identity (some r) = ground arith

pub check_access-refuses :
    (identity : AdminIdentity) (r : Requirement)
    → has_feature identity r.site r.feature ≡ false
    → check_access identity r ≡ err (claims_error identity (some r))
unfolding check_access
check_access-refuses identity r f = ground arith

-- The signed claims alone refuse the request: no requirement, or one that they do not meet.
abbrev pub ClaimsRefuse : AdminIdentity → Option Requirement → Type 0
ClaimsRefuse identity none = Unit
ClaimsRefuse identity (some r) = has_feature identity r.site r.feature ≡ false

module _ {W Key : Type 0} (crates : Crates Key) (unix_seconds : W → ℕ)
    (guard : AdminGuard W Key) where
  -- A request that the signed claims refuse is a 403 straight after the offline verification,
  -- whatever the method: the introspector is not asked, so the world is as verification left it.
  pub ClaimsRefuse-first :
      (method token : String) (require : Option Requirement) (w after : W)
      (verified : VerifiedAdminToken)
      → is_configured guard.config ≡ true
      → verify crates unix_seconds guard.verifier token w ≡ (ok verified, after)
      → ClaimsRefuse (token_identity token verified) require
      → (e : GuardError) × (authorize crates unix_seconds guard method (some token) require w
          ≡ (err e, after))
        × (status e ≡ 403)
  unfolding authorize authorize_identity
  ClaimsRefuse-first method token none w after verified c v f = (
    claims_error (token_identity token verified) none,
    rw (c, v),
    claims_error-403 (token_identity token verified) none,
  )
  ClaimsRefuse-first method token (some r) w after verified c v f = (
    claims_error (token_identity token verified) (some r),
    rw (c, v, check_access-refuses (token_identity token verified) r f),
    claims_error-403 (token_identity token verified) (some r),
  )

  -- A request with a method outside the mutating ones is answered without the introspector: with
  -- any other in its place the answer and the world are the same.
  pub reads_never_introspect :
      (other : AdminIntrospector W) (method : String) (bearer : Option String)
      (require : Option Requirement) (w : W)
      → is_mutating guard.config method ≡ false
      → authorize crates unix_seconds (with_introspector guard other) method bearer require w
        ≡ authorize crates unix_seconds guard method bearer require w
  unfolding authorize
  reads_never_introspect other method bearer require w m = guarded (is_configured guard.config) refl
    where
      live :
          (identity : AdminIdentity) (r : Requirement) (c : GuardResult (Unit {0})) (v : W)
          → after_claims (with_introspector guard other) method identity r c v
            ≡ after_claims guard method identity r c v
      live identity r (ok u) v = unfold check_live in ground arith
      live identity r (err e) v = refl

      claims :
          (q : Option Requirement) (identity : AdminIdentity) (v : W)
          → authorize_identity (with_introspector guard other) method q identity v
            ≡ authorize_identity guard method q identity v
      claims none identity v = unfold authorize_identity in refl
      claims (some r) identity v =
          unfold authorize_identity in live identity r (check_access identity r) v

      bearing :
          (b : Option String)
          → authorize_bearer crates unix_seconds (with_introspector guard other) method b require w
            ≡ authorize_bearer crates unix_seconds guard method b require w
      bearing none = refl
      bearing (some token) =
          and_then_cong (verify crates unix_seconds guard.verifier token w) _ _
            (λ verified. claims require (token_identity token verified))

      guarded :
          (c : Bool)
          → is_configured guard.config ≡ c
          → authorize crates unix_seconds (with_introspector guard other) method bearer require w
            ≡ authorize crates unix_seconds guard method bearer require w
      guarded false e = rw e
      guarded true e = rw e (bearing bearer)
