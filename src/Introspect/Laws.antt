-- ===== src/Introspect/Laws.antt =====
-- rust/src/introspect.rs: which bodies are active verdicts, and which carry an elevation.
use maxgame_admin_guard.Base.{String, ◌≡◌, ◌↔◌, refl, Bool, true, false, Option, none, some, arith}
use maxgame_admin_guard.Base.Int.{ℤ}
use maxgame_admin_guard.Json.{Serde}
use maxgame_admin_guard.Access.{SiteAccess}
use maxgame_admin_guard.Introspect.{
  active, IntrospectionBody, or_text, not_blank, non_blank, normalized, elevated_until, from_body,
}

pub non_blank_iff :
    (o : Option String) (s : String)
    → (non_blank o ≡ some s) ↔ ((o ≡ some s) × (not_blank s ≡ true))
unfolding non_blank
non_blank_iff none s = ground arith
non_blank_iff (some t) s = ground arith

module _ (serde : Serde) where
  -- A body is an active verdict for an admin exactly if it says `active: true` and names that admin
  -- by an id that is not blank; the role and the grants are then the body's, empty where missing.
  from_body-active_iff :
      (b : IntrospectionBody) (admin_id role : String) (access : SiteAccess)
      → (from_body serde b ≡ active admin_id role access) ↔ (
          (b.active ≡ some true)
          × (b.admin_id ≡ some admin_id)
          × (not_blank admin_id ≡ true)
          × (role ≡ or_text b.role "")
          × (access ≡ normalized serde b.site_access))
  unfolding from_body
  from_body-active_iff b admin_id role access = cases b.active (non_blank b.admin_id) refl refl
    where
      cases :
          (a : Option Bool) (n : Option String)
          → b.active ≡ a
          → non_blank b.admin_id ≡ n
          → (from_body serde b ≡ active admin_id role access) ↔ (
              (b.active ≡ some true)
              × (b.admin_id ≡ some admin_id)
              × (not_blank admin_id ≡ true)
              × (role ≡ or_text b.role "")
              × (access ≡ normalized serde b.site_access))
      cases none n e f = ground (arith, non_blank_iff b.admin_id admin_id)
      cases (some false) n e f = ground (arith, non_blank_iff b.admin_id admin_id)
      cases (some true) n e f = ground (arith, non_blank_iff b.admin_id admin_id)

  -- Only a body that says `active: true` carries an elevation.
  pub elevated-is_active :
      (b : IntrospectionBody) (t : ℤ) → elevated_until serde b ≡ some t → b.active ≡ some true
  unfolding elevated_until
  elevated-is_active b t h = cases b.active refl
    where
      cases : (a : Option Bool) → b.active ≡ a → b.active ≡ some true
      cases none e = ground arith
      cases (some false) e = ground arith
      cases (some true) e = e
