-- ===== src/Introspect.antt =====
-- rust/src/introspect.rs: the IdP's verdict on a token, how a response body is read as one, and
-- the interface that the guard asks. A world `W` stands for whatever an implementation changes.
pub mod Client
pub mod Laws
use maxgame_admin_guard.Base.{
  ℕ, String, Bool, true, false, not, Option, none, some, List, [], ok, Call, and_then,
  if◌then◌else◌,
}
use maxgame_admin_guard.Base.Int.{ℤ}
use maxgame_admin_guard.Base.Text.{trim, is_empty}
use maxgame_admin_guard.Error.{GuardError}
use maxgame_admin_guard.Json.{Value, Serde}
use maxgame_admin_guard.Access.{SiteAccess, normalize_site_access}

pub data AdminIntrospection : Type 0 where
  active : (admin_id role : String) → SiteAccess → AdminIntrospection
  inactive : (reason : String) → AdminIntrospection

-- Every field is optional: a missing one never fails the parse.
pub record IntrospectionBody : Type 0 where
  pub active : Option Bool
  pub admin_id : Option String
  pub role : Option String
  pub site_access : Option Value
  pub reason : Option String
  pub step_up_elevated_until : Option Value

-- `self.active == Some(true)`.
abbrev pub is_active : Option Bool → Bool
is_active (some true) = true
is_active _ = false

-- `unwrap_or_default` on a text, and `unwrap_or_else` with a default text.
abbrev pub or_text : Option String → String → String
or_text none d = d
or_text (some s) d = s

-- `filter(|s| !s.trim().is_empty())`.
unfoldable pub not_blank : String → Bool
unfolding trim is_empty
not_blank s = not (is_empty (trim s))

unfoldable pub non_blank : Option String → Option String
unfolding not_blank
non_blank none = none
non_blank (some s) = if not_blank s then some s else none

module _ (serde : Serde) where
  abbrev integer : Option Value → Option ℤ
  integer none = none
  integer (some v) = serde.as_i64 v

  unfoldable pub elevated_until : IntrospectionBody → Option ℤ
  elevated_until body =
      if not (is_active body.active) then none else integer body.step_up_elevated_until

  abbrev pub normalized : Option Value → SiteAccess
  normalized none = []
  normalized (some v) = normalize_site_access serde v

  abbrev named : IntrospectionBody → Option String → AdminIntrospection
  named body none = inactive "malformed"
  named body (some admin_id) = active admin_id (or_text body.role "") (normalized body.site_access)

  -- `From<IntrospectionBody> for AdminIntrospection`.
  unfoldable pub from_body : IntrospectionBody → AdminIntrospection
  unfolding non_blank
  from_body body =
      if not (is_active body.active)
      then inactive (or_text body.reason "inactive")
      else named body (non_blank body.admin_id)

-- The trait `AdminIntrospector`.
pub record AdminIntrospector (W : Type 0) : Type 0 where
  pub introspect : String → Call W GuardError AdminIntrospection
  pub introspect_with_step_up : String → Call W GuardError (AdminIntrospection × Option ℤ)

-- The trait's default for `introspect_with_step_up`.
unfoldable pub without_step_up :
    {W : Type 0}
    → (String → Call W GuardError AdminIntrospection)
    → String
    → Call W GuardError (AdminIntrospection × Option ℤ)
without_step_up introspect token w =
    and_then (introspect token w) (λ verdict w'. (ok (verdict, none), w'))
