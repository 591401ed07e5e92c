-- ===== src/Examples/Guards.antt =====
-- rust/src/guard.rs and rust/src/axum_ext.rs on concrete requests.
use maxgame_admin_guard.Base.{ℕ, ◌+◌, ◌≡◌, refl, true, false, none, some, ok, err}
use maxgame_admin_guard.Base.Text.{
  trim, is_empty, trim_start_matches, trim_end_matches, is_whitespace, split_once, strip_prefix,
}
use maxgame_admin_guard.Error.{GuardError, unauthorized, status}
use maxgame_admin_guard.Access.{
  AdminIdentity, has_feature, has_any_site_access, is_super_admin, lookup,
}
use maxgame_admin_guard.Introspect.{not_blank}
use maxgame_admin_guard.Guard.{
  authorize, authorize_identity, check_live, is_configured, is_mutating, check_access, recheck,
  apply_verdict, default_mutating_methods, token_identity,
}
use maxgame_admin_guard.Guard.Laws.{IsAuthorized, authorize_iff}
use maxgame_admin_guard.Guard.Order.{ClaimsRefuse-first, reads_never_introspect, with_introspector}
use maxgame_admin_guard.Guard.Refusals.{IsRefused, authorize-IsRefused}
use maxgame_admin_guard.AxumExt.{
  Request, require_admin, bearer_token, from_request_parts, requirement,
}
use maxgame_admin_guard.AxumExt.Laws.{require_admin_iff}
use maxgame_admin_guard.Examples.{
  crates, unix_seconds, verified, config, guard, ending_guard, ending, may_write, may_delete, ann,
}
use maxgame_admin_guard.Examples.Tokens.{verify_ann}

ann_passes :
    authorize crates unix_seconds guard "POST" (some "h.p.s") (some may_write) 5 ≡ (ok ann, 7)
unfolding authorize authorize_identity check_live is_configured not_blank trim is_empty
    trim_start_matches trim_end_matches is_whitespace is_mutating default_mutating_methods
    check_access recheck apply_verdict has_feature has_any_site_access is_super_admin lookup config
ann_passes = rw verify_ann refl

authorize_iff_example :
    IsAuthorized guard "POST" crates unix_seconds (some "h.p.s") (some may_write) 5 ann 7
authorize_iff_example =
    (authorize_iff guard "POST" crates unix_seconds (some "h.p.s") (some may_write) 5 ann 7).0
      ann_passes

authorize_ended :
    authorize crates unix_seconds ending_guard "POST" (some "h.p.s") (some may_write) 5
    ≡ (err (unauthorized "Admin session is no longer active (signed out)"), 7)
unfolding authorize authorize_identity check_live is_configured not_blank trim is_empty
    trim_start_matches trim_end_matches is_whitespace is_mutating default_mutating_methods
    check_access recheck apply_verdict has_feature has_any_site_access is_super_admin lookup config
authorize_ended = rw verify_ann refl

authorize-IsRefused_example :
    IsRefused crates unix_seconds ending_guard "POST"
      (some "h.p.s")
      (some may_write)
      5
      (unauthorized "Admin session is no longer active (signed out)")
      7
authorize-IsRefused_example =
    authorize-IsRefused crates unix_seconds ending_guard "POST" (some "h.p.s") (some may_write) 5 7
      (unauthorized "Admin session is no longer active (signed out)") authorize_ended

configured : is_configured config ≡ true
unfolding is_configured not_blank trim is_empty trim_start_matches trim_end_matches is_whitespace
    config
configured = refl

cannot_delete : has_feature (token_identity "h.p.s" verified) "hub" "delete" ≡ false
unfolding has_feature is_super_admin lookup
cannot_delete = refl

ClaimsRefuse-first_example :
    (e : GuardError) × (authorize crates unix_seconds guard "POST"
        (some "h.p.s")
        (some may_delete)
        5
      ≡ (err e, 6))
    × (status e ≡ 403)
ClaimsRefuse-first_example =
    ClaimsRefuse-first crates unix_seconds guard "POST" "h.p.s" (some may_delete) 5 6 verified
      configured verify_ann cannot_delete

reads : is_mutating config "GET" ≡ false
unfolding is_mutating default_mutating_methods config
reads = refl

reads_never_introspect_example :
    authorize crates unix_seconds
      (with_introspector guard ending)
      "GET"
      (some "h.p.s")
      (some may_write)
      5
    ≡ authorize crates unix_seconds guard "GET" (some "h.p.s") (some may_write) 5
reads_never_introspect_example =
    reads_never_introspect crates unix_seconds guard ending "GET" (some "h.p.s") (some may_write) 5
      reads

abbrev post : Request
post = record { method = "POST"; authorization = some "Bearer h.p.s"; extension = none }

-- A handler that answers with the number of its requests' ticks.
abbrev next : Request → ℕ → ℕ × ℕ
next r w = (w, w + 1)

bearer_ann : bearer_token (some "Bearer h.p.s") ≡ some "h.p.s"
unfolding bearer_token split_once strip_prefix trim is_empty trim_start_matches trim_end_matches
    is_whitespace
bearer_ann = refl

requires : require_admin crates unix_seconds next guard "hub" "write" post 5 ≡ (ok 7, 8)
unfolding require_admin
requires = rw (bearer_ann, ann_passes) refl

require_admin_iff_example :
    (identity : AdminIdentity) × (after : ℕ) × (seen : Request) × (authorize crates unix_seconds
        guard "POST"
        (bearer_token (some "Bearer h.p.s"))
        (some (requirement "hub" "write"))
        5
      ≡ (ok identity, after))
    × (next seen after ≡ (7, 8))
    × (seen.method ≡ "POST")
    × (seen.authorization ≡ some "Bearer h.p.s")
    × (from_request_parts seen ≡ ok identity)
require_admin_iff_example =
    (require_admin_iff crates unix_seconds next guard "hub" "write" post 5 8 7).0 requires
