-- ===== src/Template/Laws.antt =====
-- template/src/domain/error.rs and template/src/inbound/error.rs: what a response tells.
use maxgame_admin_guard.Base.{◌≡◌, ◌≢◌, refl, arith}
use maxgame_admin_guard.Error
use maxgame_admin_guard.Error.{GuardError}
use maxgame_admin_guard.Template.{from_guard_error, into_response}

-- A guard's error answers with the guard's own status and, unless it is internal, message.
pub from_guard_error-into_response :
    (e : GuardError)
    → let (code, body) = into_response (from_guard_error e) in
      (code ≡ Error.status e)
      × (body.status_code ≡ Error.status e)
      × (Error.status e ≢ 500 → body.message ≡ Error.message e)
unfolding into_response from_guard_error Error.status Error.message
from_guard_error-into_response (Error.unauthorized msg) = (refl, refl, λ h. refl)
from_guard_error-into_response (Error.forbidden msg) = (refl, refl, λ h. refl)
from_guard_error-into_response (Error.unavailable msg) = (refl, refl, λ h. refl)
from_guard_error-into_response (Error.internal msg) = (refl, refl, λ h. ground (arith, h))
