-- ===== src/Template.antt =====
-- template/src/domain/error.rs and template/src/inbound/error.rs: the service's error and its
-- response. The database's errors are a parameter: a missing row, or the text of another error.
pub mod Config
pub mod Example
pub mod Laws
pub mod Repo
pub mod Service
pub mod Server
pub mod Boot
use maxgame_admin_guard.Base.{ℕ, String, Option, none, some, Result}
use maxgame_admin_guard.Base.Text.{◌<>◌}
use maxgame_admin_guard.Error.{GuardError}
use maxgame_admin_guard.Error

pub data DomainError : Type 0 where
  bad_request unauthorized forbidden not_found unavailable internal : String → DomainError

abbrev pub DomainResult : Type 0 → Type 0
DomainResult A = Result DomainError A

-- `From<GuardError>`.
unfoldable pub from_guard_error : GuardError → DomainError
from_guard_error (Error.unauthorized msg) = unauthorized msg
from_guard_error (Error.forbidden msg) = forbidden msg
from_guard_error (Error.unavailable msg) = unavailable msg
from_guard_error (Error.internal msg) = internal msg

-- `From<sqlx::Error>`, with none for `RowNotFound`.
unfoldable pub from_database_error : Option String → DomainError
from_database_error none = not_found "record not found"
from_database_error (some other) = internal ("database error: " <> other)

-- `DomainError::status`, as the code of the `StatusCode`.
unfoldable pub status : DomainError → ℕ
status (bad_request msg) = 400
status (unauthorized msg) = 401
status (forbidden msg) = 403
status (not_found msg) = 404
status (unavailable msg) = 503
status (internal msg) = 500

-- `canonical_reason` of those codes.
abbrev reason : DomainError → String
reason (bad_request msg) = "Bad Request"
reason (unauthorized msg) = "Unauthorized"
reason (forbidden msg) = "Forbidden"
reason (not_found msg) = "Not Found"
reason (unavailable msg) = "Service Unavailable"
reason (internal msg) = "Internal Server Error"

-- `Display`, but for an internal error, whose detail stays in the log.
abbrev public_message : DomainError → String
public_message (bad_request msg) = msg
public_message (unauthorized msg) = msg
public_message (forbidden msg) = msg
public_message (not_found msg) = msg
public_message (unavailable msg) = msg
public_message (internal msg) = "Internal server error"

pub record ErrorBody : Type 0 where
  pub status_code : ℕ
  pub message : String
  pub error : String

unfoldable pub into_response : DomainError → ℕ × ErrorBody
unfolding status
into_response e =
    (status e, record { status_code = status e; message = public_message e; error = reason e })
