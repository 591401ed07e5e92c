-- ===== src/Error.antt =====
-- rust/src/error.rs: the crate's error type and the status that each variant answers with.
use maxgame_admin_guard.Base.{ℕ, String, Result}

pub data GuardError : Type 0 where
  unauthorized forbidden unavailable internal : String → GuardError

abbrev pub GuardResult : Type 0 → Type 0
GuardResult A = Result GuardError A

-- `GuardError::status`, as the code of the `StatusCode`.
unfoldable pub status : GuardError → ℕ
status (unauthorized msg) = 401
status (forbidden msg) = 403
status (unavailable msg) = 503
status (internal msg) = 500

-- `Display`: `#[error("{0}")]` on each variant.
unfoldable pub message : GuardError → String
message (unauthorized msg) = msg
message (forbidden msg) = msg
message (unavailable msg) = msg
message (internal msg) = msg

-- `IntoResponse`: the status and the value under "message" in the JSON body.
unfoldable pub into_response : GuardError → ℕ × String
unfolding status message
into_response e = (status e, message e)
