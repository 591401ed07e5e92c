-- ===== src/StepUp.antt =====
-- rust/src/step_up.rs: the two step-up checks, their errors, and the client that spends a token.
-- The network is a parameter, as for introspection. A header is its text where it is there and is
-- text.
pub mod Laws
use maxgame_admin_guard.Base.{
  ℕ, String, Bool, true, false, not, Option, none, some, List, [], ◌∷◌, Result, ok, err, Call,
  and_then, leb, ◌==◌, if◌then◌else◌,
}
use maxgame_admin_guard.Base.Int.{ℤ}
use maxgame_admin_guard.Base.Text.{◌<>◌, trim, is_empty, filter}
use maxgame_admin_guard.Error.{GuardError, unavailable, GuardResult, message}
use maxgame_admin_guard.Json.{Value, null, bool, object, get}
use maxgame_admin_guard.Introspect.Client.{default_header_name, default_timeout, is_success}

abbrev pub step_up_token_header : String
step_up_token_header = "x-step-up-token"

abbrev pub consume_path : String
consume_path = "/v1/external/step-up/consume"

pub data StepUpMode : Type 0 where
  session single_use : StepUpMode

unfoldable pub as_str : StepUpMode → String
as_str session = "session"
as_str single_use = "single_use"

pub data StepUpError : Type 0 where
  required : (mode : StepUpMode) (action resource detail : String) → StepUpError
  unavailable_consume : String → StepUpError

-- `IntoResponse`: the status and the JSON body's entries.
unfoldable pub into_response : StepUpError → ℕ × List (String × String)
unfolding as_str
into_response (required mode action resource detail) = (
  403,
  ("error", "step_up_required")
      ∷ ("mode", as_str mode)
      ∷ ("action", action)
      ∷ ("resource", resource)
      ∷ ("detail", detail)
      ∷ [],
)
into_response (unavailable_consume detail) =
    (503, ("error", "step_up_unavailable") ∷ ("detail", detail) ∷ [])

unfoldable pub require_step_up :
    Option ℤ → (action resource : String) → Result StepUpError (Unit {0})
require_step_up (some until) action resource = ok tt
require_step_up none action resource =
    err (
      required session action resource "this action needs a step-up — confirm with an emailed code")

-- The trait `StepUpConsumer`: a token, the admin, the action and the resource.
pub record StepUpConsumer (W : Type 0) : Type 0 where
  pub consume : (step_up_token admin_id action resource : String) → Call W GuardError Bool

-- The header's token, trimmed, if something is left.
unfoldable pub header_token : Option String → Option String
unfolding trim is_empty
header_token none = none
header_token (some value) = filter (λ t. not (is_empty t)) (some (trim value))

module _ {W : Type 0} (consumer : StepUpConsumer W) where
  abbrev pub outcome :
      (action resource : String) → GuardResult Bool × W → Result StepUpError (Unit {0}) × W
  outcome action resource (ok true, w) = (ok tt, w)
  outcome action resource (ok false, w) =
      (err (required single_use action resource "token rejected or spent"), w)
  outcome action resource (err e, w) =
      (err (unavailable_consume ("cannot spend the step-up token right now: " <> message e)), w)

  abbrev pub spend :
      Option String → (admin_id action resource : String) → Call W StepUpError (Unit {0})
  spend none admin_id action resource w = (
    err (
        required single_use action resource
          "this action is irreversible and needs its own emailed code"),
    w,
  )
  spend (some token) admin_id action resource w =
      outcome action resource (consumer.consume token admin_id action resource w)

  -- `require_single_use_step_up`, with the value of the token's header.
  unfoldable pub require_single_use_step_up :
      Option String → (admin_id action resource : String) → Call W StepUpError (Unit {0})
  unfolding header_token message
  require_single_use_step_up header admin_id action resource w =
      spend (header_token header) admin_id action resource w

pub record StepUpConsumeClient : Type 0 where
  pub consume_url : String
  pub header_name : String
  pub api_key : String
  pub timeout : ℕ

unfoldable pub new : String → String → StepUpConsumeClient
new consume_url api_key = record {
  consume_url = consume_url;
  header_name = default_header_name;
  api_key = api_key;
  timeout = default_timeout;
}

unfoldable pub with_timeout : StepUpConsumeClient → ℕ → StepUpConsumeClient
with_timeout c timeout = record c { timeout = timeout }

unfoldable pub with_header_name : StepUpConsumeClient → String → StepUpConsumeClient
with_header_name c header_name = record c { header_name = header_name }

-- The POST, with the entries of its JSON body.
pub record Request : Type 0 where
  pub url : String
  pub header_name : String
  pub header_value : String
  pub timeout : ℕ
  pub body : List (String × String)

pub record Response : Type 0 where
  pub status : ℕ
  pub status_text : String
  pub body : Option Value

unfoldable pub request :
    StepUpConsumeClient → (step_up_token admin_id action resource : String) → Request
request c step_up_token admin_id action resource = record {
  url = c.consume_url;
  header_name = c.header_name;
  header_value = c.api_key;
  timeout = c.timeout;
  body =
      ("step_up_token", step_up_token)
      ∷ ("admin_id", admin_id)
      ∷ ("action", action)
      ∷ ("resource", resource)
      ∷ [];
}

-- `body["consumed"] == json!(true)`.
abbrev pub is_true : Option Value → Bool
is_true (some (bool true)) = true
is_true _ = false

unfoldable pub says_consumed : Value → Bool
unfolding get
says_consumed (object entries) = is_true (get "consumed" entries)
says_consumed _ = false

abbrev pub read_body : Option Value → GuardResult Bool
read_body none = err (unavailable "step-up consume response was malformed")
read_body (some body) =
    if says_consumed body
    then ok true
    else err (unavailable "step-up consume answered 2xx without consumed:true")

-- What `consume` makes of the response, with none for a transport error or the timeout.
unfoldable pub read_response : Option Response → GuardResult Bool
unfolding says_consumed
read_response none = err (unavailable "unable to reach the auth server's step-up consume")
read_response (some r) =
    if r.status == 409
    then ok false
    else if is_success r.status
    then read_body r.body
    else err (unavailable ("step-up consume returned " <> r.status_text))

module _ {Net : Type 0} (post : Request → Net → Option Response × Net) where
  unfoldable pub consume :
      StepUpConsumeClient
      → (step_up_token admin_id action resource : String) → Call Net GuardError Bool
  unfolding request read_response
  consume c step_up_token admin_id action resource net =
      let (response, net') = post (request c step_up_token admin_id action resource) net in
      (read_response response, net')

  -- The client as the trait's implementation.
  abbrev pub consumer : StepUpConsumeClient → StepUpConsumer Net
  consumer c = record { consume = consume c }
