-- ===== src/Introspect/Client.antt =====
-- rust/src/introspect_client.rs: the HTTP client behind `AdminIntrospector`, with its breaker.
-- The network is a parameter: a state `Net` with a clock, and a call that answers a request with a
-- response or with none (a transport error or the timeout).
pub mod Laws
pub mod Verdicts
use maxgame_admin_guard.Base.{
  ℕ, ◌*◌, ◌^◌, String, Bool, true, false, ◌&&◌, Option, none, some, Result, ok, err, Call, and_then,
  leb, if◌then◌else◌,
}
use maxgame_admin_guard.Base.Int.{ℤ}
use maxgame_admin_guard.Base.Text.{◌<>◌}
use maxgame_admin_guard.Error.{GuardError, unavailable, GuardResult}
use maxgame_admin_guard.Json.{Serde}
use maxgame_admin_guard.Breaker.{CircuitBreaker, RequestPermit, with_clock, allow_request}
use maxgame_admin_guard.Breaker.Permit
use maxgame_admin_guard.Introspect.{
  AdminIntrospection, active, inactive, IntrospectionBody, elevated_until, from_body,
  AdminIntrospector,
}

-- `Duration::from_secs`, in nanoseconds.
abbrev pub seconds : ℕ → ℕ
seconds n = n * 10 ^ 9

abbrev pub default_timeout : ℕ
default_timeout = seconds 3

abbrev pub default_breaker_failure_threshold : ℕ
default_breaker_failure_threshold = 5

abbrev pub default_breaker_reset : ℕ
default_breaker_reset = seconds 30

abbrev pub default_header_name : String
default_header_name = "x-api-key"

pub record AdminIntrospectClient : Type 0 where
  pub introspect_url : String
  pub header_name : String
  pub api_key : String
  pub timeout : ℕ
  pub breaker : CircuitBreaker

unfoldable pub new : String → String → AdminIntrospectClient
unfolding with_clock
new introspect_url api_key = record {
  introspect_url = introspect_url;
  header_name = default_header_name;
  api_key = api_key;
  timeout = default_timeout;
  breaker = with_clock default_breaker_failure_threshold default_breaker_reset;
}

unfoldable pub with_timeout : AdminIntrospectClient → ℕ → AdminIntrospectClient
with_timeout c timeout = record c { timeout = timeout }

unfoldable pub with_header_name : AdminIntrospectClient → String → AdminIntrospectClient
with_header_name c header_name = record c { header_name = header_name }

-- `with_breaker`, and `with_breaker_clock`, whose clock is the network's here.
unfoldable pub with_breaker : AdminIntrospectClient → ℕ → ℕ → AdminIntrospectClient
unfolding with_clock
with_breaker c failure_threshold reset_after = record c {
  breaker = with_clock failure_threshold reset_after;
}

-- `AdminIntrospectClient::default`.
abbrev default : AdminIntrospectClient
default = with_breaker (new "" "") default_breaker_failure_threshold default_breaker_reset

-- The POST: the key goes into the named header, and the body holds the token alone.
pub record Request : Type 0 where
  pub url : String
  pub header_name : String
  pub header_value : String
  pub timeout : ℕ
  pub token : String

-- A response: `body` is none where it does not parse as an introspection body.
pub record Response : Type 0 where
  pub status : ℕ
  pub status_text : String
  pub body : Option IntrospectionBody

-- `StatusCode::is_success`.
abbrev pub is_success : ℕ → Bool
is_success status = leb 200 status && leb status 299

unfoldable pub request : AdminIntrospectClient → String → Request
request c token = record {
  url = c.introspect_url;
  header_name = c.header_name;
  header_value = c.api_key;
  timeout = c.timeout;
  token = token;
}

abbrev settle_body :
    CircuitBreaker
    → RequestPermit
    → ℕ
    → Option IntrospectionBody
    → GuardResult IntrospectionBody × CircuitBreaker × RequestPermit
settle_body b p now none =
    let (b', p') = Permit.record_failure b p now in
    (err (unavailable "admin IdP introspection response was malformed"), b', p')
settle_body b p now (some body) = let (b', p') = Permit.record_success b p in (ok body, b', p')

-- What `fetch` makes of the reply: each branch reports through the permit before it returns.
unfoldable pub settle_reply :
    CircuitBreaker
    → RequestPermit
    → ℕ
    → Option Response
    → GuardResult IntrospectionBody × CircuitBreaker × RequestPermit
settle_reply b p now none =
    let (b', p') = Permit.record_failure b p now in
    (err (unavailable "unable to verify admin session with the IdP"), b', p')
settle_reply b p now (some r) =
    let (b', p') = Permit.record_failure b p now in
    if is_success r.status
    then settle_body b p now r.body
    else (err (unavailable ("admin IdP introspection returned " <> r.status_text)), b', p')

-- The client and the network it talks to.
pub record World (Net : Type 0) : Type 0 where
  pub client : AdminIntrospectClient
  pub net : Net

module _ {Net : Type 0} (now : Net → ℕ) (post : Request → Net → Option Response × Net) where
  -- The rest of `fetch` once the breaker has answered; the permit is dropped at its end.
  abbrev pub fetch_with :
      String
      → World Net
      → CircuitBreaker × Option RequestPermit
      → GuardResult IntrospectionBody × World Net
  fetch_with token w (b, none) = (
    err (unavailable "admin IdP introspection is temporarily unavailable"),
    record w { client = record (w.client) { breaker = b } },
  )
  fetch_with token w (b, some p) =
      let (reply, net') = post (request w.client token) w.net in
      let (answer, b', p') = settle_reply b p (now net') reply in
      (answer, record { client = record (w.client) { breaker = Permit.drop b' p' }; net = net' })

  unfoldable pub fetch : String → Call (World Net) GuardError IntrospectionBody
  unfolding settle_reply allow_request
  fetch token w = fetch_with token w (allow_request w.client.breaker (now w.net))

  module _ (serde : Serde) where
    unfoldable pub introspect : String → Call (World Net) GuardError AdminIntrospection
    introspect token w = and_then (fetch token w) (λ body w'. (ok (from_body serde body), w'))

    -- No elevation rides a verdict that cannot name its admin.
    abbrev pub elevation_of : AdminIntrospection → Option ℤ → Option ℤ
    elevation_of (active _ _ _) until = until
    elevation_of (inactive _) until = none

    abbrev pub with_elevation : IntrospectionBody → AdminIntrospection × Option ℤ
    with_elevation body =
        (from_body serde body, elevation_of (from_body serde body) (elevated_until serde body))

    unfoldable pub introspect_with_step_up :
        String → Call (World Net) GuardError (AdminIntrospection × Option ℤ)
    introspect_with_step_up token w =
        and_then (fetch token w) (λ body w'. (ok (with_elevation body), w'))

    -- The client as the trait's implementation.
    abbrev pub introspector : AdminIntrospector (World Net)
    introspector = record {
      introspect = introspect;
      introspect_with_step_up = introspect_with_step_up;
    }
