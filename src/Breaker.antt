-- ===== src/Breaker.antt =====
-- rust/src/circuit_breaker.rs and the clocks of rust/src/clock.rs.
-- An instant and a duration are nanoseconds; a call's reading of the clock is its argument `now`.
-- Each method is the sequence of its atomic operations; `System` interleaves them.
pub mod Permit
pub mod Laws
pub mod System
pub mod Calls
pub mod Spec
pub mod Earned
pub mod Opens
use maxgame_admin_guard.Base.{
  ℕ, ◌+◌, ◌-◌, ◌%◌, ◌^◌, Bool, true, false, not, ◌&&◌, Option, none, some, ltb, leb, if◌then◌else◌,
}

pub record CircuitBreaker : Type 0 where
  pub failure_threshold : ℕ  -- u32
  pub reset_after : ℕ
  pub consecutive_failures : ℕ  -- AtomicU32
  pub opened_at : Option ℕ
  pub probe_in_flight : Bool

pub record RequestPermit : Type 0 where
  pub holds_probe : Bool
  pub settled : Bool

-- `CircuitBreaker::with_clock`; `new` is the same with the system's clock.
unfoldable pub with_clock : ℕ → ℕ → CircuitBreaker
with_clock failure_threshold reset_after = record {
  failure_threshold = failure_threshold;
  reset_after = reset_after;
  consecutive_failures = 0;
  opened_at = none;
  probe_in_flight = false;
}

-- `RequestPermit::new`.
abbrev pub new_permit : Bool → RequestPermit
new_permit holds_probe = record { holds_probe = holds_probe; settled = false }

-- The compare-exchange from false to true, and the permit that it grants.
unfoldable pub lend_probe : CircuitBreaker → CircuitBreaker × Option RequestPermit
lend_probe b =
    if b.probe_in_flight
    then (b, none)
    else (record b { probe_in_flight = true }, some (new_permit true))

-- `saturating_duration_since` is the truncated difference.
unfoldable pub allow_request : CircuitBreaker → ℕ → CircuitBreaker × Option RequestPermit
unfolding lend_probe
allow_request b now = elim b.opened_at [
  | none ↦ (b, some (new_permit false))
  | some at ↦ if leb b.reset_after (now - at) then lend_probe b else (b, none)
]

-- The two atomic parts of `record_success`: the counter's store, then the update under the lock.
unfoldable pub reset_failures : CircuitBreaker → CircuitBreaker
reset_failures b = record b { consecutive_failures = 0 }

unfoldable pub close : CircuitBreaker → CircuitBreaker
close b = record b { opened_at = none }

unfoldable pub record_success : CircuitBreaker → CircuitBreaker
unfolding reset_failures close
record_success b = close (reset_failures b)

abbrev pub u32 : ℕ → ℕ
u32 n = n % 2 ^ 32

-- The two parts of `record_failure`: `fetch_add(1) + 1`, then the update under the lock.
-- Both additions wrap, as in a release build.
unfoldable pub count_failure : CircuitBreaker → CircuitBreaker × ℕ
count_failure b = (
  record b { consecutive_failures = u32 (b.consecutive_failures + 1) },
  u32 (b.consecutive_failures + 1),
)

abbrev pub reopen : Bool → ℕ → Option ℕ → Option ℕ
reopen was_probe now none = some now
reopen was_probe now (some at) = if was_probe then some now else some at

unfoldable pub open_after : ℕ → Bool → ℕ → CircuitBreaker → CircuitBreaker
open_after failures was_probe now b =
    if ltb failures b.failure_threshold && not was_probe
    then b
    else record b { opened_at = reopen was_probe now b.opened_at }

unfoldable pub record_failure : CircuitBreaker → Bool → ℕ → CircuitBreaker
unfolding count_failure open_after
record_failure b was_probe now =
    let (counted, failures) = count_failure b in open_after failures was_probe now counted

-- `settle`: whether this is the permit's first report.
unfoldable pub settle : RequestPermit → RequestPermit × Bool
settle p = (record p { settled = true }, not p.settled)
