-- ===== src/Breaker/Laws.antt =====
-- rust/src/circuit_breaker.rs: what the breaker's methods promise, one call after another.
use maxgame_admin_guard.Base.{ℕ, ◌+◌, ◌-◌, ◌≤◌, ◌<◌, ◌≡◌, true, false, Option, none, some, arith}
use maxgame_admin_guard.Breaker.{CircuitBreaker, RequestPermit, allow_request, new_permit}
use maxgame_admin_guard.Breaker.Permit

-- A call may go out: the breaker is closed, or its window has passed.
abbrev pub Due : Option ℕ → ℕ → ℕ → Type 0
Due none window now = Unit
Due (some at) window now = window ≤ now - at

abbrev pub IsDue : CircuitBreaker → ℕ → Type 0
IsDue b now = Due b.opened_at b.reset_after now

pub allow-of-Due :
    (b : CircuitBreaker) (now : ℕ) (opened : Option ℕ)
    → b.opened_at ≡ opened
    → Due opened b.reset_after now
    → b.probe_in_flight ≡ false
    → (p : RequestPermit) × ((allow_request b now).1 ≡ some p)
unfolding allow_request
allow-of-Due b now none e d f = (new_permit false, ground arith)
allow-of-Due b now (some at) e d f = (new_permit true, ground arith)

-- After a permit of a breaker that is not lending its probe is dropped with no report, the breaker
-- is exactly what it was before the permit was asked for.
pub drop-allow_request :
    (b : CircuitBreaker) (now : ℕ) (p : RequestPermit)
    → b.probe_in_flight ≡ false
    → (allow_request b now).1 ≡ some p
    → Permit.drop (allow_request b now).0 p ≡ b
unfolding allow_request Permit.drop
drop-allow_request b now p f e = ground arith

-- A probe that fails restarts the window: once it is dropped, every call before a full window has
-- passed is refused.
failing_probe_reopens :
    (b : CircuitBreaker) (now later : ℕ) (p : RequestPermit)
    → p.holds_probe ≡ true
    → p.settled ≡ false
    → now ≤ later
    → later < now + b.reset_after
    → let after = Permit.drop (Permit.record_failure b p now).0 p in
      (allow_request after later ≡ (after, none))
      × (after.opened_at ≡ some now)
      × (after.probe_in_flight ≡ false)
unfolding allow_request Permit.record_failure Permit.drop
failing_probe_reopens b now later p h s le lt = ground arith

-- A report of success through a permit that has not reported closes the breaker and clears the run
-- of failures, whatever the state; the probe stays out until the permit is dropped.
pub record_success-closes :
    (b : CircuitBreaker) (p : RequestPermit)
    → p.settled ≡ false
    → let after = (Permit.record_success b p).0 in
      (after.opened_at ≡ none)
      × (after.consecutive_failures ≡ 0)
      × (after.probe_in_flight ≡ b.probe_in_flight)
unfolding Permit.record_success
record_success-closes b p s = ground arith

-- A permit reports once: after either report, both reports through it leave the breaker alone.
pub reports_once :
    (b : CircuitBreaker) (p : RequestPermit) (now later : ℕ)
    → let (b₁, p₁) = Permit.record_success b p in
      let (b₂, p₂) = Permit.record_failure b p now in
      ((Permit.record_success b₁ p₁).0 ≡ b₁)
      × ((Permit.record_failure b₁ p₁ later).0 ≡ b₁)
      × ((Permit.record_success b₂ p₂).0 ≡ b₂)
      × ((Permit.record_failure b₂ p₂ later).0 ≡ b₂)
unfolding Permit.record_success Permit.record_failure
reports_once b p now later = ground arith
