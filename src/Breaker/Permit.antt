-- ===== src/Breaker/Permit.antt =====
-- rust/src/circuit_breaker.rs: `RequestPermit`, its two reports and its destructor. A report
-- returns the breaker and the permit as it leaves them.
use maxgame_admin_guard.Base.{ℕ, false, if◌then◌else◌}
use maxgame_admin_guard.Breaker
use maxgame_admin_guard.Breaker.{CircuitBreaker, RequestPermit, settle}

unfoldable pub record_success : CircuitBreaker → RequestPermit → CircuitBreaker × RequestPermit
unfolding settle Breaker.record_success
record_success b p =
    let (p', first) = settle p in (if first then Breaker.record_success b else b, p')

unfoldable pub record_failure : CircuitBreaker → RequestPermit → ℕ → CircuitBreaker × RequestPermit
unfolding settle Breaker.record_failure
record_failure b p now =
    let (p', first) = settle p in
    (if first then Breaker.record_failure b p.holds_probe now else b, p')

-- `Drop::drop`: the probe's only release.
unfoldable pub drop : CircuitBreaker → RequestPermit → CircuitBreaker
drop b p = if p.holds_probe then record b { probe_in_flight = false } else b
