-- ===== src/Clock.antt =====
-- rust/src/clock.rs: the clock that moves only when it is told to. The system's clock is what a
-- world says the time is; an instant and a duration are nanoseconds.
use maxgame_admin_guard.Base.{ℕ, ◌+◌, ◌≤◌, ◌<◌, ◌≡◌, none, some, true, false, arith}
use maxgame_admin_guard.Breaker.{CircuitBreaker, allow_request, new_permit}

pub record FakeClock : Type 0 where
  pub base : ℕ
  pub offset : ℕ

-- `FakeClock::new`, at the instant that the system's clock reads.
unfoldable pub new : ℕ → FakeClock
new instant = record { base = instant; offset = 0 }

unfoldable pub advance : FakeClock → ℕ → FakeClock
advance c by = record c { offset = c.offset + by }

unfoldable pub now : FakeClock → ℕ
now c = c.base + c.offset

-- A breaker that opened when the clock stood at some instant refuses until the clock has been
-- advanced by its window, and then lends its probe.
advance-allow_request :
    (c : FakeClock) (b : CircuitBreaker) (short long : ℕ)
    → b.opened_at ≡ some (now c)
    → b.probe_in_flight ≡ false
    → short < b.reset_after
    → b.reset_after ≤ long
    → ((allow_request b (now (advance c short))).1 ≡ none)
      × ((allow_request b (now (advance c long))).1 ≡ some (new_permit true))
unfolding allow_request now advance
advance-allow_request c b short long o f s l = (ground (arith, o, f, s), ground (arith, o, f, l))
