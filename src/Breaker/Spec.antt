-- ===== src/Breaker/Spec.antt =====
-- rust/src/circuit_breaker.rs against the circuit breaker that its comments describe: two modes,
-- and what each call does to them. The counter that runs on while the breaker is open, the flag
-- and the wrap-around of the counter are forgotten.
use maxgame_admin_guard.Base.{
  ℕ, ◌+◌, ◌-◌, ◌^◌, ◌<◌, max, ◌≡◌, refl, ◌∙◌, Bool, true, false, Option, none, some, List, [], ◌∷◌,
  arith, ltb, leb, if◌then◌else◌,
}
use maxgame_admin_guard.Breaker.{CircuitBreaker, RequestPermit, with_clock, allow_request}
use maxgame_admin_guard.Breaker.Permit
use maxgame_admin_guard.Breaker.Calls.{
  Outcome, answered, failed, cancelled, report, Attempt, call, calls,
}

-- Closed, with the failures in a row so far, or open since an instant.
pub data Mode : Type 0 where
  closed open_since : ℕ → Mode

module _ (threshold window : ℕ) where
  abbrev pub admits : Mode → ℕ → Bool
  admits (closed streak) asked = true
  admits (open_since at) asked = leb window (asked - at)

  -- A call that went out.
  abbrev pub settles : Mode → Outcome → ℕ → Mode
  settles mode answered done = closed 0
  settles mode cancelled done = mode
  settles (closed streak) failed done =
      if ltb (streak + 1) threshold then closed (streak + 1) else open_since done
  settles (open_since at) failed done = open_since done

  abbrev pub mode_after : Mode → Attempt → Mode
  mode_after mode a = if admits mode a.asked then settles mode a.outcome a.done else mode

  abbrev pub modes_after : Mode → List Attempt → Mode
  modes_after mode [] = mode
  modes_after mode (a ∷ as') = modes_after (mode_after mode a) as'

  -- Which of the calls go out.
  abbrev pub admissions : Mode → List Attempt → List Bool
  admissions mode [] = []
  admissions mode (a ∷ as') = admits mode a.asked ∷ admissions (mode_after mode a) as'

abbrev pub granted : Option RequestPermit → Bool
granted none = false
granted (some p) = true

unfoldable pub grants : CircuitBreaker → List Attempt → List Bool
grants b [] = []
grants b (a ∷ as') = granted (allow_request b a.asked).1 ∷ grants (call b a) as'

abbrev pub mode_of : CircuitBreaker → Mode
mode_of b = elim b.opened_at [ none ↦ closed b.consecutive_failures | some at ↦ open_since at ]

-- Between two calls: no probe is out, and a closed breaker is below its threshold.
record IsIdle (b : CircuitBreaker) : Type 0 where
  home : b.probe_in_flight ≡ false
  below : b.opened_at ≡ none → b.consecutive_failures < max 1 b.failure_threshold
  narrow : b.failure_threshold < 2 ^ 32

call-IsIdle : (b : CircuitBreaker) (a : Attempt) → IsIdle b → IsIdle (call b a)
unfolding call allow_request report Permit.record_success Permit.record_failure Permit.drop
call-IsIdle b a i = record {
  home = ground (arith, i.home);
  below = ground (arith, i.home, i.below, i.narrow);
  narrow = ground (arith, i.narrow);
}

call-settings :
    (b : CircuitBreaker) (a : Attempt)
    → ((call b a).failure_threshold ≡ b.failure_threshold)
      × ((call b a).reset_after ≡ b.reset_after)
unfolding call allow_request report Permit.record_success Permit.record_failure Permit.drop
call-settings b a = ground arith

allow-granted :
    (b : CircuitBreaker) (now : ℕ)
    → IsIdle b
    → granted (allow_request b now).1 ≡ admits b.failure_threshold b.reset_after (mode_of b) now
unfolding allow_request
allow-granted b now i = ground (arith, i.home)

call-mode_of :
    (b : CircuitBreaker) (a : Attempt)
    → IsIdle b
    → mode_of (call b a) ≡ mode_after b.failure_threshold b.reset_after (mode_of b) a
unfolding call allow_request report Permit.record_success Permit.record_failure Permit.drop
call-mode_of b a i = ground (arith, i.home, i.below, i.narrow)

calls-mode_of :
    (n w : ℕ) (b : CircuitBreaker) (as' : List Attempt)
    → IsIdle b
    → b.failure_threshold ≡ n
    → b.reset_after ≡ w
    → (mode_of (calls b as') ≡ modes_after n w (mode_of b) as')
      × (grants b as' ≡ admissions n w (mode_of b) as')
unfolding calls grants
calls-mode_of n w b [] i e f = (refl, refl)
calls-mode_of n w b (a ∷ as') i e f =
    let ih =
      calls-mode_of n w (call b a) as' (call-IsIdle b a i) ((call-settings b a).0 ∙ e)
        ((call-settings b a).1 ∙ f) in
    let step = call-mode_of b a i in
    let asked = allow-granted b a.asked i in (cc (ih.0, step, e, f), cc (ih.1, step, asked, e, f))

-- A new breaker with any threshold below 2^32 and any window, used by any calls one after another,
-- each of them answered, failed or cancelled, lets out exactly the calls that the two-mode machine
-- lets out, and stands in its mode after them: closed with the same number of failures in a row,
-- or open since the same instant.
pub refines :
    (threshold window : ℕ) (as' : List Attempt)
    → threshold < 2 ^ 32
    → (grants (with_clock threshold window) as' ≡ admissions threshold window (closed 0) as')
      × (mode_of (calls (with_clock threshold window) as')
          ≡ modes_after threshold window (closed 0) as')
unfolding with_clock
refines threshold window as' narrow =
    let (modes, let_out) =
      calls-mode_of threshold window (with_clock threshold window) as'
        (record { home = refl; below = λ e. omega arith; narrow = narrow }) refl refl in
    (let_out, modes)
