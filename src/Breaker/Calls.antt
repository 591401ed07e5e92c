-- ===== src/Breaker/Calls.antt =====
-- rust/src/circuit_breaker.rs as its clients use it: take a permit, report at most once, drop it.
use maxgame_admin_guard.Base.{
  ℕ, ◌+◌, ◌^◌, ◌<◌, ◌≡◌, ◌≢◌, refl, ap, false, Option, none, some, List, [], ◌∷◌, ◌++◌, arith,
  length, All,
}
use maxgame_admin_guard.Breaker.{CircuitBreaker, RequestPermit, allow_request}
use maxgame_admin_guard.Breaker.Permit
use maxgame_admin_guard.Breaker.Laws.{Due, IsDue}

-- What becomes of a call that went out; `cancelled` is a future dropped before it reported.
pub data Outcome : Type 0 where
  answered failed cancelled : Outcome

unfoldable pub report :
    Outcome → CircuitBreaker → RequestPermit → ℕ → CircuitBreaker × RequestPermit
report answered b p now = Permit.record_success b p
report failed b p now = Permit.record_failure b p now
report cancelled b p now = (b, p)

-- The breaker after one call that asks at `now` and ends at `done` with the given outcome.
abbrev pub finish : Outcome → ℕ → CircuitBreaker × Option RequestPermit → CircuitBreaker
finish o done (b, none) = b
finish o done (b, some p) = Permit.drop (report o b p done).0 (report o b p done).1

pub record Attempt : Type 0 where
  pub asked : ℕ
  pub done : ℕ
  pub outcome : Outcome

unfoldable pub call : CircuitBreaker → Attempt → CircuitBreaker
unfolding report
call b a = finish a.outcome a.done (allow_request b a.asked)

unfoldable pub calls : CircuitBreaker → List Attempt → CircuitBreaker
calls b [] = b
calls b (a ∷ as') = calls (call b a) as'

abbrev pub IsClosed : CircuitBreaker → Type 0
IsClosed b = (b.opened_at ≡ none) × (b.probe_in_flight ≡ false)

abbrev pub HasFailed : Attempt → Type 0
HasFailed a = a.outcome ≡ failed

abbrev pub HasNotFailed : Attempt → Type 0
HasNotFailed a = a.outcome ≢ failed

call-failed_below :
    (b : CircuitBreaker) (a : Attempt)
    → IsClosed b
    → HasFailed a
    → b.consecutive_failures + 1 < b.failure_threshold
    → b.failure_threshold < 2 ^ 32
    → call b a ≡ record b { consecutive_failures = b.consecutive_failures + 1 }
unfolding call allow_request Permit.record_success Permit.record_failure Permit.drop
call-failed_below b a (c, f) h lt w = ground arith

-- Fewer failed calls in a row than the threshold leave a closed breaker closed.
calls-below_threshold :
    (b : CircuitBreaker) (as' : List Attempt)
    → IsClosed b
    → All HasFailed as'
    → b.consecutive_failures + length as' < b.failure_threshold
    → b.failure_threshold < 2 ^ 32
    → calls b as' ≡ record b { consecutive_failures = b.consecutive_failures + length as' }
unfolding calls
calls-below_threshold b [] c h lt w = ground arith
calls-below_threshold b (a ∷ as') c h lt w = rw (call-failed_below b a c h.0 (omega arith) w) (
    ground (
      arith,
      calls-below_threshold (record b { consecutive_failures = b.consecutive_failures + 1 }) as' c
          h.1 (omega arith) w,
    ))

calls-append :
    (b : CircuitBreaker) (xs ys : List Attempt) → calls b (xs ++ ys) ≡ calls (calls b xs) ys
unfolding calls
calls-append b [] ys = refl
calls-append b (x ∷ xs) ys = calls-append (call b x) xs ys

call-failed_at :
    (b : CircuitBreaker) (a : Attempt)
    → IsClosed b
    → HasFailed a
    → b.consecutive_failures + 1 ≡ b.failure_threshold
    → b.failure_threshold < 2 ^ 32
    → call b a ≡ record b { consecutive_failures = b.failure_threshold; opened_at = some a.done }
unfolding call allow_request Permit.record_success Permit.record_failure Permit.drop
call-failed_at b a (c, f) h e w = ground arith

-- Failed calls in a row from a closed breaker open it with the one that reaches the threshold, at
-- the time at which that one ends, and leave it closed before.
opens_at_threshold :
    (b : CircuitBreaker) (as' : List Attempt) (a : Attempt)
    → IsClosed b
    → All HasFailed as'
    → HasFailed a
    → b.consecutive_failures + length as' + 1 ≡ b.failure_threshold
    → b.failure_threshold < 2 ^ 32
    → IsClosed (calls b as') × ((calls b (as' ++ a ∷ [])).opened_at ≡ some a.done)
unfolding calls
opens_at_threshold b as' a c hs h e w =
    let before = calls-below_threshold b as' c hs (omega arith) w in
    (rw before c, rw (calls-append b as' (a ∷ []), before) last)
  where
    last :
        (call (record b { consecutive_failures = b.consecutive_failures + length as' }) a).opened_at
        ≡ some a.done
    last =
        ap (λ (k : CircuitBreaker). k.opened_at)
          (call-failed_at (record b { consecutive_failures = b.consecutive_failures + length as' })
            a c h e w)

pub call-answered :
    (b : CircuitBreaker) (a : Attempt) → IsClosed b → HasNotFailed a → IsClosed (call b a)
unfolding call allow_request Permit.record_success Permit.record_failure Permit.drop
call-answered b a (c, f) h = ground arith

-- Calls that are answered or cancelled, however many, never open a closed breaker.
answers_never_open :
    (b : CircuitBreaker) (as' : List Attempt)
    → IsClosed b
    → All HasNotFailed as'
    → IsClosed (calls b as')
unfolding calls
answers_never_open b [] c h = c
answers_never_open b (a ∷ as') c h = answers_never_open (call b a) as' (call-answered b a c h.0) h.1

-- Whatever its state, a breaker whose probe is in is closed, with no failures counted, by one call
-- that is answered, once it is closed or its window has passed.
recovers :
    (b : CircuitBreaker) (a : Attempt)
    → b.probe_in_flight ≡ false
    → IsDue b a.asked
    → a.outcome ≡ answered
    → IsClosed (call b a) × ((call b a).consecutive_failures ≡ 0)
unfolding call allow_request Permit.record_success Permit.drop
recovers b a f due h = recovers_from b.opened_at refl due
  where
    recovers_from :
        (opened : Option ℕ)
        → b.opened_at ≡ opened
        → Due opened b.reset_after a.asked
        → IsClosed (call b a) × ((call b a).consecutive_failures ≡ 0)
    recovers_from none e d = ground arith
    recovers_from (some at) e d = ground arith
