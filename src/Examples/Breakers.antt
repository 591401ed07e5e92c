-- ===== src/Examples/Breakers.antt =====
-- rust/src/circuit_breaker.rs on concrete breakers and runs.
use maxgame_admin_guard.Base.{
  ℕ, ◌+◌, ◌≤◌, ◌<◌, ◌≡◌, ◌↔◌, refl, true, false, none, some, List, [], ◌∷◌, arith,
}
use maxgame_admin_guard.Breaker.{
  CircuitBreaker, RequestPermit, with_clock, allow_request, new_permit, settle, count_failure,
  open_after,
}
use maxgame_admin_guard.Breaker.System.{
  Phase, Holder, System, idle, failing, counted, Reach, start, later, ask, act, settle_failure,
  count, open_circuit, probes, one_probe, never_latched,
}
use maxgame_admin_guard.Breaker.Calls.{Attempt, answered, failed, cancelled, calls}
use maxgame_admin_guard.Breaker.Earned.{failures}
use maxgame_admin_guard.Breaker.Opens.{opens_only_after}
use maxgame_admin_guard.Breaker.Spec.{Mode, grants, mode_of, refines}

abbrev closed : CircuitBreaker
closed = record {
  failure_threshold = 3;
  reset_after = 10;
  consecutive_failures = 0;
  opened_at = none;
  probe_in_flight = false;
}

abbrev a_failure : ℕ → Attempt
a_failure n = record { asked = n; done = n + 1; outcome = failed }

-- A closed breaker of threshold 3 after one call has taken a permit.
abbrev asked : System
asked = record {
  breaker = closed;
  now = 5;
  holders = record { permit = new_permit false; phase = idle } ∷ [];
}

asked-Reach : Reach 3 10 asked
unfolding allow_request with_clock
asked-Reach = later (start 5) (ask refl)

one_probe_example :
    (probes asked.holders ≤ 1) × (asked.breaker.probe_in_flight ≡ true ↔ 0 < probes asked.holders)
one_probe_example = one_probe 3 10 asked asked-Reach

never_latched_example : (p : RequestPermit) × ((allow_request closed 5).1 ≡ some p)
never_latched_example = never_latched 3 10 asked asked-Reach no_probes tt
  where
    no_probes : probes asked.holders ≡ 0
    no_probes = unfold probes in refl

-- A breaker of threshold 1 after its first call has failed.
abbrev failed_once : System
failed_once = record {
  breaker = record {
    failure_threshold = 1;
    reset_after = 10;
    consecutive_failures = 1;
    opened_at = some 5;
    probe_in_flight = false;
  };
  now = 5;
  holders = record { permit = record { holds_probe = false; settled = true }; phase = idle } ∷ [];
}

failed_once-Reach : Reach 1 10 failed_once
unfolding allow_request with_clock settle count_failure open_after
failed_once-Reach =
    let b = with_clock 1 10 in
    let p : RequestPermit = record { holds_probe = false; settled = true } in
    let holder : Phase → Holder = λ phase. record { permit = p; phase = phase } in
    let taken = later (start 5) (ask refl) in
    let settled = later taken (
      act [] [] (record { permit = new_permit false; phase = idle }) (holder failing) b refl
        (settle_failure refl refl refl) refl) in
    let counting = later settled (
      act [] [] (holder failing) (holder (counted 1)) (record b { consecutive_failures = 1 }) refl
        (count refl refl refl) refl) in
    later counting (
      act [] [] (holder (counted 1)) (holder idle) failed_once.breaker refl
        (open_circuit 1 refl refl refl) refl)

opens_only_after_example : 1 ≤ failures failed_once-Reach
opens_only_after_example = opens_only_after 1 10 failed_once failed_once-Reach 5 refl

-- Three failures open the breaker, a call in the window stays in, and a cancelled probe and then an
-- answered one go out.
abbrev history : List Attempt
history =
    a_failure 1
    ∷ a_failure 3
    ∷ a_failure 5
    ∷ a_failure 9
    ∷ record { asked = 20; done = 21; outcome = cancelled }
    ∷ record { asked = 30; done = 31; outcome = answered }
    ∷ []

refines_example :
    (grants (with_clock 3 10) history ≡ true ∷ true ∷ true ∷ false ∷ true ∷ true ∷ [])
    × (mode_of (calls (with_clock 3 10) history) ≡ Mode.closed 0)
refines_example = refines 3 10 history (omega arith)
