-- ===== src/Breaker/System.antt =====
-- rust/src/circuit_breaker.rs under concurrency: any number of permits, whose holders interleave
-- the atomic operations of the methods. A report is three operations: the swap of `settled`, the
-- counter's, and the update under the lock. A permit is dropped between methods, reported or not,
-- which is what a cancelled future does.
use maxgame_admin_guard.Base.{
  ℕ, ◌+◌, ◌≤◌, ◌<◌, ◌≡◌, ◌↔◌, refl, Bool, true, false, Option, none, some, List, [], ◌∷◌, ◌++◌,
  arith, if◌then◌else◌,
}
use maxgame_admin_guard.Breaker.{
  CircuitBreaker, RequestPermit, with_clock, allow_request, settle, reset_failures, close,
  count_failure, open_after,
}
use maxgame_admin_guard.Breaker.Permit
use maxgame_admin_guard.Breaker.Laws.{IsDue, allow-of-Due}

-- Where a permit's holder stands inside a report.
pub data Phase : Type 0 where
  idle failing succeeding zeroed : Phase
  counted : ℕ → Phase

pub record Holder : Type 0 where
  pub permit : RequestPermit
  pub phase : Phase

pub record System : Type 0 where
  pub breaker : CircuitBreaker
  pub now : ℕ
  pub holders : List Holder

abbrev pub first_report : RequestPermit → Phase → Holder
first_report p phase = record {
  permit = (settle p).0;
  phase = if (settle p).1 then phase else idle;
}

-- One atomic operation of a holder.
pub data Act (now : ℕ) (b : CircuitBreaker) (h : Holder) (b' : CircuitBreaker) (h' : Holder)
    : Type 0 where
  settle_failure : h.phase ≡ idle → b' ≡ b → h' ≡ first_report h.permit failing → Act now b h b' h'
  settle_success :
      h.phase ≡ idle → b' ≡ b → h' ≡ first_report h.permit succeeding → Act now b h b' h'
  count :
      h.phase ≡ failing
      → b' ≡ (count_failure b).0
      → h' ≡ record h { phase = counted (count_failure b).1 }
      → Act now b h b' h'
  open_circuit :
      (failures : ℕ)
      → h.phase ≡ counted failures
      → b' ≡ open_after failures h.permit.holds_probe now b
      → h' ≡ record h { phase = idle }
      → Act now b h b' h'
  zero_count :
      h.phase ≡ succeeding
      → b' ≡ reset_failures b
      → h' ≡ record h { phase = zeroed }
      → Act now b h b' h'
  close_circuit :
      h.phase ≡ zeroed → b' ≡ close b → h' ≡ record h { phase = idle } → Act now b h b' h'

abbrev pub admit : Option RequestPermit → List Holder → List Holder
admit none hs = hs
admit (some p) hs = record { permit = p; phase = idle } ∷ hs

pub data Step (s t : System) : Type 0 where
  advance : (d : ℕ) → t ≡ record s { now = s.now + d } → Step s t
  ask :
      t ≡ record s {
        breaker = (allow_request s.breaker s.now).0;
        holders = admit (allow_request s.breaker s.now).1 s.holders;
      }
      → Step s t
  act :
      (xs ys : List Holder) (h h' : Holder) (b' : CircuitBreaker)
      → s.holders ≡ xs ++ h ∷ ys
      → Act s.now s.breaker h b' h'
      → t ≡ record s { breaker = b'; holders = xs ++ h' ∷ ys }
      → Step s t
  drop :
      (xs ys : List Holder) (h : Holder)
      → s.holders ≡ xs ++ h ∷ ys
      → h.phase ≡ idle
      → t ≡ record s { breaker = Permit.drop s.breaker h.permit; holders = xs ++ ys }
      → Step s t

abbrev pub init : ℕ → ℕ → ℕ → System
init failure_threshold reset_after now = record {
  breaker = with_clock failure_threshold reset_after;
  now = now;
  holders = [];
}

pub data Reach (failure_threshold reset_after : ℕ) : System → Type 0 where
  start : (now : ℕ) → Reach failure_threshold reset_after (init failure_threshold reset_after now)
  later :
      {s t : System}
      → Reach failure_threshold reset_after s
      → Step s t
      → Reach failure_threshold reset_after t

abbrev bit : Bool → ℕ
bit true = 1
bit false = 0

-- How many live permits hold the probe.
unfoldable pub probes : List Holder → ℕ
probes [] = 0
probes (h ∷ hs) = bit h.permit.holds_probe + probes hs

probes-append : (xs ys : List Holder) → probes (xs ++ ys) ≡ probes xs + probes ys
unfolding probes
probes-append [] ys = omega arith
probes-append (x ∷ xs) ys = omega (arith, probes-append xs ys)

probes-middle :
    (xs ys : List Holder) (h : Holder)
    → probes (xs ++ h ∷ ys) ≡ bit h.permit.holds_probe + probes (xs ++ ys)
unfolding probes
probes-middle xs ys h = omega (arith, probes-append xs (h ∷ ys), probes-append xs ys)

Act-keeps :
    {now : ℕ} {b : CircuitBreaker} {h : Holder} {b' : CircuitBreaker} {h' : Holder}
    → Act now b h b' h'
    → (b'.probe_in_flight ≡ b.probe_in_flight) × (h'.permit.holds_probe ≡ h.permit.holds_probe)
unfolding settle count_failure open_after reset_failures close
Act-keeps (settle_failure e p q) = ground arith
Act-keeps (settle_success e p q) = ground arith
Act-keeps (count e p q) = ground arith
Act-keeps (open_circuit n e p q) = ground arith
Act-keeps (zero_count e p q) = ground arith
Act-keeps (close_circuit e p q) = ground arith

-- The flag is set exactly while one live permit holds the probe.
abbrev pub IsCounted : System → Type 0
IsCounted s = probes s.holders ≡ bit s.breaker.probe_in_flight

Step-IsCounted : {s t : System} → Step s t → IsCounted s → IsCounted t
unfolding allow_request probes Permit.drop
Step-IsCounted (advance d e) c = ground arith
Step-IsCounted {s} {t} (ask e) c = ground arith
Step-IsCounted {s} {t} (act xs ys h h' b' e a q) c =
    ground (arith, probes-middle xs ys h, probes-middle xs ys h', Act-keeps a)
Step-IsCounted {s} {t} (drop xs ys h e i q) c = ground (arith, probes-middle xs ys h)

Reach-IsCounted : {n d : ℕ} {s : System} → Reach n d s → IsCounted s
unfolding probes with_clock
Reach-IsCounted (start now) = refl
Reach-IsCounted (later r st) = Step-IsCounted st (Reach-IsCounted r)

-- In every state that any interleaving of calls, reports, drops and waits reaches, at most one
-- live permit holds the half-open probe, and `probe_in_flight` is set exactly when one does.
pub one_probe :
    (n d : ℕ) (s : System)
    → Reach n d s
    → (probes s.holders ≤ 1) × (s.breaker.probe_in_flight ≡ true ↔ 0 < probes s.holders)
one_probe n d s r = let c = Reach-IsCounted r in (ground (arith, c), ground (arith, c))

-- The breaker is never a latch: in every reachable state in which no live permit holds the probe,
-- a call is let through as soon as the breaker is closed or its window has passed.
pub never_latched :
    (n d : ℕ) (s : System)
    → Reach n d s
    → probes s.holders ≡ 0
    → IsDue s.breaker s.now
    → (p : RequestPermit) × ((allow_request s.breaker s.now).1 ≡ some p)
never_latched n d s r none_out due =
    let c = Reach-IsCounted r in
    allow-of-Due s.breaker s.now s.breaker.opened_at refl due (ground (arith, c))
