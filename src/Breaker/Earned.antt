-- ===== src/Breaker/Earned.antt =====
-- rust/src/circuit_breaker.rs under concurrency: the failures of a run, and what each atomic
-- operation makes of them.
use maxgame_admin_guard.Base.{
  ℕ, ◌+◌, ◌≤◌, ◌≡◌, sym, subst, Bool, true, false, Option, none, some, List, [], ◌∷◌, ◌++◌, All,
  arith, not, ◌&&◌, ltb, if◌then◌else◌, Bool-cases, inl, inr,
}
use maxgame_admin_guard.Breaker.{
  CircuitBreaker, RequestPermit, settle, reset_failures, close, count_failure, open_after,
}
use maxgame_admin_guard.Breaker.System.{
  Phase, idle, failing, succeeding, zeroed, counted, Holder, first_report, System, Act,
  settle_failure, settle_success, count, open_circuit, zero_count, close_circuit, Step, advance,
  ask, act, drop, Reach, start, later,
}

-- How many failures a run has counted, after `f` before.
abbrev pub Act-failures :
    {now : ℕ} {b : CircuitBreaker} {h : Holder} {b' : CircuitBreaker} {h' : Holder}
    → Act now b h b' h'
    → ℕ
    → ℕ
Act-failures (settle_failure e p q) f = f
Act-failures (settle_success e p q) f = f
Act-failures (count e p q) f = f + 1
Act-failures (open_circuit n e p q) f = f
Act-failures (zero_count e p q) f = f
Act-failures (close_circuit e p q) f = f

abbrev pub Step-failures : {s t : System} → Step s t → ℕ → ℕ
Step-failures (advance d e) f = f
Step-failures (ask e) f = f
Step-failures (act xs ys h h' b' e a q) f = Act-failures a f
Step-failures (drop xs ys h e i q) f = f

abbrev pub failures : {n d : ℕ} {s : System} → Reach n d s → ℕ
failures (start now) = 0
failures (later r st) = Step-failures st (failures r)

-- A number that a holder has counted is no more than all.
abbrev PhaseFits : ℕ → Phase → Type 0
PhaseFits f (counted k) = k ≤ f
PhaseFits f p = Unit

PhaseFits-mono : (f g : ℕ) (p : Phase) → f ≤ g → PhaseFits f p → PhaseFits g p
PhaseFits-mono f g (counted k) le h = omega (arith, le, h)
PhaseFits-mono f g idle le h = tt
PhaseFits-mono f g failing le h = tt
PhaseFits-mono f g succeeding le h = tt
PhaseFits-mono f g zeroed le h = tt

module _ (n : ℕ) where
  abbrev pub Fits : ℕ → Holder → Type 0
  Fits f h = (h.permit.holds_probe ≡ true → n ≤ f) × PhaseFits f h.phase

  -- An open breaker has had its threshold of failures.
  abbrev pub Opened : ℕ → Option ℕ → Type 0
  Opened f none = Unit
  Opened f (some at) = n ≤ f

  pub record IsEarned (f : ℕ) (b : CircuitBreaker) : Type 0 where
    pub threshold : b.failure_threshold ≡ n
    pub counts : b.consecutive_failures ≤ f
    pub opened : Opened f b.opened_at

  Opened-enough : (f : ℕ) (o : Option ℕ) → n ≤ f → Opened f o
  Opened-enough f none le = tt
  Opened-enough f (some at) le = le

  Opened-mono : (f g : ℕ) (o : Option ℕ) → f ≤ g → Opened f o → Opened g o
  Opened-mono f g none le h = tt
  Opened-mono f g (some at) le h = omega (arith, le, h)

  Fits-mono : (f g : ℕ) (h : Holder) → f ≤ g → Fits f h → Fits g h
  Fits-mono f g h le t = (λ e. omega (arith, le, t.0 e), PhaseFits-mono f g h.phase le t.1)

  first_report-Fits :
      (f : ℕ) (p : RequestPermit) (phase : Phase)
      → (p.holds_probe ≡ true → n ≤ f)
      → PhaseFits f phase
      → Fits f (first_report p phase)
  unfolding settle
  first_report-Fits f p phase t h = (t, by_settled p.settled)
    where
      by_settled : (b : Bool) → PhaseFits f (if not b then phase else idle)
      by_settled true = tt
      by_settled false = h

  open_after-IsEarned :
      (f k now : ℕ) (b : CircuitBreaker) (probe : Bool)
      → k ≤ f
      → (probe ≡ true → n ≤ f)
      → IsEarned f b
      → IsEarned f (open_after k probe now b)
  unfolding open_after
  open_after-IsEarned f k now b probe le t i =
      elim (Bool-cases (ltb k b.failure_threshold && not probe)) [
        | inl below ↦ rw below i
        | inr enough ↦ rw enough (record {
          threshold = i.threshold;
          counts = i.counts;
          opened = Opened-enough f _ (ground (arith, enough, le, t, i.threshold));
        })
      ]

  pub Act-IsEarned :
      {now : ℕ} {b : CircuitBreaker} {h : Holder} {b' : CircuitBreaker} {h' : Holder} (f : ℕ)
      (a : Act now b h b' h')
      → IsEarned f b
      → Fits f h
      → IsEarned (Act-failures a f) b' × Fits (Act-failures a f) h'
  unfolding count_failure reset_failures close
  Act-IsEarned {h = h} f (settle_failure e p q) i t = (
    subst (IsEarned f) (sym p) i,
    subst (Fits f) (sym q) (first_report-Fits f h.permit failing t.0 tt),
  )
  Act-IsEarned {h = h} f (settle_success e p q) i t = (
    subst (IsEarned f) (sym p) i,
    subst (Fits f) (sym q) (first_report-Fits f h.permit succeeding t.0 tt),
  )
  Act-IsEarned {b = b} f (count e p q) i t = (
    subst (IsEarned (f + 1)) (sym p) (record {
      threshold = i.threshold;
      counts = omega (arith, i.counts);
      opened = Opened-mono f (f + 1) b.opened_at (omega arith) i.opened;
    }),
    subst (Fits (f + 1)) (sym q) (λ h. omega (arith, t.0 h), omega (arith, i.counts)),
  )
  Act-IsEarned {now} {b} {h} f (open_circuit k e p q) i t = (
    subst (IsEarned f) (sym p)
        (open_after-IsEarned f k now b h.permit.holds_probe (subst (PhaseFits f) e t.1) t.0 i),
    subst (Fits f) (sym q) (t.0, tt),
  )
  Act-IsEarned f (zero_count e p q) i t = (
    subst (IsEarned f) (sym p)
        (record { threshold = i.threshold; counts = omega arith; opened = i.opened }),
    subst (Fits f) (sym q) (t.0, tt),
  )
  Act-IsEarned f (close_circuit e p q) i t = (
    subst (IsEarned f) (sym p) (record { threshold = i.threshold; counts = i.counts; opened = tt }),
    subst (Fits f) (sym q) (t.0, tt),
  )

  pub Act-grows :
      {now : ℕ} {b : CircuitBreaker} {h : Holder} {b' : CircuitBreaker} {h' : Holder} (f : ℕ)
      (a : Act now b h b' h')
      → f ≤ Act-failures a f
  Act-grows f (settle_failure e p q) = omega arith
  Act-grows f (settle_success e p q) = omega arith
  Act-grows f (count e p q) = omega arith
  Act-grows f (open_circuit k e p q) = omega arith
  Act-grows f (zero_count e p q) = omega arith
  Act-grows f (close_circuit e p q) = omega arith

  All-Fits-mono : (f g : ℕ) (hs : List Holder) → f ≤ g → All (Fits f) hs → All (Fits g) hs
  All-Fits-mono f g [] le a = tt
  All-Fits-mono f g (h ∷ hs) le a = (Fits-mono f g h le a.0, All-Fits-mono f g hs le a.1)

  All-Fits-append :
      (f : ℕ) (xs ys : List Holder) → All (Fits f) xs → All (Fits f) ys → All (Fits f) (xs ++ ys)
  All-Fits-append f [] ys a b = b
  All-Fits-append f (x ∷ xs) ys a b = (a.0, All-Fits-append f xs ys a.1 b)

  -- The holder in the middle, and what may take its place.
  pub middle :
      (f : ℕ) (xs ys : List Holder) (h : Holder)
      → All (Fits f) (xs ++ h ∷ ys)
      → Fits f h
        × ((g : ℕ) (hs : List Holder) → f ≤ g → All (Fits g) hs → All (Fits g) (xs ++ (hs ++ ys)))
  middle f [] ys h a = (a.0, λ g hs le b. All-Fits-append g hs ys b (All-Fits-mono f g ys le a.1))
  middle f (x ∷ xs) ys h a =
      let (here, put) = middle f xs ys h a.1 in
      (here, λ g hs le b. (Fits-mono f g x le a.0, put g hs le b))
