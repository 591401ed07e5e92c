-- ===== src/Breaker/Opens.antt =====
-- rust/src/circuit_breaker.rs under concurrency: what it takes to open the breaker.
use maxgame_admin_guard.Base.{
  ℕ, ◌≤◌, ◌≡◌, refl, sym, subst, true, Option, none, some, List, [], ◌∷◌, All, arith, Bool-cases,
  inl, inr,
}
use maxgame_admin_guard.Breaker.{CircuitBreaker, RequestPermit, with_clock, allow_request}
use maxgame_admin_guard.Breaker.Permit
use maxgame_admin_guard.Breaker.System.{
  Holder, System, admit, Step, advance, ask, act, drop, Reach, start, later,
}
use maxgame_admin_guard.Breaker.Earned.{
  Act-failures, Step-failures, failures, Fits, Opened, IsEarned, Act-IsEarned, Act-grows, middle,
}

module _ (n : ℕ) where
  asked-IsEarned :
      (f now : ℕ) (b : CircuitBreaker) → IsEarned n f b → IsEarned n f (allow_request b now).0
  unfolding allow_request
  asked-IsEarned f now b i = record {
    threshold = ground (arith, i.threshold);
    counts = ground (arith, i.counts);
    opened = subst (Opened n f) (sym same) i.opened;
  }
    where
      same : (allow_request b now).0.opened_at ≡ b.opened_at
      same = ground arith

  asked-Fits :
      (f now : ℕ) (b : CircuitBreaker) (hs : List Holder)
      → IsEarned n f b
      → All (Fits n f) hs
      → All (Fits n f) (admit (allow_request b now).1 hs)
  asked-Fits f now b hs i a = admitted (allow_request b now).1 refl
    where
      earned : (p : RequestPermit) → (allow_request b now).1 ≡ some p → p.holds_probe ≡ true → n ≤ f
      earned p e h = unfold allow_request in ground (arith, i.opened, e, h)

      admitted :
          (o : Option RequestPermit) → (allow_request b now).1 ≡ o → All (Fits n f) (admit o hs)
      admitted none e = a
      admitted (some p) e = ((earned p e, tt), a)

  dropped-IsEarned :
      (f : ℕ) (b : CircuitBreaker) (p : RequestPermit)
      → IsEarned n f b
      → IsEarned n f (Permit.drop b p)
  unfolding Permit.drop
  dropped-IsEarned f b p i = elim (Bool-cases p.holds_probe) [
    | inl h ↦ rw h (record { threshold = i.threshold; counts = i.counts; opened = i.opened })
    | inr h ↦ rw h i
  ]

  abbrev Earned : ℕ → System → Type 0
  Earned f s = IsEarned n f s.breaker × All (Fits n f) s.holders

  Step-Earned : {s t : System} (f : ℕ) (st : Step s t) → Earned f s → Earned (Step-failures st f) t
  Step-Earned f (advance d e) i = subst (Earned f) (sym e) i
  Step-Earned {s} f (ask e) i =
      subst (Earned f) (sym e)
        (asked-IsEarned f s.now s.breaker i.0, asked-Fits f s.now s.breaker s.holders i.0 i.1)
  Step-Earned f (act xs ys h h' b' u a e) i =
      let (here, put) = middle n f xs ys h (subst (All (Fits n f)) u i.1) in
      let (earned, fits) = Act-IsEarned n f a i.0 here in
      subst (Earned (Act-failures a f)) (sym e)
        (earned, put (Act-failures a f) (h' ∷ []) (Act-grows n f a) (fits, tt))
  Step-Earned {s} f (drop xs ys h u p e) i =
      let (here, put) = middle n f xs ys h (subst (All (Fits n f)) u i.1) in
      subst (Earned f) (sym e)
        (dropped-IsEarned f s.breaker h.permit i.0, put f [] (omega arith) tt)

Reach-Earned : {n d : ℕ} {s : System} (r : Reach n d s) → Earned n (failures r) s
unfolding with_clock
Reach-Earned (start now) = (record { threshold = refl; counts = omega arith; opened = tt }, tt)
Reach-Earned (later r st) = Step-Earned _ (failures r) st (Reach-Earned r)

-- Under any interleaving the breaker is open only if the run has counted failures as many times as
-- the threshold says, whatever successes, probes and dropped permits came between.
pub opens_only_after :
    (n d : ℕ) (s : System) (r : Reach n d s) (at : ℕ)
    → s.breaker.opened_at ≡ some at
    → n ≤ failures r
opens_only_after n d s r at e = subst (Opened n (failures r)) e (Reach-Earned r).0.opened
