-- ===== src/Jwks/Client/System/Safety.antt =====
-- rust/src/jwks.rs under concurrency: the fetches that are out, the probe, and the waiters.
use maxgame_admin_guard.Base.{
  ℕ, ◌+◌, ◌≤◌, ◌<◌, ◌≡◌, ◌↔◌, refl, sym, ap, ◌∙◌, true, List, ◌∷◌, ◌++◌, arith, subst,
}
use maxgame_admin_guard.Breaker.{with_clock}
use maxgame_admin_guard.Jwks.{AdminJwksClientConfig}
use maxgame_admin_guard.Jwks.Client.{new, claim}
use maxgame_admin_guard.Jwks.Client.System.{
  Phase, settled, Task, System, claimed, Step, advance, arrive, make_claim, act, notify, Reach,
  start, later,
}
use maxgame_admin_guard.Jwks.Client.System.Weights.{
  bit, total, total-middle, total-between, in_flight, announces, waits, probing, wake-total,
  wake-waits,
}
use maxgame_admin_guard.Jwks.Client.System.Replaced.{IsReplaced, Act-IsReplaced, claim-IsReplaced}

-- The flag is set exactly while a task's fetch is out, the probe is out exactly while a task holds
-- it, and a task that waits has somebody to wake it.
record IsSound {Key : Type 0} (s : System Key) : Type 0 where
  pub flag : total in_flight s.tasks ≡ bit s.client.fetch_in_flight
  pub probe : total probing s.tasks ≡ bit s.client.breaker.probe_in_flight
  pub wakers : 0 < total waits s.tasks → 0 < total in_flight s.tasks + total announces s.tasks

replaced-IsSound :
    {Key : Type 0} {s t : System Key} (xs ys ts : List Task) (k : Task)
    → s.tasks ≡ xs ++ k ∷ ys
    → t.tasks ≡ xs ++ (ts ++ ys)
    → IsReplaced s.client t.client k ts
    → IsSound s
    → IsSound t
replaced-IsSound xs ys ts k u v r i =
    let there = λ (f : Phase → ℕ). ap (total f) u ∙ total-middle f xs ys k in
    let back = λ (f : Phase → ℕ). ap (total f) v ∙ total-between f xs ts ys in
    let rest = λ (f : Phase → ℕ). total f (xs ++ ys) in
    let flagged = sym (there in_flight) ∙ i.flag in
    record {
      flag = back in_flight ∙ r.flag (rest in_flight) flagged;
      probe = back probing ∙ r.probe (rest probing) (sym (there probing) ∙ i.probe);
      wakers = λ w.
          rw (back in_flight, back announces)
            (r.wakers (rest in_flight) (rest announces) (rest waits) flagged
              (rw (sym (there waits), sym (there in_flight), sym (there announces)) i.wakers)
              (rw (back waits) at w));
    }

Step-IsSound : {Key : Type 0} {s t : System Key} → Step s t → IsSound s → IsSound t
Step-IsSound (advance d e) i =
    subst IsSound (sym e) (record { flag = i.flag; probe = i.probe; wakers = i.wakers })
Step-IsSound (arrive kid e) i = subst IsSound (sym e) (record {
  flag = omega (arith, i.flag);
  probe = omega (arith, i.probe);
  wakers = λ w. omega (arith, i.wakers (omega (arith, w)));
})
Step-IsSound {s = s} (make_claim xs ys k u p e) i = subst IsSound (sym e) (
    replaced-IsSound xs ys (claimed k (claim s.client k.kid s.now).1) k u refl
      (claim-IsReplaced s.client k s.now p) i)
Step-IsSound (act xs ys ts k client u a e) i =
    subst IsSound (sym e) (replaced-IsSound xs ys ts k u refl (Act-IsReplaced a) i)
Step-IsSound {s = s} (notify xs ys k permit u p e) i =
    let k' = record k { phase = settled permit } in
    record {
      flag = ground (
        arith,
        i.flag,
        total-middle in_flight xs ys k,
        total-middle in_flight xs ys k',
        wake-total in_flight refl refl (xs ++ k' ∷ ys),
      );
      probe = ground (
        arith,
        i.probe,
        total-middle probing xs ys k,
        total-middle probing xs ys k',
        wake-total probing refl refl (xs ++ k' ∷ ys),
      );
      wakers = ground (arith, wake-waits (xs ++ k' ∷ ys));
    }

Reach-IsSound :
    {Key : Type 0} {config : AdminJwksClientConfig} {s : System Key} → Reach config s → IsSound s
unfolding new with_clock
Reach-IsSound (start now) = record { flag = refl; probe = refl; wakers = λ w. omega (arith, w) }
Reach-IsSound (later r st) = Step-IsSound st (Reach-IsSound r)

-- In every state that any interleaving reaches, at most one task's fetch is out, and the flag is
-- set exactly while one is; likewise for the tasks that hold the breaker's probe.
pub single_flight :
    {Key : Type 0} (config : AdminJwksClientConfig) (s : System Key)
    → Reach config s
    → (total in_flight s.tasks ≤ 1)
      × (s.client.fetch_in_flight ≡ true ↔ 0 < total in_flight s.tasks)
      × (total probing s.tasks ≤ 1)
      × (s.client.breaker.probe_in_flight ≡ true ↔ 0 < total probing s.tasks)
single_flight config s r =
    let i = Reach-IsSound r in
    (
      ground (arith, i.flag),
      ground (arith, i.flag),
      ground (arith, i.probe),
      ground (arith, i.probe),
    )

-- No wake-up is lost: in every reachable state in which a task waits for a fetch to settle, some
-- task has still to clear the flag or to send the notification, although its future, like any
-- other, may be dropped at any await.
pub no_lost_wakeup :
    {Key : Type 0} (config : AdminJwksClientConfig) (s : System Key)
    → Reach config s
    → 0 < total waits s.tasks
    → 0 < total in_flight s.tasks + total announces s.tasks
no_lost_wakeup config s r w = (Reach-IsSound r).wakers w
