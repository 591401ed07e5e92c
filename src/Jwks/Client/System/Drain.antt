-- ===== src/Jwks/Client/System/Drain.antt =====
-- rust/src/jwks.rs under concurrency: `resolve_key` does not hang. A task that is not waiting for
-- another can always go on, and one that waits has a task to wait for.
use maxgame_admin_guard.Base.{
  inl, inr, ◌⊎◌, ap, ◌∙◌, ℕ, zero, suc, ◌+◌, ◌≤◌, ◌<◌, ◌≡◌, refl, List, [], ◌∷◌, ◌++◌, map, arith,
}
use maxgame_admin_guard.Error.{GuardResult}
use maxgame_admin_guard.Jwks.{AdminJwksClientConfig, KeySet}
use maxgame_admin_guard.Jwks.Client.{AdminJwksClient, claim}
use maxgame_admin_guard.Jwks.Client.System.{
  Phase, looking, joining, registered, waiting, woken, fetching, committed, notifying, settled,
  Task, System, wake, claimed, begun, Act, register, reread, leave, commit_fetch, clear_flag,
  release, Step, make_claim, act, notify, Reach, later,
}
use maxgame_admin_guard.Jwks.Client.System.Weights.{total, in_flight, announces, waits}
use maxgame_admin_guard.Jwks.Client.System.Safety.{no_lost_wakeup}
use maxgame_admin_guard.Jwks.Client.System.Progress.{
  rank, rank-positive, task_step, arrival, Step-rank, Run, done, then, arrivals,
}
use maxgame_admin_guard.Jwks.Client.System.Kept.{
  unless_woken, act_drops, drops, all_drops, ActBrings, StepBrings, RunBrings,
}

-- A task that can act without another.
record Ready (ts : List Task) : Type 0 where
  before : List Task
  after : List Task
  task : Task
  stands : ts ≡ before ++ task ∷ after
  awake : waits task.phase ≡ 0

waits-phase : (p : Phase) → (waits p ≡ 0) ⊎ ((waits p ≡ 1) × (in_flight p + announces p ≡ 0))
waits-phase waiting = inr (refl, refl)
waits-phase looking = inl refl
waits-phase joining = inl refl
waits-phase registered = inl refl
waits-phase woken = inl refl
waits-phase (fetching permit) = inl refl
waits-phase (committed permit) = inl refl
waits-phase (notifying permit) = inl refl
waits-phase (settled permit) = inl refl

find-Ready :
    (t : Task) (ts : List Task)
    → Ready (t ∷ ts)
      ⊎ ((0 < total waits (t ∷ ts)) × (total in_flight (t ∷ ts) + total announces (t ∷ ts) ≡ 0))
find-Ready t [] = elim (waits-phase t.phase) [
  | inl w ↦ inl (record { before = []; after = []; task = t; stands = refl; awake = w })
  | inr (w, n) ↦ inr (omega (arith, w), omega (arith, n))
]
find-Ready t (u ∷ ts) = elim (find-Ready u ts) [
  | inl r ↦ inl (record {
    before = t ∷ r.before;
    after = r.after;
    task = r.task;
    stands = ap (λ l. t ∷ l) r.stands;
    awake = r.awake;
  })
  | inr (ws, ns) ↦ elim (waits-phase t.phase) [
    | inl w ↦ inl (record { before = []; after = u ∷ ts; task = t; stands = refl; awake = w })
    | inr (w, n) ↦ inr (omega (arith, w, ws), omega (arith, n, ns))
  ]
]

-- A step of a task that drops nothing.
record Next {Key : Type 0} (bring : System Key → Task → GuardResult (KeySet Key × ℕ))
    (s : System Key) : Type 0 where
  after : System Key
  step : Step s after
  counted : task_step step ≡ 1
  called : arrival step ≡ 0
  kept : drops step ≡ 0
  brought : StepBrings bring step

module _ {Key : Type 0} (bring : System Key → Task → GuardResult (KeySet Key × ℕ)) (s : System Key)
    (xs ys : List Task) (k : Task) (u : s.tasks ≡ xs ++ k ∷ ys) where
  by_act :
      {c : AdminJwksClient Key} {ts : List Task} (a : Act s.now s.client k c ts)
      → act_drops a ≡ 0
      → ActBrings (bring s k) a
      → Next bring s
  by_act {c = c} {ts = ts} a d b = record {
    after = record s { client = c; tasks = xs ++ (ts ++ ys) };
    step = act xs ys ts k c u a refl;
    counted = refl;
    called = refl;
    kept = d;
    brought = b;
  }

  step_from : (p : Phase) → k.phase ≡ p → waits p ≡ 0 → Next bring s
  step_from looking p w = record {
    after = record s {
      client = (claim s.client k.kid s.now).0;
      tasks = xs ++ (claimed k (claim s.client k.kid s.now).1 ++ ys);
      fetches = begun s.now (claim s.client k.kid s.now).1 s.fetches;
    };
    step = make_claim xs ys k u p refl;
    counted = refl;
    called = refl;
    kept = refl;
    brought = tt;
  }
  step_from joining p w = by_act (register p refl refl) refl tt
  step_from registered p w = by_act (reread p refl refl) refl tt
  step_from waiting p w = cc
  step_from woken p w = by_act (leave (cc) refl refl) (ap unless_woken p) tt
  step_from (fetching permit) p w = by_act (commit_fetch permit (bring s k) p refl refl) refl refl
  step_from (committed permit) p w = by_act (clear_flag permit p refl refl) refl tt
  step_from (notifying permit) p w = record {
    after = record s { tasks = map wake (xs ++ record k { phase = settled permit } ∷ ys) };
    step = notify xs ys k permit u p refl;
    counted = refl;
    called = refl;
    kept = refl;
    brought = tt;
  }
  step_from (settled permit) p w = by_act (release permit p refl refl) refl tt

-- In a reachable state with a task, some task can go on.
progress :
    {Key : Type 0} (bring : System Key → Task → GuardResult (KeySet Key × ℕ))
    (config : AdminJwksClientConfig) (s : System Key)
    → Reach config s
    → (k : Task) (ts : List Task) → s.tasks ≡ k ∷ ts
    → Next bring s
progress bring config s reach k ts e = elim (find-Ready k ts) [
  | inl f ↦ step_from bring s f.before f.after f.task (e ∙ f.stands) f.task.phase refl f.awake
  | inr (ws, ns) ↦ ground (arith, e, ws, ns, no_lost_wakeup config s reach)
]

-- A run that leaves no task, without new calls and without a drop.
pub record Drained {Key : Type 0} (bring : System Key → Task → GuardResult (KeySet Key × ℕ))
    (s : System Key) : Type 0 where
  pub last : System Key
  pub run : Run s last
  pub empty : last.tasks ≡ []
  pub no_calls : arrivals run ≡ 0
  pub no_drops : all_drops run ≡ 0
  pub brings : RunBrings bring run

module _ {Key : Type 0} (bring : System Key → Task → GuardResult (KeySet Key × ℕ))
    (config : AdminJwksClientConfig) {s : System Key} where
  drain :
      (n : ℕ) (t : System Key) (run : Run s t) (ts : List Task)
      → t.tasks ≡ ts
      → Reach config t
      → arrivals run ≡ 0
      → all_drops run ≡ 0
      → RunBrings bring run
      → total rank ts ≤ n
      → Drained bring s
  drain n t run [] e reach a d b h = record {
    last = t;
    run = run;
    empty = e;
    no_calls = a;
    no_drops = d;
    brings = b;
  }
  drain zero t run (k ∷ ts) e reach a d b h = absurd (omega (arith, rank-positive k.phase, h))
  drain (suc n) t run (k ∷ ts) e reach a d b h =
      let next = progress bring config t reach k ts e in
      drain n next.after (then run next.step) next.after.tasks refl (later reach next.step)
        (omega (arith, next.called, a)) (omega (arith, next.kept, d)) (next.brought, b)
        (ground (arith, h, e, next.called, next.counted, Step-rank next.step))

-- From every state that any interleaving reaches, the calls under way can all come to their end
-- without one more call and without a drop, whatever the fetches that are out and that are still
-- to begin bring: no set of tasks, however their steps fell, waits for good.
pub every_call_can_finish :
    {Key : Type 0} (bring : System Key → Task → GuardResult (KeySet Key × ℕ))
    (config : AdminJwksClientConfig) (s : System Key)
    → Reach config s
    → Drained bring s
every_call_can_finish bring config s reach =
    drain bring config (total rank s.tasks) s (done refl) s.tasks refl reach refl refl tt
      (omega arith)
