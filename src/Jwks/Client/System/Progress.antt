-- ===== src/Jwks/Client/System/Progress.antt =====
-- rust/src/jwks.rs under concurrency: `resolve_key` does not spin. Each step of a task lowers
-- the tasks' rank.
use maxgame_admin_guard.Base.{ℕ, ◌+◌, ◌*◌, ◌≤◌, ◌<◌, ◌≡◌, List, [], ◌∷◌, ◌++◌, map, arith}
use maxgame_admin_guard.Jwks.Client.{AdminJwksClient, Claim, answered, joined, leading, claim}
use maxgame_admin_guard.Jwks.Client.System.{
  Phase, looking, joining, registered, waiting, woken, fetching, committed, notifying, settled,
  Task, System, wake_phase, wake, claimed, Act, register, reread, leave, commit_fetch, cancel,
  clear_flag, release, Step, advance, arrive, make_claim, act, notify,
}
use maxgame_admin_guard.Jwks.Client.System.Weights.{total, total-middle, total-between}

-- How many steps a task has before it at most.
abbrev pub rank : Phase → ℕ
rank looking = 5
rank joining = 4
rank registered = 3
rank waiting = 2
rank woken = 1
rank (fetching permit) = 4
rank (committed permit) = 3
rank (notifying permit) = 2
rank (settled permit) = 1

wake_phase-rank : (p : Phase) → rank (wake_phase p) ≤ rank p
wake_phase-rank looking = omega arith
wake_phase-rank joining = omega arith
wake_phase-rank registered = omega arith
wake_phase-rank waiting = omega arith
wake_phase-rank woken = omega arith
wake_phase-rank (fetching permit) = omega arith
wake_phase-rank (committed permit) = omega arith
wake_phase-rank (notifying permit) = omega arith
wake_phase-rank (settled permit) = omega arith

wake-rank : (ts : List Task) → total rank (map wake ts) ≤ total rank ts
wake-rank [] = omega arith
wake-rank (t ∷ ts) = omega (arith, wake_phase-rank t.phase, wake-rank ts)

pub rank-positive : (p : Phase) → 0 < rank p
rank-positive looking = omega arith
rank-positive joining = omega arith
rank-positive registered = omega arith
rank-positive waiting = omega arith
rank-positive woken = omega arith
rank-positive (fetching permit) = omega arith
rank-positive (committed permit) = omega arith
rank-positive (notifying permit) = omega arith
rank-positive (settled permit) = omega arith

claimed-rank : {Key : Type 0} (k : Task) (a : Claim Key) → total rank (claimed k a) ≤ 4
claimed-rank k (answered answer) = omega arith
claimed-rank k joined = omega arith
claimed-rank k (leading permit) = omega arith

Act-rank :
    {Key : Type 0} {now : ℕ} {c c' : AdminJwksClient Key} {t : Task} {ts : List Task}
    → Act now c t c' ts
    → total rank ts < rank t.phase
Act-rank (register p q e) = ground arith
Act-rank (reread p q e) = ground arith
Act-rank {t = t} (leave p q e) = ground (arith, rank-positive t.phase)
Act-rank (commit_fetch permit r p q e) = ground arith
Act-rank (cancel permit p q e) = ground arith
Act-rank (clear_flag permit p q e) = ground arith
Act-rank (release permit p q e) = ground arith

-- The steps of the tasks themselves; the others are of the clock and of the callers.
abbrev pub task_step : {Key : Type 0} {s t : System Key} → Step s t → ℕ
task_step (advance d e) = 0
task_step (arrive kid e) = 0
task_step (make_claim xs ys k u p e) = 1
task_step (act xs ys ts k client u a e) = 1
task_step (notify xs ys k permit u p e) = 1

abbrev pub arrival : {Key : Type 0} {s t : System Key} → Step s t → ℕ
arrival (advance d e) = 0
arrival (arrive kid e) = 1
arrival (make_claim xs ys k u p e) = 0
arrival (act xs ys ts k client u a e) = 0
arrival (notify xs ys k permit u p e) = 0

pub Step-rank :
    {Key : Type 0} {s t : System Key} (st : Step s t)
    → task_step st + total rank t.tasks ≤ total rank s.tasks + 5 * arrival st
Step-rank (advance d e) = ground arith
Step-rank (arrive kid e) = ground arith
Step-rank {s = s} (make_claim xs ys k u p e) = ground (
  arith,
  total-middle rank xs ys k,
  total-between rank xs (claimed k (claim s.client k.kid s.now).1) ys,
  claimed-rank k (claim s.client k.kid s.now).1,
)
Step-rank (act xs ys ts k client u a e) =
    ground (arith, total-middle rank xs ys k, total-between rank xs ts ys, Act-rank a)
Step-rank (notify xs ys k permit u p e) =
    let k' : Task = record k { phase = settled permit } in
    ground (arith, total-middle rank xs ys k, total-middle rank xs ys k', wake-rank (xs ++ k' ∷ ys))

pub data Run {Key : Type 0} (s : System Key) : System Key → Type 0 where
  done : {t : System Key} → t ≡ s → Run s t
  then : {t u : System Key} → Run s t → Step t u → Run s u

abbrev pub task_steps : {Key : Type 0} {s t : System Key} → Run s t → ℕ
task_steps (done e) = 0
task_steps (then r st) = task_step st + task_steps r

abbrev pub arrivals : {Key : Type 0} {s t : System Key} → Run s t → ℕ
arrivals (done e) = 0
arrivals (then r st) = arrival st + arrivals r

-- However the tasks interleave, whatever the fetches bring and whichever futures are dropped: in
-- any run the tasks take at most five steps for each call that arrives, beyond those that the
-- tasks present at the start have left. So no call loops, and a run in which no more calls arrive
-- has only so many steps of tasks.
pub task_steps-bounded :
    {Key : Type 0} {s t : System Key} (r : Run s t)
    → task_steps r + total rank t.tasks ≤ total rank s.tasks + 5 * arrivals r
task_steps-bounded {s = s} (done e) = ground arith
task_steps-bounded (then r st) = omega (arith, Step-rank st, task_steps-bounded r)
