-- ===== src/Jwks/Client/System/Kept.antt =====
-- rust/src/jwks.rs under concurrency: which steps drop a task's future, and what fetches bring.
use maxgame_admin_guard.Base.{ℕ, ◌+◌, ◌≡◌, List}
use maxgame_admin_guard.Error.{GuardResult}
use maxgame_admin_guard.Jwks.{KeySet}
use maxgame_admin_guard.Jwks.Client.{AdminJwksClient}
use maxgame_admin_guard.Jwks.Client.System.{
  Phase, woken, Task, System, Act, register, reread, leave, commit_fetch, cancel, clear_flag,
  release, Step, advance, arrive, make_claim, act, notify,
}
use maxgame_admin_guard.Jwks.Client.System.Progress.{Run, done, then}

-- Whether the step drops a task's future: a lease that ends with no answer, or a task that leaves
-- without having been woken.
abbrev pub unless_woken : Phase → ℕ
unless_woken woken = 0
unless_woken p = 1

abbrev pub act_drops :
    {Key : Type 0} {now : ℕ} {c c' : AdminJwksClient Key} {t : Task} {ts : List Task}
    → Act now c t c' ts
    → ℕ
act_drops (register p q e) = 0
act_drops (reread p q e) = 0
act_drops {t = t} (leave p q e) = unless_woken t.phase
act_drops (commit_fetch permit r p q e) = 0
act_drops (cancel permit p q e) = 1
act_drops (clear_flag permit p q e) = 0
act_drops (release permit p q e) = 0

abbrev pub drops : {Key : Type 0} {s t : System Key} → Step s t → ℕ
drops (advance d e) = 0
drops (arrive kid e) = 0
drops (make_claim xs ys k u p e) = 0
drops (act xs ys ts k client u a e) = act_drops a
drops (notify xs ys k permit u p e) = 0

-- The run's fetches bring what `bring` says.
abbrev pub ActBrings :
    {Key : Type 0} {now : ℕ} {c c' : AdminJwksClient Key} {t : Task} {ts : List Task}
    → GuardResult (KeySet Key × ℕ)
    → Act now c t c' ts
    → Type 0
ActBrings r (register p q e) = Unit {0}
ActBrings r (reread p q e) = Unit {0}
ActBrings r (leave p q e) = Unit {0}
ActBrings r (commit_fetch permit fetched p q e) = fetched ≡ r
ActBrings r (cancel permit p q e) = Unit {0}
ActBrings r (clear_flag permit p q e) = Unit {0}
ActBrings r (release permit p q e) = Unit {0}

abbrev pub StepBrings :
    {Key : Type 0} {s t : System Key}
    → (System Key → Task → GuardResult (KeySet Key × ℕ))
    → Step s t
    → Type 0
StepBrings bring (advance d e) = Unit {0}
StepBrings bring (arrive kid e) = Unit {0}
StepBrings bring (make_claim xs ys k u p e) = Unit {0}
StepBrings {s = s} bring (act xs ys ts k client u a e) = ActBrings (bring s k) a
StepBrings bring (notify xs ys k permit u p e) = Unit {0}

abbrev pub RunBrings :
    {Key : Type 0} {s t : System Key}
    → (System Key → Task → GuardResult (KeySet Key × ℕ))
    → Run s t
    → Type 0
RunBrings bring (done e) = Unit {0}
RunBrings bring (then r st) = StepBrings bring st × RunBrings bring r

abbrev pub all_drops : {Key : Type 0} {s t : System Key} → Run s t → ℕ
all_drops (done e) = 0
all_drops (then r st) = drops st + all_drops r
