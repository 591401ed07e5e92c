-- ===== src/Jwks/Client/System/Weights.antt =====
-- Counts over the tasks of `System`: how many are in the phases that matter.
use maxgame_admin_guard.Base.{
  ℕ, ◌+◌, ◌≡◌, refl, sym, Bool, true, false, List, [], ◌∷◌, ◌++◌, map, arith,
}
use maxgame_admin_guard.Jwks.Client.System.{
  Phase, looking, joining, registered, waiting, woken, fetching, committed, notifying, settled,
  Task, wake_phase, wake, is_leader,
}

abbrev pub bit : Bool → ℕ
bit true = 1
bit false = 0

abbrev pub total : (Phase → ℕ) → List Task → ℕ
total f [] = 0
total f (t ∷ ts) = f t.phase + total f ts

pub total-append :
    (f : Phase → ℕ) (xs ys : List Task) → total f (xs ++ ys) ≡ total f xs + total f ys
total-append f [] ys = omega arith
total-append f (x ∷ xs) ys = omega (arith, total-append f xs ys)

pub total-middle :
    (f : Phase → ℕ) (xs ys : List Task) (t : Task)
    → total f (xs ++ t ∷ ys) ≡ f t.phase + total f (xs ++ ys)
total-middle f xs ys t = omega (arith, total-append f xs (t ∷ ys), total-append f xs ys)

pub total-between :
    (f : Phase → ℕ) (xs ts ys : List Task)
    → total f (xs ++ (ts ++ ys)) ≡ total f ts + total f (xs ++ ys)
total-between f xs ts ys =
    omega (arith, total-append f xs (ts ++ ys), total-append f ts ys, total-append f xs ys)

-- A task whose fetch is out: its lease still holds the flag.
abbrev pub in_flight : Phase → ℕ
in_flight (fetching permit) = 1
in_flight (committed permit) = 1
in_flight p = 0

-- A task about to send the notification.
abbrev pub announces : Phase → ℕ
announces (notifying permit) = 1
announces p = 0

abbrev pub waits : Phase → ℕ
waits waiting = 1
waits p = 0

-- A task whose permit holds the breaker's probe.
abbrev pub probing : Phase → ℕ
probing (fetching permit) = bit permit.holds_probe
probing (committed permit) = bit permit.holds_probe
probing (notifying permit) = bit permit.holds_probe
probing (settled permit) = bit permit.holds_probe
probing p = 0

pub wake_phase-weight :
    (f : Phase → ℕ)
    → f registered ≡ f woken
    → f waiting ≡ f woken
    → (p : Phase) → f (wake_phase p) ≡ f p
wake_phase-weight f r w registered = sym r
wake_phase-weight f r w waiting = sym w
wake_phase-weight f r w looking = refl
wake_phase-weight f r w joining = refl
wake_phase-weight f r w woken = refl
wake_phase-weight f r w (fetching permit) = refl
wake_phase-weight f r w (committed permit) = refl
wake_phase-weight f r w (notifying permit) = refl
wake_phase-weight f r w (settled permit) = refl

pub wake-total :
    (f : Phase → ℕ)
    → f registered ≡ f woken
    → f waiting ≡ f woken
    → (ts : List Task) → total f (map wake ts) ≡ total f ts
wake-total f r w [] = refl
wake-total f r w (t ∷ ts) = omega (arith, wake_phase-weight f r w t.phase, wake-total f r w ts)

pub wake_phase-waits : (p : Phase) → waits (wake_phase p) ≡ 0
wake_phase-waits registered = refl
wake_phase-waits waiting = refl
wake_phase-waits looking = refl
wake_phase-waits joining = refl
wake_phase-waits woken = refl
wake_phase-waits (fetching permit) = refl
wake_phase-waits (committed permit) = refl
wake_phase-waits (notifying permit) = refl
wake_phase-waits (settled permit) = refl

pub wake-waits : (ts : List Task) → total waits (map wake ts) ≡ 0
wake-waits [] = refl
wake-waits (t ∷ ts) = omega (arith, wake_phase-waits t.phase, wake-waits ts)

-- A task that leads no fetch weighs nothing in the counts of leaders.
pub joiner-weight :
    (p : Phase) → is_leader p ≡ false → (in_flight p ≡ 0) × (probing p ≡ 0) × (announces p ≡ 0)
joiner-weight looking h = (refl, refl, refl)
joiner-weight joining h = (refl, refl, refl)
joiner-weight registered h = (refl, refl, refl)
joiner-weight waiting h = (refl, refl, refl)
joiner-weight woken h = (refl, refl, refl)
joiner-weight (fetching permit) h = cc
joiner-weight (committed permit) h = cc
joiner-weight (notifying permit) h = cc
joiner-weight (settled permit) h = cc
