-- ===== src/Jwks/Client/System.antt =====
-- rust/src/jwks.rs under concurrency: any number of tasks inside `resolve_key` on one client.
-- The two sections under the write lock are one step each, since no other task holds the lock
-- meanwhile. A joiner's steps under that lock, and each half of the lease's end, are steps of their
-- own, interleaved with all others; that the lock would exclude some of these orders is not used.
-- `cancel` and `leave` are the drop of a task's future.
pub mod Weights
pub mod Replaced
pub mod Safety
pub mod Floor
pub mod Progress
pub mod Kept
pub mod Drain
pub mod Origin
pub mod Age
pub mod Early
use maxgame_admin_guard.Base.{
  ℕ, ◌+◌, String, ◌≡◌, Bool, true, false, Option, none, some, List, [], ◌∷◌, ◌++◌, map, Result,
  if◌then◌else◌,
}
use maxgame_admin_guard.Error.{GuardResult}
use maxgame_admin_guard.Breaker.{RequestPermit}
use maxgame_admin_guard.Jwks.{AdminJwksClientConfig, KeySet}
use maxgame_admin_guard.Jwks.Client.{
  AdminJwksClient, Claim, answered, joined, leading, new, claim, commit, end_lease, drop_permit,
}

-- Where a task stands. A leader fetches, then its lease ends in two steps, then its permit goes. A
-- joiner registers with the notification, reads the flag again, and waits if it is still set.
pub data Phase : Type 0 where
  looking joining registered waiting woken : Phase
  fetching committed notifying settled : RequestPermit → Phase

pub record Task : Type 0 where
  pub kid : String
  pub phase : Phase

-- `fetches` lists when the fetches began, the latest first.
pub record System (Key : Type 0) : Type 0 where
  pub client : AdminJwksClient Key
  pub now : ℕ
  pub tasks : List Task
  pub fetches : List ℕ

-- The notification reaches every task that has registered.
abbrev pub wake_phase : Phase → Phase
wake_phase registered = woken
wake_phase waiting = woken
wake_phase p = p

abbrev pub wake : Task → Task
wake t = record t { phase = wake_phase t.phase }

-- What becomes of a task that has made its claim, and of the list of fetches.
abbrev pub claimed : {Key : Type 0} → Task → Claim Key → List Task
claimed t (answered answer) = []
claimed t joined = record t { phase = joining } ∷ []
claimed t (leading permit) = record t { phase = fetching permit } ∷ []

abbrev pub begun : {Key : Type 0} → ℕ → Claim Key → List ℕ → List ℕ
begun now (answered answer) fetches = fetches
begun now joined fetches = fetches
begun now (leading permit) fetches = now ∷ fetches

abbrev pub is_leader : Phase → Bool
is_leader (fetching permit) = true
is_leader (committed permit) = true
is_leader (notifying permit) = true
is_leader (settled permit) = true
is_leader p = false

-- One step of a task that leaves the other tasks alone, with what takes the task's place.
pub data Act {Key : Type 0} (now : ℕ) (c : AdminJwksClient Key) (t : Task)
    (c' : AdminJwksClient Key) (ts : List Task) : Type 0 where
  register :
      t.phase ≡ joining → c' ≡ c → ts ≡ record t { phase = registered } ∷ [] → Act now c t c' ts
  reread :
      t.phase ≡ registered
      → c' ≡ c
      → ts ≡ record t { phase = if c.fetch_in_flight then waiting else woken } ∷ []
      → Act now c t c' ts
  leave : is_leader t.phase ≡ false → c' ≡ c → ts ≡ [] → Act now c t c' ts
  commit_fetch :
      (permit : RequestPermit) (r : GuardResult (KeySet Key × ℕ))
      → t.phase ≡ fetching permit
      → c' ≡ (commit c permit t.kid now r).1
      → ts ≡ record t { phase = committed (commit c permit t.kid now r).2 } ∷ []
      → Act now c t c' ts
  cancel :
      (permit : RequestPermit)
      → t.phase ≡ fetching permit
      → c' ≡ c
      → ts ≡ record t { phase = committed permit } ∷ []
      → Act now c t c' ts
  clear_flag :
      (permit : RequestPermit)
      → t.phase ≡ committed permit
      → c' ≡ end_lease c
      → ts ≡ record t { phase = notifying permit } ∷ []
      → Act now c t c' ts
  release :
      (permit : RequestPermit)
      → t.phase ≡ settled permit
      → c' ≡ drop_permit c permit
      → ts ≡ []
      → Act now c t c' ts

pub data Step {Key : Type 0} (s t : System Key) : Type 0 where
  advance : (d : ℕ) → t ≡ record s { now = s.now + d } → Step s t
  arrive :
      (kid : String)
      → t ≡ record s { tasks = record { kid = kid; phase = looking } ∷ s.tasks }
      → Step s t
  make_claim :
      (xs ys : List Task) (k : Task)
      → s.tasks ≡ xs ++ k ∷ ys
      → k.phase ≡ looking
      → t ≡ record s {
        client = (claim s.client k.kid s.now).0;
        tasks = xs ++ (claimed k (claim s.client k.kid s.now).1 ++ ys);
        fetches = begun s.now (claim s.client k.kid s.now).1 s.fetches;
      }
      → Step s t
  act :
      (xs ys ts : List Task) (k : Task) (client : AdminJwksClient Key)
      → s.tasks ≡ xs ++ k ∷ ys
      → Act s.now s.client k client ts
      → t ≡ record s { client = client; tasks = xs ++ (ts ++ ys) }
      → Step s t
  notify :
      (xs ys : List Task) (k : Task) (permit : RequestPermit)
      → s.tasks ≡ xs ++ k ∷ ys
      → k.phase ≡ notifying permit
      → t ≡ record s { tasks = map wake (xs ++ record k { phase = settled permit } ∷ ys) }
      → Step s t

abbrev pub init : {Key : Type 0} → AdminJwksClientConfig → ℕ → System Key
init config now = record { client = new config; now = now; tasks = []; fetches = [] }

pub data Reach {Key : Type 0} (config : AdminJwksClientConfig) : System Key → Type 0 where
  start : (now : ℕ) → Reach config (init config now)
  later : {s t : System Key} → Reach config s → Step s t → Reach config t
