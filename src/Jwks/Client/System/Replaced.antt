-- ===== src/Jwks/Client/System/Replaced.antt =====
-- rust/src/jwks.rs under concurrency: what one task's step does to the counts of tasks.
use maxgame_admin_guard.Base.{
  ℕ, ◌+◌, ◌<◌, String, ◌≡◌, refl, ok, err, List, arith, Bool-cases, inl, inr,
}
use maxgame_admin_guard.Breaker.{allow_request}
use maxgame_admin_guard.Breaker.Permit
use maxgame_admin_guard.Jwks.Client.{
  AdminJwksClient, Claim, answered, joined, leading, claim, commit, end_lease, drop_permit,
}
use maxgame_admin_guard.Jwks.Client.Laws.{leads, claim-leads, claim-keeps}
use maxgame_admin_guard.Jwks.Client.System.{
  looking, Task, claimed, Act, register, reread, leave, commit_fetch, cancel, clear_flag, release,
}
use maxgame_admin_guard.Jwks.Client.System.Weights.{
  bit, total, in_flight, announces, waits, probing, joiner-weight,
}

-- A task `k` gives way to `ts` while the client changes, and whatever the rest of the tasks weigh the
-- counts stay right.
pub record IsReplaced {Key : Type 0} (c c' : AdminJwksClient Key) (k : Task) (ts : List Task)
    : Type 0 where
  pub flag :
      (rest : ℕ)
      → in_flight k.phase + rest ≡ bit c.fetch_in_flight
      → total in_flight ts + rest ≡ bit c'.fetch_in_flight
  pub probe :
      (rest : ℕ)
      → probing k.phase + rest ≡ bit c.breaker.probe_in_flight
      → total probing ts + rest ≡ bit c'.breaker.probe_in_flight
  pub wakers :
      (ls ns ws : ℕ)
      → in_flight k.phase + ls ≡ bit c.fetch_in_flight
      → (0 < waits k.phase + ws → 0 < (in_flight k.phase + ls) + (announces k.phase + ns))
      → 0 < total waits ts + ws
      → 0 < (total in_flight ts + ls) + (total announces ts + ns)

module _ {Key : Type 0} {now : ℕ} {c c' : AdminJwksClient Key} {t : Task} {ts : List Task} where
  -- The rest of the tasks weigh `rest`.
  Act-flag :
      Act now c t c' ts
      → (rest : ℕ) → in_flight t.phase + rest ≡ bit c.fetch_in_flight
      → total in_flight ts + rest ≡ bit c'.fetch_in_flight
  unfolding commit end_lease drop_permit
  Act-flag (register p q e) rest h = ground arith
  Act-flag (reread p q e) rest h = ground arith
  Act-flag (leave p q e) rest h = ground (arith, joiner-weight t.phase p)
  Act-flag (commit_fetch permit (ok (keys, ttl)) p q e) rest h = ground arith
  Act-flag (commit_fetch permit (err m) p q e) rest h = ground arith
  Act-flag (cancel permit p q e) rest h = ground arith
  Act-flag (clear_flag permit p q e) rest h = ground arith
  Act-flag (release permit p q e) rest h = ground arith

  Act-probe :
      Act now c t c' ts
      → (rest : ℕ) → probing t.phase + rest ≡ bit c.breaker.probe_in_flight
      → total probing ts + rest ≡ bit c'.breaker.probe_in_flight
  unfolding commit end_lease drop_permit Permit.drop Permit.record_success Permit.record_failure
  Act-probe (register p q e) rest h = ground arith
  Act-probe (reread p q e) rest h = ground arith
  Act-probe (leave p q e) rest h = ground (arith, joiner-weight t.phase p)
  Act-probe (commit_fetch permit (ok (keys, ttl)) p q e) rest h = ground arith
  Act-probe (commit_fetch permit (err m) p q e) rest h = ground arith
  Act-probe (cancel permit p q e) rest h = ground arith
  Act-probe (clear_flag permit p q e) rest h = ground arith
  Act-probe (release permit p q e) rest h = ground arith

  Act-wakers :
      Act now c t c' ts
      → (ls ns ws : ℕ) → in_flight t.phase + ls ≡ bit c.fetch_in_flight
      → (0 < waits t.phase + ws → 0 < (in_flight t.phase + ls) + (announces t.phase + ns))
      → 0 < total waits ts + ws
      → 0 < (total in_flight ts + ls) + (total announces ts + ns)
  Act-wakers (register p q e) ls ns ws f h = ground arith
  Act-wakers (reread p q e) ls ns ws f h = ground arith
  Act-wakers (leave p q e) ls ns ws f h = ground (arith, joiner-weight t.phase p)
  Act-wakers (commit_fetch permit r p q e) ls ns ws f h = ground arith
  Act-wakers (cancel permit p q e) ls ns ws f h = ground arith
  Act-wakers (clear_flag permit p q e) ls ns ws f h = ground arith
  Act-wakers (release permit p q e) ls ns ws f h = ground arith

claimed-weight :
    {Key : Type 0} (k : Task) (a : Claim Key)
    → (total in_flight (claimed k a) ≡ bit (leads a))
      × (total waits (claimed k a) ≡ 0)
      × (total announces (claimed k a) ≡ 0)
claimed-weight k (answered answer) = (refl, refl, refl)
claimed-weight k joined = (refl, refl, refl)
claimed-weight k (leading permit) = (refl, refl, refl)

claim-flag :
    {Key : Type 0} (c : AdminJwksClient Key) (kid : String) (now : ℕ)
    → let (c', a) = claim c kid now in
      bit (leads a) + bit c.fetch_in_flight ≡ bit c'.fetch_in_flight
claim-flag c kid now = elim (Bool-cases (leads (claim c kid now).1)) [
  | inl l ↦ ground (arith, claim-leads c kid now l)
  | inr k ↦ ground (arith, claim-keeps c kid now k)
]

claim-probe :
    {Key : Type 0} (c : AdminJwksClient Key) (k : Task) (now : ℕ)
    → let (c', a) = claim c k.kid now in
      total probing (claimed k a) + bit c.breaker.probe_in_flight ≡ bit c'.breaker.probe_in_flight
unfolding claim allow_request
claim-probe c k now = ground arith

pub Act-IsReplaced :
    {Key : Type 0} {now : ℕ} {c c' : AdminJwksClient Key} {t : Task} {ts : List Task}
    → Act now c t c' ts
    → IsReplaced c c' t ts
Act-IsReplaced a = record { flag = Act-flag a; probe = Act-probe a; wakers = Act-wakers a }

pub claim-IsReplaced :
    {Key : Type 0} (c : AdminJwksClient Key) (k : Task) (now : ℕ)
    → k.phase ≡ looking
    → let (c', a) = claim c k.kid now in IsReplaced c c' k (claimed k a)
claim-IsReplaced c k now p = record {
  flag = λ rest h.
      ground (arith, claimed-weight k (claim c k.kid now).1, claim-flag c k.kid now, p, h);
  probe = λ rest h. ground (arith, claim-probe c k now, p, h);
  wakers = λ ls ns ws f h w. ground (arith, claimed-weight k (claim c k.kid now).1, p, h, w);
}
