-- ===== src/Jwks/Client/System/Floor.antt =====
-- rust/src/jwks.rs under concurrency: the refetch floor and the times of the fetches.
use maxgame_admin_guard.Base.{
  ℕ, ◌-◌, ◌≤◌, String, ◌≡◌, refl, ap, sym, ◌∙◌, true, false, Option, none, some, ok, err, List, [],
  ◌∷◌, arith, subst,
}
use maxgame_admin_guard.Jwks.{AdminJwksClientConfig}
use maxgame_admin_guard.Jwks.Client.{
  AdminJwksClient, Claim, answered, joined, leading, new, claim, commit, end_lease, drop_permit,
}
use maxgame_admin_guard.Jwks.Client.Laws.{leads, claim-leads, claim-keeps, Lapsed}
use maxgame_admin_guard.Jwks.Client.System.{
  Task, System, begun, Act, register, reread, leave, commit_fetch, cancel, clear_flag, release,
  Step, advance, arrive, make_claim, act, notify, Reach, start, later,
}

-- Each fetch begins at least `interval` after the one before it.
abbrev pub Spaced : ℕ → List ℕ → Type 0
Spaced interval [] = Unit
Spaced interval (t ∷ []) = Unit
Spaced interval (t ∷ u ∷ ts) = (interval ≤ t - u) × Spaced interval (u ∷ ts)

abbrev latest : List ℕ → Option ℕ
latest [] = none
latest (t ∷ ts) = some t

record IsPaced {Key : Type 0} (config : AdminJwksClientConfig) (s : System Key) : Type 0 where
  pub same : s.client.config ≡ config
  pub marked : s.client.cache.last_attempt_at ≡ latest s.fetches
  pub spaced : Spaced config.min_refetch_interval s.fetches

Act-paces :
    {Key : Type 0} {now : ℕ} {c c' : AdminJwksClient Key} {t : Task} {ts : List Task}
    → Act now c t c' ts
    → (c'.config ≡ c.config) × (c'.cache.last_attempt_at ≡ c.cache.last_attempt_at)
unfolding commit end_lease drop_permit
Act-paces (register p q e) = ground arith
Act-paces (reread p q e) = ground arith
Act-paces (leave p q e) = ground arith
Act-paces (commit_fetch permit (ok (keys, ttl)) p q e) = ground arith
Act-paces (commit_fetch permit (err m) p q e) = ground arith
Act-paces (cancel permit p q e) = ground arith
Act-paces (clear_flag permit p q e) = ground arith
Act-paces (release permit p q e) = ground arith

Spaced-begins :
    (interval now : ℕ) (ts : List ℕ)
    → Lapsed (latest ts) interval now
    → Spaced interval ts
    → Spaced interval (now ∷ ts)
Spaced-begins interval now [] l s = tt
Spaced-begins interval now (t ∷ ts) l s = (l, s)

claim-paces :
    {Key : Type 0} (config : AdminJwksClientConfig) (c : AdminJwksClient Key) (kid : String)
    (now : ℕ) (fetches : List ℕ)
    → c.config ≡ config
    → c.cache.last_attempt_at ≡ latest fetches
    → Spaced config.min_refetch_interval fetches
    → let (c', a) = claim c kid now in
      (c'.config ≡ config)
      × (c'.cache.last_attempt_at ≡ latest (begun now a fetches))
      × Spaced config.min_refetch_interval (begun now a fetches)
claim-paces {Key = Key} config c kid now fetches e m s = made (claim c kid now).1 refl
  where
    Paced : Claim Key → Type 0
    Paced a =
        ((claim c kid now).0.config ≡ config)
        × ((claim c kid now).0.cache.last_attempt_at ≡ latest (begun now a fetches))
        × Spaced config.min_refetch_interval (begun now a fetches)

    lapsed :
        leads (claim c kid now).1 ≡ true → Lapsed (latest fetches) config.min_refetch_interval now
    lapsed l =
        subst (λ (x : AdminJwksClientConfig). Lapsed (latest fetches) x.min_refetch_interval now) e
          (subst (λ o. Lapsed o c.config.min_refetch_interval now) m (claim-leads c kid now l).2)

    kept :
        leads (claim c kid now).1 ≡ false
        → ((claim c kid now).0.config ≡ config)
          × ((claim c kid now).0.cache.last_attempt_at ≡ latest fetches)
    kept k = (ground (arith, claim-keeps c kid now k), ground (arith, claim-keeps c kid now k))

    made : (a : Claim Key) → (claim c kid now).1 ≡ a → Paced (claim c kid now).1
    made (leading permit) q =
        let l = claim-leads c kid now (ap leads q) in
        subst Paced (sym q) (
          ground (arith, l),
          ground (arith, l),
          Spaced-begins config.min_refetch_interval now fetches (lapsed (ap leads q)) s,
        )
    made joined q = subst Paced (sym q) ((kept (ap leads q)).0, (kept (ap leads q)).1, s)
    made (answered answer) q = subst Paced (sym q) ((kept (ap leads q)).0, (kept (ap leads q)).1, s)

Step-IsPaced :
    {Key : Type 0} {config : AdminJwksClientConfig} {s t : System Key}
    → Step s t
    → IsPaced config s
    → IsPaced config t
Step-IsPaced {config = config} (advance d e) i =
    subst (IsPaced config) (sym e) (record { same = i.same; marked = i.marked; spaced = i.spaced })
Step-IsPaced {config = config} (arrive kid e) i =
    subst (IsPaced config) (sym e) (record { same = i.same; marked = i.marked; spaced = i.spaced })
Step-IsPaced {config = config} {s = s} (make_claim xs ys k u p e) i =
    let after = claim-paces config s.client k.kid s.now s.fetches i.same i.marked i.spaced in
    subst (IsPaced config) (sym e) (record { same = after.0; marked = after.1; spaced = after.2 })
Step-IsPaced {config = config} (act xs ys ts k client u a e) i =
    let kept = Act-paces a in
    subst (IsPaced config) (sym e)
      (record { same = kept.0 ∙ i.same; marked = kept.1 ∙ i.marked; spaced = i.spaced })
Step-IsPaced {config = config} (notify xs ys k permit u p e) i =
    subst (IsPaced config) (sym e) (record { same = i.same; marked = i.marked; spaced = i.spaced })

Reach-IsPaced :
    {Key : Type 0} {config : AdminJwksClientConfig} {s : System Key}
    → Reach config s
    → IsPaced config s
unfolding new
Reach-IsPaced (start now) = record { same = refl; marked = refl; spaced = tt }
Reach-IsPaced (later r st) = Step-IsPaced st (Reach-IsPaced r)

-- In every reachable state, whatever the tasks ask for and however their fetches end, each fetch
-- began at least the refetch interval after the one before it.
pub fetches-Spaced :
    {Key : Type 0} (config : AdminJwksClientConfig) (s : System Key)
    → Reach config s
    → Spaced config.min_refetch_interval s.fetches
fetches-Spaced config s r = (Reach-IsPaced r).spaced
