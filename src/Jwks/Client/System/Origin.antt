-- ===== src/Jwks/Client/System/Origin.antt =====
-- rust/src/jwks.rs under concurrency: the fetches of a run, and what the cache holds of them.
-- `Published` is any property of an instant, a kid and a key, such as that the identity provider
-- published the one under the other at that time.
use maxgame_admin_guard.Base.{
  ℕ, ◌≤◌, String, ◌≡◌, refl, sym, ap, subst, Option, none, some, ok, err, List, [], arith,
  Option-cases, inl, inr,
}
use maxgame_admin_guard.Error.{GuardResult}
use maxgame_admin_guard.Jwks.{AdminJwksClientConfig, KeyCrates, KeySet, get}
use maxgame_admin_guard.Jwks.Client.{
  AdminJwksClient, Reply, claim, commit, end_lease, drop_permit, read_reply,
}
use maxgame_admin_guard.Jwks.Client.System.{
  Task, System, Act, register, reread, leave, commit_fetch, cancel, clear_flag, release, Step,
  advance, arrive, make_claim, act, notify,
}
use maxgame_admin_guard.Jwks.Client.System.Progress.{Run, done, then}

pub get-nil : {Key : Type 0} (kid : String) → get {Key = Key} kid [] ≡ none
unfolding get
get-nil kid = refl

-- What a client keeps of its fetches: its keys with their TTL and the time of their fetch.
abbrev pub Contents : Type 0 → Type 0
Contents Key = AdminJwksClientConfig × KeySet Key × Option ℕ × Option ℕ

abbrev pub contents : {Key : Type 0} → AdminJwksClient Key → Contents Key
contents c = (c.config, c.cache.keys, c.cache.ttl, c.cache.fetched_at)

claim-contents :
    {Key : Type 0} (c : AdminJwksClient Key) (kid : String) (now : ℕ)
    → contents (claim c kid now).0 ≡ contents c
unfolding claim
claim-contents c kid now = ground arith

module _ {Key : Type 0} (crates : KeyCrates Key) where
  -- The ceiling on the TTL holds for every reply.
  read_reply-capped :
      (config : AdminJwksClientConfig) (reply : Option Reply) (keys : KeySet Key) (ttl : ℕ)
      → read_reply crates config reply ≡ ok (keys, ttl)
      → ttl ≤ config.max_ttl
  unfolding read_reply
  read_reply-capped config none keys ttl e = ground arith
  read_reply-capped config (some r) keys ttl e = elim (Option-cases r.keys) [
    | inr (entries, k) ↦ ground (arith, e, k)
    | inl k ↦ ground (arith, e, k)
  ]

  module _ (Published : ℕ → String → Key → Type 0) where
    -- What the fetches of a run bring, each at its time.
    abbrev pub Brings : ℕ → GuardResult (KeySet Key × ℕ) → Type 0
    Brings now (ok (keys, ttl)) =
        (kid : String) (key : Key) → get kid keys ≡ some key → Published now kid key
    Brings now (err e) = Unit

    abbrev pub IsFetch : ℕ → AdminJwksClientConfig → GuardResult (KeySet Key × ℕ) → Type 0
    IsFetch now config r =
        ((reply : Option Reply) × (r ≡ read_reply crates config reply)) × Brings now r

    abbrev pub ActFetches :
        {now : ℕ} {c c' : AdminJwksClient Key} {t : Task} {ts : List Task}
        → Act now c t c' ts
        → Type 0
    ActFetches (register p q e) = Unit
    ActFetches (reread p q e) = Unit
    ActFetches (leave p q e) = Unit
    ActFetches {now} {c} (commit_fetch permit r p q e) = IsFetch now c.config r
    ActFetches (cancel permit p q e) = Unit
    ActFetches (clear_flag permit p q e) = Unit
    ActFetches (release permit p q e) = Unit

    abbrev pub StepFetches : {s t : System Key} → Step s t → Type 0
    StepFetches (advance d e) = Unit
    StepFetches (arrive kid e) = Unit
    StepFetches (make_claim xs ys k u p e) = Unit
    StepFetches (act xs ys ts k client u a e) = ActFetches a
    StepFetches (notify xs ys k permit u p e) = Unit

    abbrev pub RunFetches : {s t : System Key} → Run s t → Type 0
    RunFetches (done e) = Unit
    RunFetches (then r st) = StepFetches st × RunFetches r

    module _ (config : AdminJwksClientConfig) where
      -- Every key was brought by the last fetch that succeeded, which set the TTL.
      abbrev pub IsDated : ℕ → Contents Key → Type 0
      IsDated now (c, keys, ttl, at) =
          (c ≡ config)
          × ((kid : String) (key : Key)
              → get kid keys ≡ some key
              → (t : ℕ) × (l : ℕ) × (at ≡ some t)
                × (ttl ≡ some l)
                × (l ≤ config.max_ttl)
                × (t ≤ now)
                × Published t kid key)

      Act-IsDated :
          {now : ℕ} {c c' : AdminJwksClient Key} {t : Task} {ts : List Task} (a : Act now c t c' ts)
          → ActFetches a
          → IsDated now (contents c)
          → IsDated now (contents c')
      unfolding commit end_lease drop_permit
      Act-IsDated {now} (register p q e) f h = subst (IsDated now) (sym (ap contents q)) h
      Act-IsDated {now} (reread p q e) f h = subst (IsDated now) (sym (ap contents q)) h
      Act-IsDated {now} (leave p q e) f h = subst (IsDated now) (sym (ap contents q)) h
      Act-IsDated {now} {c} (commit_fetch permit (ok (keys, ttl)) p q e) ((reply, r), f) h =
          subst (IsDated now) (sym (ap contents q)) (
            h.0,
            λ kid key g. (
              now,
              ttl,
              refl,
              refl,
              subst (λ (x : AdminJwksClientConfig). ttl ≤ x.max_ttl) h.0
                  (read_reply-capped c.config reply keys ttl (sym r)),
              omega arith,
              f kid key g,
            ),
          )
      Act-IsDated {now} (commit_fetch permit (err m) p q e) f h =
          subst (IsDated now) (sym (ap contents q)) h
      Act-IsDated {now} (cancel permit p q e) f h = subst (IsDated now) (sym (ap contents q)) h
      Act-IsDated {now} (clear_flag permit p q e) f h = subst (IsDated now) (sym (ap contents q)) h
      Act-IsDated {now} (release permit p q e) f h = subst (IsDated now) (sym (ap contents q)) h

      abbrev pub SystemIsDated : System Key → Type 0
      SystemIsDated s = IsDated s.now (contents s.client)

      Step-IsDated :
          {s t : System Key} (st : Step s t) → StepFetches st → SystemIsDated s → SystemIsDated t
      Step-IsDated {s} (advance d e) f h = subst SystemIsDated (sym e) (
        h.0,
        λ kid key g.
            let (t, l, at, ttl, c, before, published) = h.1 kid key g in
            (t, l, at, ttl, c, omega (arith, before), published),
      )
      Step-IsDated (arrive kid e) f h = subst SystemIsDated (sym e) h
      Step-IsDated {s} (make_claim xs ys k u p e) f h =
          subst SystemIsDated (sym e)
            (subst (IsDated s.now) (sym (claim-contents s.client k.kid s.now)) h)
      Step-IsDated (act xs ys ts k client u a e) f h =
          subst SystemIsDated (sym e) (Act-IsDated a f h)
      Step-IsDated (notify xs ys k permit u p e) f h = subst SystemIsDated (sym e) h

      pub Run-IsDated :
          {s t : System Key} (r : Run s t) → RunFetches r → SystemIsDated s → SystemIsDated t
      Run-IsDated (done e) f h = subst SystemIsDated (sym e) h
      Run-IsDated (then r st) (f, fs) h = Step-IsDated st f (Run-IsDated r fs h)
