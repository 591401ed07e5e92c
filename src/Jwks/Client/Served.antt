-- ===== src/Jwks/Client/Served.antt =====
-- rust/src/jwks.rs: what an answer from the cache says of the cache, fresh or within the grace.
use maxgame_admin_guard.Base.{
  ℕ, ◌+◌, ◌-◌, ◌<◌, ◌≤◌, String, ◌≡◌, refl, Option, none, some, ok, err, arith, inl, inr,
  Option-cases, ok_or-eq-ok,
}
use maxgame_admin_guard.Error.{GuardError}
use maxgame_admin_guard.Breaker.{RequestPermit}
use maxgame_admin_guard.Jwks.{
  KeySet, get, cached_and_fresh, cached_within_grace, unwrap_or, held_within, saturating_add,
}
use maxgame_admin_guard.Jwks.Client.{
  AdminJwksClient, answered, claim, commit, fresh_key, stale_key, answer_from_cache, floor_answer,
}

module _ {Key : Type 0} (c : AdminJwksClient Key) (kid : String) (now : ℕ) (key : Key) where
  -- The client holds the key, and less than the TTL and the grace have passed since the last fetch
  -- that succeeded.
  abbrev pub IsServed : Type 0
  IsServed =
      (get kid c.cache.keys ≡ some key)
      × ((at : ℕ) × (c.cache.fetched_at ≡ some at)
          × (now - at < unwrap_or c.cache.ttl c.config.default_ttl + c.config.stale_grace))

  held-IsServed :
      (horizon : ℕ)
      → horizon ≤ unwrap_or c.cache.ttl c.config.default_ttl + c.config.stale_grace
      → held_within c.cache kid horizon now ≡ some key
      → IsServed
  held-IsServed horizon most h = fetched c.cache.fetched_at refl
    where
      fetched : (at : Option ℕ) → c.cache.fetched_at ≡ at → IsServed
      fetched none e = ground arith
      fetched (some at) e = (ground arith, (at, e, ground arith))

  pub fresh_key-IsServed : fresh_key c kid now ≡ some key → IsServed
  unfolding cached_and_fresh
  fresh_key-IsServed h = held-IsServed (unwrap_or c.cache.ttl c.config.default_ttl) (omega arith) h

  pub stale_key-IsServed : stale_key c kid now ≡ some key → IsServed
  unfolding stale_key cached_within_grace
  stale_key-IsServed h =
      held-IsServed
        (saturating_add (unwrap_or c.cache.ttl c.config.default_ttl) c.config.stale_grace)
        (ground arith) (ground (arith, h))

  pub claim-IsServed : (claim c kid now).1 ≡ answered (ok key) → IsServed
  unfolding claim floor_answer
  claim-IsServed h = elim (Option-cases (fresh_key c kid now)) [
    | inr (fresh, e) ↦ fresh_key-IsServed (ground (arith, h, e))
    | inl e ↦ stale_key-IsServed (ground (arith, h, e))
  ]

  pub answer_from_cache-IsServed : answer_from_cache c kid now ≡ ok key → IsServed
  unfolding answer_from_cache
  answer_from_cache-IsServed h = elim (Option-cases (fresh_key c kid now)) [
    | inr (fresh, e) ↦ fresh_key-IsServed (ground (arith, h, e))
    | inl e ↦ stale_key-IsServed (ground (arith, h, e))
  ]

  pub commit-fetched :
      (permit : RequestPermit) (keys : KeySet Key) (ttl : ℕ)
      → (commit c permit kid now (ok (keys, ttl))).0 ≡ ok key
      → get kid keys ≡ some key
  unfolding commit
  commit-fetched permit keys ttl h = ok_or-eq-ok (get kid keys) _ h

  pub commit-IsServed :
      (permit : RequestPermit) (e : GuardError)
      → (commit c permit kid now (err e)).0 ≡ ok key
      → IsServed
  unfolding commit
  commit-IsServed permit e h = stale_key-IsServed (ok_or-eq-ok (stale_key c kid now) e h)
