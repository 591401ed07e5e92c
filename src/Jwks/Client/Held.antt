-- ===== src/Jwks/Client/Held.antt =====
-- rust/src/jwks.rs: a client that holds a key since its last successful fetch.
use maxgame_admin_guard.Base.{
  ℕ, ◌-◌, ◌≤◌, ◌<◌, String, ◌≡◌, refl, sym, ap, subst, true, false, Option, none, some, ok, arith,
  Bool, inl, inr, ◌⊎◌, ok_or,
}
use maxgame_admin_guard.Error.{GuardError}
use maxgame_admin_guard.Breaker.{CircuitBreaker}
use maxgame_admin_guard.Jwks.{
  AdminJwksClientConfig, get, cached_and_fresh, cached_within_grace, saturating_add,
}
use maxgame_admin_guard.Jwks.Client.{AdminJwksClient, fresh_key, stale_key, floor_active}
use maxgame_admin_guard.Jwks.Client.Served.{fresh_key-IsServed}

abbrev pub Before : Option ℕ → ℕ → Type 0
Before none at = Unit
Before (some last) at = last ≤ at

module _ {Key : Type 0} (config : AdminJwksClientConfig) (kid : String) (key : Key)
    (at ttl : ℕ) where
  -- The client holds the key from a fetch that ended at that time, and since then no attempt has
  -- succeeded.
  pub record IsHeld (c : AdminJwksClient Key) : Type 0 where
    pub same : c.config ≡ config
    pub idle : c.fetch_in_flight ≡ false
    pub has : get kid c.cache.keys ≡ some key
    pub fetched : c.cache.fetched_at ≡ some at
    pub aged : c.cache.ttl ≡ some ttl
    pub tried : (c.cache.last_attempt_failed ≡ true) ⊎ Before c.cache.last_attempt_at at

-- The time is within the TTL and the grace window after it.
abbrev pub InWindow : AdminJwksClientConfig → (at ttl now : ℕ) → Type 0
InWindow config at ttl now = now - at < saturating_add ttl config.stale_grace

module _ {Key : Type 0} {config : AdminJwksClientConfig} {kid : String} {key : Key}
    {at ttl : ℕ} where
  pub fresh-eq :
      (c : AdminJwksClient Key) (t : ℕ) (k : Key)
      → IsHeld config kid key at ttl c
      → fresh_key c kid t ≡ some k
      → k ≡ key
  fresh-eq c t k i h = cc (i.has, (fresh_key-IsServed c kid t k h).0)

  pub not_fresh-lapsed :
      (c : AdminJwksClient Key) (t : ℕ)
      → IsHeld config kid key at ttl c
      → fresh_key c kid t ≡ none
      → ttl ≤ t - at
  unfolding cached_and_fresh
  not_fresh-lapsed c t i h = ground (arith, h, i.has, i.fetched, i.aged)

  pub stale-held :
      (c : AdminJwksClient Key) (t : ℕ)
      → IsHeld config kid key at ttl c
      → ttl ≤ t - at
      → InWindow config at ttl t
      → stale_key c kid t ≡ some key
  unfolding stale_key cached_within_grace
  stale-held c t i l w = ground (
    arith,
    l,
    w,
    i.has,
    i.fetched,
    i.aged,
    ap (λ (x : AdminJwksClientConfig). x.stale_grace) i.same,
  )

  pub floor-failed :
      (c : AdminJwksClient Key) (t : ℕ)
      → config.min_refetch_interval ≤ ttl
      → IsHeld config kid key at ttl c
      → ttl ≤ t - at
      → floor_active c t ≡ true
      → c.cache.last_attempt_failed ≡ true
  unfolding floor_active
  floor-failed c t m i l f = failed c.cache.last_attempt_at refl i.tried
    where
      failed :
          (o : Option ℕ)
          → c.cache.last_attempt_at ≡ o
          → (c.cache.last_attempt_failed ≡ true) ⊎ Before o at
          → c.cache.last_attempt_failed ≡ true
      failed o e (inl h) = h
      failed none e (inr b) = ground (arith, f, e)
      failed (some last) e (inr b) =
          ground (
            arith,
            f,
            e,
            b,
            m,
            l,
            ap (λ (x : AdminJwksClientConfig). x.min_refetch_interval) i.same,
          )

  pub stale-answer :
      (c : AdminJwksClient Key) (t : ℕ) (asked : String) (e : GuardError)
      → IsHeld config kid key at ttl c
      → asked ≡ kid
      → ttl ≤ t - at
      → InWindow config at ttl t
      → ok_or (stale_key c asked t) e ≡ ok key
  stale-answer c t asked e i same l w =
      subst (λ (s : String). ok_or (stale_key c s t) e ≡ ok key) (sym same)
        (ap (λ o. ok_or o e) (stale-held c t i l w))

  -- A fetch has begun, which counts as failed until it succeeds.
  pub begun-IsHeld :
      (c : AdminJwksClient Key) (b : CircuitBreaker) (began : ℕ) (flag : Bool)
      → flag ≡ false
      → IsHeld config kid key at ttl c
      → IsHeld config kid key at ttl (record c {
        breaker = b;
        cache = record (c.cache) { last_attempt_at = some began; last_attempt_failed = true };
        fetch_in_flight = flag;
      })
  begun-IsHeld c b began flag f i = record {
    same = i.same;
    idle = f;
    has = i.has;
    fetched = i.fetched;
    aged = i.aged;
    tried = inl refl;
  }

  pub refused-IsHeld :
      (c : AdminJwksClient Key) (b : CircuitBreaker)
      → IsHeld config kid key at ttl c
      → IsHeld config kid key at ttl (record c { breaker = b })
  refused-IsHeld c b i = record {
    same = i.same;
    idle = i.idle;
    has = i.has;
    fetched = i.fetched;
    aged = i.aged;
    tried = i.tried;
  }
