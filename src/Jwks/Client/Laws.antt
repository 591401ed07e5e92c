-- ===== src/Jwks/Client/Laws.antt =====
-- rust/src/jwks.rs: what the two sections under the write lock do to the client.
use maxgame_admin_guard.Base.{
  ℕ, ◌-◌, ◌≤◌, String, ◌≡◌, Bool, true, false, Option, none, some, err, arith,
}
use maxgame_admin_guard.Error.{GuardError, status}
use maxgame_admin_guard.Jwks.{AdminJwksClientConfig, KeyCrates}
use maxgame_admin_guard.Jwks.Client.{
  AdminJwksClient, Reply, Claim, answered, joined, leading, fresh_key, floor_active, claim,
  read_reply, within,
}

-- Whether the claim is to lead a fetch.
abbrev pub leads : {Key : Type 0} → Claim Key → Bool
leads (answered answer) = false
leads joined = false
leads (leading permit) = true

-- The last attempt, if there was one, began at least `interval` ago.
abbrev pub Lapsed : Option ℕ → ℕ → ℕ → Type 0
Lapsed none interval now = Unit
Lapsed (some last) interval now = interval ≤ now - last

within-false :
    (o : Option ℕ) (interval now : ℕ) → within o interval now ≡ false → Lapsed o interval now
within-false none interval now h = tt
within-false (some last) interval now h = ground arith

module _ {Key : Type 0} where
  -- A claim to lead is made only when no fetch is out, no fresh key is held and the refetch floor
  -- has lapsed; it sets the flag and the attempt's marks and leaves the key set as it was.
  pub claim-leads :
      (c : AdminJwksClient Key) (kid : String) (now : ℕ)
      → leads (claim c kid now).1 ≡ true
      → let c' = (claim c kid now).0 in
        (c.fetch_in_flight ≡ false)
        × (fresh_key c kid now ≡ none)
        × Lapsed c.cache.last_attempt_at c.config.min_refetch_interval now
        × (c'.fetch_in_flight ≡ true)
        × (c'.cache.last_attempt_at ≡ some now)
        × (c'.cache.last_attempt_failed ≡ true)
        × (c'.cache.keys ≡ c.cache.keys)
        × (c'.cache.fetched_at ≡ c.cache.fetched_at)
        × (c'.cache.ttl ≡ c.cache.ttl)
        × (c'.config ≡ c.config)
  unfolding claim floor_active
  claim-leads c kid now h =
      ground (arith, within-false c.cache.last_attempt_at c.config.min_refetch_interval now)

  -- Every other claim leaves the cache, the flag and the configuration alone.
  pub claim-keeps :
      (c : AdminJwksClient Key) (kid : String) (now : ℕ)
      → leads (claim c kid now).1 ≡ false
      → let c' = (claim c kid now).0 in
        (c'.cache ≡ c.cache) × (c'.fetch_in_flight ≡ c.fetch_in_flight) × (c'.config ≡ c.config)
  unfolding claim
  claim-keeps c kid now h = ground arith

-- A failed fetch is always a 503.
pub read_reply-unavailable :
    {Key : Type 0} (crates : KeyCrates Key) (config : AdminJwksClientConfig) (reply : Option Reply)
    (e : GuardError)
    → read_reply crates config reply ≡ err e
    → status e ≡ 503
unfolding read_reply status
read_reply-unavailable crates config none e h = ground arith
read_reply-unavailable crates config (some r) e h = ground arith
