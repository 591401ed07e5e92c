-- ===== src/Jwks/Client.antt =====
-- rust/src/jwks.rs: `AdminJwksClient` and its `resolve_key`.
-- `resolve_key` is cut at its awaits: `claim` is the section under the write lock, `commit` the one
-- after the fetch, and `end_lease` and `drop_permit` what its guards do when they go. A section
-- reads the clock once, as its argument `now`. Interleaved tasks are in System.
pub mod Laws
pub mod Source
pub mod Served
pub mod Window
pub mod Held
pub mod Outage
pub mod Statuses
pub mod System
use maxgame_admin_guard.Base.{
  ℕ, ◌-◌, String, Bool, true, false, Option, none, some, List, [], Result, ok, err, ◌>>=◌, ok_or,
  Call, ltb, ◌==◌, if◌then◌else◌, min,
}
use maxgame_admin_guard.Base.Text.{◌<>◌}
use maxgame_admin_guard.Error.{GuardError, unauthorized, unavailable, GuardResult}
use maxgame_admin_guard.Introspect.Client.{is_success}
use maxgame_admin_guard.Token.{JwksKeyProvider}
use maxgame_admin_guard.Breaker.{CircuitBreaker, RequestPermit, with_clock, allow_request}
use maxgame_admin_guard.Breaker.Permit
use maxgame_admin_guard.Jwks.{
  AdminJwksClientConfig, JwksKey, KeySet, JwksCache, empty_cache, unwrap_or, get, cached_and_fresh,
  cached_within_grace, KeyCrates, max_age, insert_keys,
}

pub record AdminJwksClient (Key : Type 0) : Type 0 where
  pub config : AdminJwksClientConfig
  pub cache : JwksCache Key
  pub fetch_in_flight : Bool
  pub breaker : CircuitBreaker

-- A response: its `Cache-Control` where that is text, and `keys` where the body parses.
pub record Reply : Type 0 where
  pub status : ℕ
  pub status_text : String
  pub cache_control : Option String
  pub keys : Option (List JwksKey)

abbrev pub unknown_kid : String → String → GuardError
unknown_kid kid why = unauthorized ("unknown admin JWT kid '" <> kid <> "' (" <> why <> ")")

-- `last.elapsed() < window`, where there was an attempt.
abbrev pub within : Option ℕ → ℕ → ℕ → Bool
within none window now = false
within (some last) window now = ltb (now - last) window

-- What the section under the write lock decides: an answer, to join the fetch that is out, or to
-- lead a fetch with a permit of the breaker.
pub data Claim (Key : Type 0) : Type 0 where
  answered : GuardResult Key → Claim Key
  joined : Claim Key
  leading : RequestPermit → Claim Key

module _ {Key : Type 0} where
  -- `with_breaker_clock` builds the same breaker on another clock.
  unfoldable pub new : AdminJwksClientConfig → AdminJwksClient Key
  new config = record {
    config = config;
    cache = empty_cache;
    fetch_in_flight = false;
    breaker = with_clock config.breaker_failure_threshold config.breaker_reset;
  }

  -- The read of the cache that begins `resolve_key`, and again under the write lock.
  abbrev pub fresh_key : AdminJwksClient Key → String → ℕ → Option Key
  fresh_key c kid now = cached_and_fresh c.cache kid c.config.default_ttl now

  unfoldable pub stale_key : AdminJwksClient Key → String → ℕ → Option Key
  stale_key c kid now =
      if c.config.stale_grace == 0
      then none
      else cached_within_grace c.cache kid c.config.default_ttl c.config.stale_grace now

  unfoldable pub answer_from_cache : AdminJwksClient Key → String → ℕ → GuardResult Key
  answer_from_cache c kid now = elim (fresh_key c kid now) [
    | some key ↦ ok key
    | none ↦
        if c.cache.last_attempt_failed
        then ok_or (stale_key c kid now) (unavailable "admin JWKS endpoint unreachable")
        else err (unknown_kid kid "not present in admin JWKS after refresh")
  ]

  unfoldable pub floor_active : AdminJwksClient Key → ℕ → Bool
  floor_active c now = within c.cache.last_attempt_at c.config.min_refetch_interval now

  unfoldable pub floor_answer : AdminJwksClient Key → String → ℕ → GuardResult Key
  floor_answer c kid now =
      if c.cache.last_attempt_failed
      then ok_or (stale_key c kid now)
          (unavailable "admin JWKS endpoint unreachable (refetch floor active)")
      else err (unknown_kid kid "refetch floor active")

  -- The breaker's answer, and the marks of an attempt that counts as failed until it succeeds.
  abbrev pub start :
      AdminJwksClient Key
      → String
      → ℕ
      → CircuitBreaker × Option RequestPermit
      → AdminJwksClient Key × Claim Key
  start c kid now (b, none) = (
    record c { breaker = b },
    answered (
        ok_or (stale_key c kid now) (unavailable "admin JWKS endpoint is temporarily unavailable")),
  )
  start c kid now (b, some permit) = (
    record c {
      breaker = b;
      cache = record (c.cache) { last_attempt_at = some now; last_attempt_failed = true };
      fetch_in_flight = true;
    },
    leading permit,
  )

  abbrev pub claim_missing : AdminJwksClient Key → String → ℕ → AdminJwksClient Key × Claim Key
  claim_missing c kid now =
      if c.fetch_in_flight
      then (c, joined)
      else if floor_active c now
      then (c, answered (floor_answer c kid now))
      else start c kid now (allow_request c.breaker now)

  -- The section under the write lock.
  unfoldable pub claim : AdminJwksClient Key → String → ℕ → AdminJwksClient Key × Claim Key
  claim c kid now = elim (fresh_key c kid now) [
    | some key ↦ (c, answered (ok key))
    | none ↦ claim_missing c kid now
  ]

  -- The second section under the write lock: the outcome is reported and committed.
  unfoldable pub commit :
      AdminJwksClient Key
      → RequestPermit
      → String
      → ℕ
      → GuardResult (KeySet Key × ℕ)
      → GuardResult Key × AdminJwksClient Key × RequestPermit
  commit c permit kid now (ok (keys, ttl)) =
      let (b, permit') = Permit.record_success c.breaker permit in
      (
        ok_or (get kid keys) (unknown_kid kid "not present in admin JWKS after refresh"),
        record c {
          breaker = b;
          cache = record (c.cache) {
            last_attempt_failed = false;
            keys = keys;
            ttl = some ttl;
            fetched_at = some now;
          };
        },
        permit',
      )
  commit c permit kid now (err e) =
      let (b, permit') = Permit.record_failure c.breaker permit now in
      (ok_or (stale_key c kid now) e, record c { breaker = b }, permit')

  -- `FetchLease::drop`, less the notification, and the permit's destructor.
  unfoldable pub end_lease : AdminJwksClient Key → AdminJwksClient Key
  end_lease c = record c { fetch_in_flight = false }

  unfoldable pub drop_permit : AdminJwksClient Key → RequestPermit → AdminJwksClient Key
  drop_permit c permit = record c { breaker = Permit.drop c.breaker permit }

-- The client and the network it talks to.
pub record World (Key Net : Type 0) : Type 0 where
  pub client : AdminJwksClient Key
  pub net : Net

module _ {Key : Type 0} (crates : KeyCrates Key) where
  abbrev pub read_keys :
      AdminJwksClientConfig → ℕ → Option (List JwksKey) → GuardResult (KeySet Key × ℕ)
  read_keys config ttl none = err (unavailable "admin JWKS response was malformed")
  read_keys config ttl (some entries) = ok (insert_keys crates entries [], min ttl config.max_ttl)

  -- What `fetch` makes of the reply, with none for a transport error or the timeout.
  unfoldable pub read_reply : AdminJwksClientConfig → Option Reply → GuardResult (KeySet Key × ℕ)
  unfolding max_age
  read_reply config none = err (unavailable "admin JWKS endpoint unreachable")
  read_reply config (some r) =
      if is_success r.status
      then read_keys config (unwrap_or (max_age r.cache_control) config.default_ttl) r.keys
      else err (unavailable ("admin JWKS endpoint returned " <> r.status_text))

  -- `settled` is what the other tasks do until the fetch that this one joins notifies it.
  module _ {Net : Type 0} (now : Net → ℕ) (send : String → ℕ → Net → Option Reply × Net)
      (settled : World Key Net → World Key Net) where
    -- The leader's way: the fetch, the commit, then the lease and the permit go.
    unfoldable pub lead :
        AdminJwksClient Key → RequestPermit → String → Net → GuardResult Key × World Key Net
    unfolding read_reply
    lead c permit kid net =
        let (reply, net') = send c.config.jwks_url c.config.http_timeout net in
        let (answer, c', permit') = commit c permit kid (now net') (read_reply c.config reply) in
        (answer, record { client = drop_permit (end_lease c') permit'; net = net' })

    abbrev pub proceed :
        String → Net → AdminJwksClient Key × Claim Key → GuardResult Key × World Key Net
    proceed kid net (c, answered answer) = (answer, record { client = c; net = net })
    proceed kid net (c, joined) =
        let w = settled (record { client = c; net = net }) in
        (answer_from_cache w.client kid (now w.net), w)
    proceed kid net (c, leading permit) = lead c permit kid net

    -- `resolve_key`: the read of the cache, then the claim and what it asks for.
    unfoldable pub resolve_key : String → Call (World Key Net) GuardError Key
    resolve_key kid w = elim (fresh_key w.client kid (now w.net)) [
      | some key ↦ (ok key, w)
      | none ↦ proceed kid w.net (claim w.client kid (now w.net))
    ]

    -- The client as the trait's implementation.
    abbrev pub key_provider : JwksKeyProvider (World Key Net) Key
    key_provider = record { resolve_key = resolve_key }
