-- ===== src/Jwks/Client/Window.antt =====
-- rust/src/jwks.rs: how long a key is served, and what a fetch changes about that.
use maxgame_admin_guard.Base.{
  ℕ, ◌-◌, ◌<◌, min, String, ◌≡◌, refl, sym, subst, ◌∙◌, true, false, Option, none, some, List, [],
  ok, arith,
}
use maxgame_admin_guard.Error.{GuardResult}
use maxgame_admin_guard.Introspect.Client.{is_success}
use maxgame_admin_guard.Breaker.{CircuitBreaker, RequestPermit, allow_request}
use maxgame_admin_guard.Breaker.Permit
use maxgame_admin_guard.Jwks.{
  AdminJwksClientConfig, KeySet, KeyCrates, JwksKey, get, unwrap_or, max_age, insert_keys,
  cached_and_fresh, cached_within_grace,
}
use maxgame_admin_guard.Jwks.Keys.{last_key, insert_keys-last}
use maxgame_admin_guard.Jwks.Client.Source.{resolve_key-starts}
use maxgame_admin_guard.Jwks.Client.{
  AdminJwksClient, Reply, World, fresh_key, stale_key, floor_active, start, commit, end_lease,
  drop_permit, read_reply, lead, resolve_key,
}

module _ {Key : Type 0} where
  -- After a fetch that succeeds without the `kid`, no key is served for it, fresh or stale, however
  -- little time has passed since the client held one.
  rotated_out :
      (c : AdminJwksClient Key) (permit : RequestPermit) (kid : String) (now later : ℕ)
      (keys : KeySet Key) (ttl : ℕ)
      → get kid keys ≡ none
      → let (answer, c', permit') = commit c permit kid now (ok (keys, ttl)) in
        (fresh_key c' kid later ≡ none) × (stale_key c' kid later ≡ none)
  unfolding commit stale_key cached_within_grace cached_and_fresh
  rotated_out c permit kid now later keys ttl g = ground arith

module _ {Key : Type 0} (crates : KeyCrates Key) {Net : Type 0} (now : Net → ℕ)
    (send : String → ℕ → Net → Option Reply × Net) (settled : World Key Net → World Key Net) where
  read_reply-keys :
      (config : AdminJwksClientConfig) (r : Reply) (entries : List JwksKey)
      → is_success r.status ≡ true
      → r.keys ≡ some entries
      → read_reply crates config (some r)
        ≡ ok (
          insert_keys crates entries [],
          min (unwrap_or (max_age r.cache_control) config.default_ttl) config.max_ttl,
        )
  unfolding read_reply
  read_reply-keys config r entries i k = rw (i, k) refl

  -- What the answer and the world are after a fetch that brought the key.
  record IsFetched (kid : String) (key : Key) (net : Net) (later : ℕ)
      (r : GuardResult Key × World Key Net) : Type 0 where
    answers : r.0 ≡ ok key
    world : r.1.net ≡ net
    settles : r.1.client.fetch_in_flight ≡ false
    closes : r.1.client.breaker.opened_at ≡ none
    caches : fresh_key r.1.client kid later ≡ some key

  lead-IsFetched :
      (c : AdminJwksClient Key) (permit : RequestPermit) (kid : String) (before : Net)
      (reply : Option Reply) (net : Net) (keys : KeySet Key) (ttl : ℕ) (key : Key) (later : ℕ)
      → permit.settled ≡ false
      → send c.config.jwks_url c.config.http_timeout before ≡ (reply, net)
      → read_reply crates c.config reply ≡ ok (keys, ttl)
      → get kid keys ≡ some key
      → later - now net < ttl
      → IsFetched kid key net later (lead crates now send settled c permit kid before)
  unfolding lead commit Permit.record_success Permit.drop end_lease drop_permit cached_and_fresh
  lead-IsFetched c permit kid before reply net keys ttl key later p s h g t =
      rw (s, h)
        (record {
          answers = ground arith;
          world = refl;
          settles = ground arith;
          closes = ground arith;
          caches = ground arith;
        })

  -- The fetch of a client that holds no fresh key and that neither the floor nor the breaker holds
  -- back answers with the key that the response has last for the `kid`; it leaves the breaker
  -- closed and serves the key from the cache until the response's age, the default where it has
  -- none, or the ceiling has passed.
  pub resolve_key-fetches :
      (kid : String) (w : World Key Net) (b : CircuitBreaker) (permit : RequestPermit) (r : Reply)
      (net : Net) (entries : List JwksKey) (key : Key) (later : ℕ)
      → w.client.fetch_in_flight ≡ false
      → fresh_key w.client kid (now w.net) ≡ none
      → floor_active w.client (now w.net) ≡ false
      → allow_request w.client.breaker (now w.net) ≡ (b, some permit)
      → permit.settled ≡ false
      → send w.client.config.jwks_url w.client.config.http_timeout w.net ≡ (some r, net)
      → is_success r.status ≡ true
      → r.keys ≡ some entries
      → last_key crates kid entries ≡ some key
      → later - now net
        < min
            (unwrap_or (max_age r.cache_control) w.client.config.default_ttl)
            w.client.config.max_ttl
      → let (answer, w') = resolve_key crates now send settled kid w in
        (answer ≡ ok key)
        × (w'.net ≡ net)
        × (w'.client.fetch_in_flight ≡ false)
        × (w'.client.breaker.opened_at ≡ none)
        × (fresh_key w'.client kid later ≡ some key)
  resolve_key-fetches kid w b permit r net entries key later u n f a p s i k l t =
      let is =
        subst (IsFetched kid key net later)
          (sym (resolve_key-starts crates now send settled kid w u n f))
          (rw a (
            lead-IsFetched (start w.client kid (now w.net) (b, some permit)).0 permit kid w.net
              (some r) net (insert_keys crates entries [])
              (min (unwrap_or (max_age r.cache_control) w.client.config.default_ttl)
                w.client.config.max_ttl)
              key later p s (read_reply-keys w.client.config r entries i k)
              (insert_keys-last crates kid entries ∙ l) t)) in
      (is.answers, is.world, is.settles, is.closes, is.caches)
