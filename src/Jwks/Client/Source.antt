-- ===== src/Jwks/Client/Source.antt =====
-- rust/src/jwks.rs: where the answer of an uncontended `resolve_key` comes from.
use maxgame_admin_guard.Base.{
  ℕ, String, ◌≡◌, refl, subst, sym, Bool, true, false, Option, none, some, ok, err, ok_or, arith,
  Bool-cases, inl, inr,
}
use maxgame_admin_guard.Error.{GuardError, unavailable, GuardResult, status}
use maxgame_admin_guard.Breaker.{CircuitBreaker, RequestPermit, allow_request}
use maxgame_admin_guard.Jwks.{KeySet, KeyCrates, get, cached_within_grace}
use maxgame_admin_guard.Jwks.Client.{
  AdminJwksClient, unknown_kid, Reply, World, fresh_key, stale_key, floor_active, floor_answer,
  start, claim, commit, end_lease, drop_permit, read_reply, lead, proceed, resolve_key,
}
use maxgame_admin_guard.Jwks.Client.Laws.{read_reply-unavailable}

module _ {Key : Type 0} (crates : KeyCrates Key) {Net : Type 0} (now : Net → ℕ)
    (send : String → ℕ → Net → Option Reply × Net) (settled : World Key Net → World Key Net) where
  -- This call's one fetch was answered with the key set, which is what the cache now holds.
  pub record Fetched (w w' : World Key Net) (keys : KeySet Key) : Type 0 where
    pub ttl : ℕ
    pub replied :
        read_reply crates w.client.config
          (send w.client.config.jwks_url w.client.config.http_timeout w.net).0
        ≡ ok (keys, ttl)
    pub ended : w'.net ≡ (send w.client.config.jwks_url w.client.config.http_timeout w.net).1
    pub kept : w'.client.cache.keys ≡ keys
    pub held_for : w'.client.cache.ttl ≡ some ttl
    pub fetched_at : w'.client.cache.fetched_at ≡ some (now w'.net)
    pub succeeded : w'.client.cache.last_attempt_failed ≡ false

  -- Where an answer comes from, for a client `c` that no other task uses meanwhile.
  pub data IsAnswered (kid : String) (w w' : World Key Net) : GuardResult Key → Type 0 where
    fresh :
        (key : Key)
        → fresh_key w.client kid (now w.net) ≡ some key
        → w' ≡ w
        → IsAnswered kid w w' (ok key)
    fetched :
        (key : Key) (keys : KeySet Key)
        → Fetched w w' keys
        → get kid keys ≡ some key
        → IsAnswered kid w w' (ok key)
    stale :
        (key : Key)
        → stale_key w.client kid (now w'.net) ≡ some key
        → w'.client.cache.keys ≡ w.client.cache.keys
        → w'.client.cache.fetched_at ≡ w.client.cache.fetched_at
        → IsAnswered kid w w' (ok key)
    unknown :
        (e : GuardError) (keys : KeySet Key)
        → status e ≡ 401
        → Fetched w w' keys
        → get kid keys ≡ none
        → IsAnswered kid w w' (err e)
    held_back :
        (e : GuardError)
        → status e ≡ 401
        → fresh_key w.client kid (now w.net) ≡ none
        → floor_active w.client (now w.net) ≡ true
        → w.client.cache.last_attempt_failed ≡ false
        → w' ≡ w
        → IsAnswered kid w w' (err e)
    outage :
        (e : GuardError)
        → status e ≡ 503
        → stale_key w.client kid (now w'.net) ≡ none
        → w'.client.cache.keys ≡ w.client.cache.keys
        → w'.client.cache.fetched_at ≡ w.client.cache.fetched_at
        → IsAnswered kid w w' (err e)

  from_reply :
      {kid : String} {w w' : World Key Net} (keys : KeySet Key) (o : Option Key) (e : GuardError)
      → Fetched w w' keys
      → get kid keys ≡ o
      → status e ≡ 401
      → IsAnswered kid w w' (ok_or o e)
  from_reply keys none e f g s = unknown e keys s f g
  from_reply keys (some key) e f g s = fetched key keys f g

  from_stale :
      {kid : String} {w w' : World Key Net} (o : Option Key) (e : GuardError)
      → stale_key w.client kid (now w'.net) ≡ o
      → w'.client.cache.keys ≡ w.client.cache.keys
      → w'.client.cache.fetched_at ≡ w.client.cache.fetched_at
      → status e ≡ 503
      → IsAnswered kid w w' (ok_or o e)
  from_stale none e g k f s = outage e s g k f
  from_stale (some key) e g k f s = stale key g k f

  commit-IsAnswered :
      (w : World Key Net) (c : AdminJwksClient Key) (permit : RequestPermit) (kid : String)
      (r : GuardResult (KeySet Key × ℕ))
      → let (reply, net) = send w.client.config.jwks_url w.client.config.http_timeout w.net in
        read_reply crates w.client.config reply ≡ r
        → stale_key c kid (now net) ≡ stale_key w.client kid (now net)
        → c.cache.keys ≡ w.client.cache.keys
        → c.cache.fetched_at ≡ w.client.cache.fetched_at
        → let (answer, c', permit') = commit c permit kid (now net) r in
          IsAnswered kid w
            (record { client = drop_permit (end_lease c') permit'; net = net })
            answer
  unfolding commit drop_permit end_lease status
  commit-IsAnswered w c permit kid (ok (keys, ttl)) r s k f =
      from_reply keys (get kid keys) _
        (record {
          ttl = ttl;
          replied = r;
          ended = refl;
          kept = refl;
          held_for = refl;
          fetched_at = refl;
          succeeded = refl;
        })
        refl refl
  commit-IsAnswered w c permit kid (err e) r s k f =
      let (reply, net) = send w.client.config.jwks_url w.client.config.http_timeout w.net in
      from_stale (stale_key c kid (now net)) e (sym s) k f
        (read_reply-unavailable crates w.client.config reply e r)

  claimed-IsAnswered :
      (kid : String) (w : World Key Net)
      → w.client.fetch_in_flight ≡ false
      → fresh_key w.client kid (now w.net) ≡ none
      → (a : CircuitBreaker × Option RequestPermit)
      → let (answer, w') =
          proceed crates now send settled kid w.net (start w.client kid (now w.net) a) in
        IsAnswered kid w w' answer
  unfolding lead status
  claimed-IsAnswered kid w u n (b, none) =
      from_stale (stale_key w.client kid (now w.net)) _ refl refl refl refl
  claimed-IsAnswered kid w u n (b, some permit) =
      let (reply, net) = send w.client.config.jwks_url w.client.config.http_timeout w.net in
      commit-IsAnswered w (start w.client kid (now w.net) (b, some permit)).0 permit kid
        (read_reply crates w.client.config reply) refl
        (unfold stale_key cached_within_grace in refl) refl refl

  pub resolve_key-fresh :
      (kid : String) (w : World Key Net) (key : Key)
      → fresh_key w.client kid (now w.net) ≡ some key
      → resolve_key crates now send settled kid w ≡ (ok key, w)
  unfolding resolve_key
  resolve_key-fresh kid w key n = ground arith

  pub resolve_key-floored :
      (kid : String) (w : World Key Net)
      → w.client.fetch_in_flight ≡ false
      → fresh_key w.client kid (now w.net) ≡ none
      → floor_active w.client (now w.net) ≡ true
      → resolve_key crates now send settled kid w ≡ (floor_answer w.client kid (now w.net), w)
  unfolding resolve_key claim
  resolve_key-floored kid w u n f = ground arith

  pub resolve_key-starts :
      (kid : String) (w : World Key Net)
      → w.client.fetch_in_flight ≡ false
      → fresh_key w.client kid (now w.net) ≡ none
      → floor_active w.client (now w.net) ≡ false
      → resolve_key crates now send settled kid w
        ≡ proceed crates now send settled kid w.net
            (start w.client kid (now w.net) (allow_request w.client.breaker (now w.net)))
  unfolding resolve_key claim
  resolve_key-starts kid w u n f = ground arith

  pub floor_answer-failed :
      (c : AdminJwksClient Key) (kid : String) (t : ℕ)
      → c.cache.last_attempt_failed ≡ true
      → floor_answer c kid t
        ≡ ok_or
            (stale_key c kid t)
            (unavailable "admin JWKS endpoint unreachable (refetch floor active)")
  unfolding floor_answer
  floor_answer-failed c kid t l = rw l refl

  floor_answer-succeeded :
      (c : AdminJwksClient Key) (kid : String) (t : ℕ)
      → c.cache.last_attempt_failed ≡ false
      → floor_answer c kid t ≡ err (unknown_kid kid "refetch floor active")
  unfolding floor_answer
  floor_answer-succeeded c kid t l = rw l refl

  -- When no other task is out fetching, the answer is one of these. A key is still fresh, or is in
  -- the key set of this call's reply, which the cache then holds, or is stale within the grace
  -- window while the key set was not replaced. A 401 says that the `kid` is not in the reply's key
  -- set, or that the refetch floor held the fetch back with the last one a success. All else is a
  -- 503, with no stale key to serve.
  pub resolve_key-IsAnswered :
      (kid : String) (w : World Key Net)
      → w.client.fetch_in_flight ≡ false
      → let (answer, w') = resolve_key crates now send settled kid w in IsAnswered kid w w' answer
  resolve_key-IsAnswered kid w u = looked (fresh_key w.client kid (now w.net)) refl
    where
      Fits : GuardResult Key × World Key Net → Type 0
      Fits (answer, w') = IsAnswered kid w w' answer

      floored :
          (failed : Bool)
          → w.client.cache.last_attempt_failed ≡ failed
          → floor_active w.client (now w.net) ≡ true
          → fresh_key w.client kid (now w.net) ≡ none
          → IsAnswered kid w w (floor_answer w.client kid (now w.net))
      floored true l f n =
          subst (λ a. IsAnswered kid w w a) (sym (floor_answer-failed w.client kid (now w.net) l))
            (from_stale (stale_key w.client kid (now w.net))
              (unavailable "admin JWKS endpoint unreachable (refetch floor active)") refl refl refl
              (unfold status in refl))
      floored false l f n =
          subst (λ a. IsAnswered kid w w a)
            (sym (floor_answer-succeeded w.client kid (now w.net) l))
            (held_back (unknown_kid kid "refetch floor active") (unfold status in refl) n f l refl)

      looked :
          (o : Option Key)
          → fresh_key w.client kid (now w.net) ≡ o
          → Fits (resolve_key crates now send settled kid w)
      looked (some key) n = subst Fits (sym (resolve_key-fresh kid w key n)) (fresh key n refl)
      looked none n = elim (Bool-cases (floor_active w.client (now w.net))) [
        | inl f ↦
            subst Fits (sym (resolve_key-floored kid w u n f))
              (floored w.client.cache.last_attempt_failed refl f n)
        | inr f ↦
            subst Fits (sym (resolve_key-starts kid w u n f))
              (claimed-IsAnswered kid w u n (allow_request w.client.breaker (now w.net)))
      ]
