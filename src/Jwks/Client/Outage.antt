-- ===== src/Jwks/Client/Outage.antt =====
-- rust/src/jwks.rs: `resolve_key` while every fetch fails.
use maxgame_admin_guard.Base.{
  ℕ, ◌-◌, ◌≤◌, String, ◌≡◌, refl, sym, ap, ◌∙◌, subst, true, false, Option, none, some, ok, err,
  arith, Bool-cases, inl, inr,
}
use maxgame_admin_guard.Error.{GuardError, unavailable, GuardResult}
use maxgame_admin_guard.Breaker.{CircuitBreaker, RequestPermit, allow_request}
use maxgame_admin_guard.Jwks.{AdminJwksClientConfig, KeySet, KeyCrates}
use maxgame_admin_guard.Jwks.Client.{
  AdminJwksClient, Reply, World, fresh_key, stale_key, floor_active, floor_answer, start, commit,
  end_lease, drop_permit, read_reply, lead, proceed, resolve_key,
}
use maxgame_admin_guard.Jwks.Client.Source.{
  resolve_key-fresh, resolve_key-floored, resolve_key-starts, floor_answer-failed,
}
use maxgame_admin_guard.Jwks.Client.Held.{
  IsHeld, InWindow, fresh-eq, not_fresh-lapsed, floor-failed, stale-answer, begun-IsHeld,
  refused-IsHeld,
}

module _ {Key : Type 0} (config : AdminJwksClientConfig) (kid : String) (key : Key)
    (at ttl : ℕ) where
  abbrev Held : AdminJwksClient Key → Type 0
  Held c = IsHeld config kid key at ttl c

  module _ (crates : KeyCrates Key) {Net : Type 0} (now : Net → ℕ)
      (send : String → ℕ → Net → Option Reply × Net) (settled : World Key Net → World Key Net)
      (fails : (net : Net)
        → (e : GuardError) × (read_reply crates config
              (send config.jwks_url config.http_timeout net).0
            ≡ err e))
      (ticks : (url : String) (timeout : ℕ) (net : Net) → now net ≤ now (send url timeout net).1)
      (floor : config.min_refetch_interval ≤ ttl) where
    -- The key is still held after the call, time has not gone back, and a call for the key that
    -- ends in the window has got it.
    record Rides (asked : String) (w : World Key Net) (r : GuardResult Key × World Key Net)
        : Type 0 where
      pub holds : Held r.1.client
      pub later : now w.net ≤ now r.1.net
      pub answers : asked ≡ kid → InWindow config at ttl (now r.1.net) → r.0 ≡ ok key

    -- What the leader makes of the fetch's result.
    abbrev led :
        String
        → AdminJwksClient Key
        → RequestPermit
        → Net
        → GuardResult (KeySet Key × ℕ)
        → GuardResult Key × World Key Net
    led asked c permit net r =
        let (answer, c', permit') = commit c permit asked (now net) r in
        (answer, record { client = drop_permit (end_lease c') permit'; net = net })

    started-Rides :
        (asked : String) (w : World Key Net)
        → Held w.client
        → (asked ≡ kid → ttl ≤ now w.net - at)
        → (a : CircuitBreaker × Option RequestPermit)
        → Rides asked w
            (proceed crates now send settled asked w.net (start w.client asked (now w.net) a))
    unfolding lead
    started-Rides asked w i l (b, none) = record {
      holds = refused-IsHeld w.client b i;
      later = omega arith;
      answers = λ same inside.
          stale-answer w.client (now w.net) asked
            (unavailable "admin JWKS endpoint is temporarily unavailable") i same (l same) inside;
    }
    started-Rides asked w i l (b, some permit) =
        let c = (start w.client asked (now w.net) (b, some permit)).0 in
        let (reply, net) = send w.client.config.jwks_url w.client.config.http_timeout w.net in
        let later = ticks w.client.config.jwks_url w.client.config.http_timeout w.net in
        let (e, failed) =
          subst
            (λ (x : AdminJwksClientConfig).
              (e : GuardError) × (read_reply crates x (send x.jwks_url x.http_timeout w.net).0
                ≡ err e))
            (sym i.same) (fails w.net) in
        subst (λ r. Rides asked w (led asked c permit net r)) (sym failed)
          (record {
            holds =
                unfold commit drop_permit end_lease in
                begun-IsHeld w.client _ (now w.net) false refl i;
            later = later;
            answers = λ same inside.
                unfold commit stale_key in
                stale-answer (record c { fetch_in_flight = false }) (now net) asked e
                  (begun-IsHeld w.client b (now w.net) false refl i) same
                  (omega (arith, l same, later)) inside;
          })

    call-Rides :
        (asked : String) (w : World Key Net)
        → Held w.client
        → Rides asked w (resolve_key crates now send settled asked w)
    call-Rides asked w i = looked (fresh_key w.client asked (now w.net)) refl
      where
        lapsed : fresh_key w.client asked (now w.net) ≡ none → asked ≡ kid → ttl ≤ now w.net - at
        lapsed f same =
            not_fresh-lapsed w.client (now w.net) i
              (subst (λ (s : String). fresh_key w.client s (now w.net) ≡ none) same f)

        floored :
            fresh_key w.client asked (now w.net) ≡ none
            → floor_active w.client (now w.net) ≡ true
            → asked ≡ kid
            → InWindow config at ttl (now w.net)
            → floor_answer w.client asked (now w.net) ≡ ok key
        floored f b same inside =
            let failed = floor-failed w.client (now w.net) floor i (lapsed f same) b in
            floor_answer-failed crates now send settled w.client asked (now w.net) failed
            ∙ stale-answer w.client (now w.net) asked
                (unavailable "admin JWKS endpoint unreachable (refetch floor active)") i same
                (lapsed f same) inside

        looked :
            (o : Option Key)
            → fresh_key w.client asked (now w.net) ≡ o
            → Rides asked w (resolve_key crates now send settled asked w)
        looked (some k) f =
            subst (Rides asked w) (sym (resolve_key-fresh crates now send settled asked w k f))
              (record {
                holds = i;
                later = omega arith;
                answers = λ same inside. ap ok (
                    fresh-eq w.client (now w.net) k i
                      (subst (λ (s : String). fresh_key w.client s (now w.net) ≡ some k) same f));
              })
        looked none f = elim (Bool-cases (floor_active w.client (now w.net))) [
          | inl b ↦
              subst (Rides asked w)
                (sym (resolve_key-floored crates now send settled asked w i.idle f b))
                (record { holds = i; later = omega arith; answers = floored f b })
          | inr b ↦
              subst (Rides asked w)
                (sym (resolve_key-starts crates now send settled asked w i.idle f b))
                (started-Rides asked w i (lapsed f) (allow_request w.client.breaker (now w.net)))
        ]

    -- Calls one after another, for any kids, with any changes of the network between them in which
    -- time does not go back.
    pub data Follows (w : World Key Net) : World Key Net → Type 0 where
      none_yet : {w' : World Key Net} → w' ≡ w → Follows w w'
      call :
          {u v : World Key Net} (asked : String)
          → Follows w u
          → v ≡ (resolve_key crates now send settled asked u).1
          → Follows w v
      wait :
          {u v : World Key Net} (net : Net)
          → Follows w u
          → now u.net ≤ now net
          → v ≡ record u { net = net }
          → Follows w v

    Follows-IsHeld : {w w' : World Key Net} → Follows w w' → Held w.client → Held w'.client
    Follows-IsHeld (none_yet e) i = subst (λ (x : World Key Net). Held x.client) (sym e) i
    Follows-IsHeld (call {u = u} asked f e) i =
        subst (λ (x : World Key Net). Held x.client) (sym e)
          (call-Rides asked u (Follows-IsHeld f i)).holds
    Follows-IsHeld (wait {u = u} net f t e) i =
        subst (λ (x : World Key Net). Held x.client) (sym e) (Follows-IsHeld f i)

    -- While every fetch fails, the key is held, and so every call for it that ends within the TTL
    -- and the grace window answers with it, after any calls for any kids and whatever the breaker
    -- has come to, as long as the TTL is no shorter than the refetch floor.
    pub rides_out :
        (w w' : World Key Net)
        → Held w.client
        → Follows w w'
        → let (answer, w'') = resolve_key crates now send settled kid w' in
          InWindow config at ttl (now w''.net) → (answer ≡ ok key) × Held w''.client
    rides_out w w' i f inside =
        let rides = call-Rides kid w' (Follows-IsHeld f i) in
        (rides.answers refl inside, rides.holds)
