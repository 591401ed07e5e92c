-- ===== src/Jwks/Client/System/Early.antt =====
-- rust/src/jwks.rs under concurrency: the gap between the two halves of `FetchLease::drop`.
use maxgame_admin_guard.Base.{
  ℕ, ◌+◌, String, ◌≡◌, refl, true, false, some, err, List, [], ◌∷◌, arith,
}
use maxgame_admin_guard.Error.{unavailable}
use maxgame_admin_guard.Breaker.{new_permit, with_clock, allow_request}
use maxgame_admin_guard.Jwks.{
  AdminJwksClientConfig, get, empty_cache, cached_and_fresh, cached_within_grace,
}
use maxgame_admin_guard.Jwks.Client.{
  AdminJwksClient, joined, leading, new, claim, end_lease, floor_active, stale_key,
  answer_from_cache,
}
use maxgame_admin_guard.Jwks.Client.System.{
  Phase, Task, System, looking, joining, registered, waiting, woken, fetching, committed, notifying,
  settled, register, reread, cancel, clear_flag, Reach, start, later, advance, arrive, make_claim,
  act, notify,
}
use maxgame_admin_guard.Jwks.Client.System.Progress.{Run, done, then}

-- A new client after a fetch has begun at that time, and nothing has come of it yet.
abbrev attempted : {Key : Type 0} → AdminJwksClientConfig → ℕ → AdminJwksClient Key
attempted config at = record (new config) {
  cache = record empty_cache { last_attempt_at = some at; last_attempt_failed = true };
  fetch_in_flight = true;
}

abbrev task : String → Phase → Task
task kid phase = record { kid = kid; phase = phase }

abbrev at_time : {Key : Type 0} → ℕ → AdminJwksClient Key → List Task → List ℕ → System Key
at_time now client tasks fetches = record {
  client = client;
  now = now;
  tasks = tasks;
  fetches = fetches;
}

module _ (Key : Type 0) (config : AdminJwksClientConfig) (kid : String) (began lapsed : ℕ)
    (floor : lapsed ≡ began + config.min_refetch_interval) where
  first :
      claim {Key = Key} (new config) kid began
      ≡ (attempted config began, leading (new_permit false))
  unfolding claim floor_active cached_and_fresh get new with_clock allow_request
  first = refl

  settles : floor_active {Key = Key} (end_lease (attempted config began)) lapsed ≡ false
  unfolding floor_active end_lease new
  settles = ground (arith, floor)

  second :
      claim {Key = Key} (end_lease (attempted config began)) kid lapsed
      ≡ (attempted config lapsed, leading (new_permit false))
  unfolding claim cached_and_fresh get new with_clock allow_request end_lease
  second = rw settles refl

  third : claim {Key = Key} (attempted config lapsed) kid lapsed ≡ (attempted config lapsed, joined)
  unfolding claim floor_active cached_and_fresh get new with_clock allow_request
  third = refl

  no_answer :
      answer_from_cache {Key = Key} (attempted config lapsed) kid lapsed
      ≡ err (unavailable "admin JWKS endpoint unreachable")
  unfolding answer_from_cache cached_and_fresh get new stale_key cached_within_grace
  no_answer = ground arith

  -- The first fetch outlives the floor and its future is dropped, up to the first half of its
  -- lease's end.
  dropped : Reach {Key = Key} config (
      at_time lapsed
        (end_lease (attempted config began))
        (task kid (notifying (new_permit false)) ∷ [])
        (began ∷ []))
  dropped =
      let p = new_permit false in
      let led : Reach config
          (at_time began (attempted config began) (task kid (fetching p) ∷ []) (began ∷ [])) =
        later (later (start began) (arrive kid refl))
          (make_claim [] [] (task kid looking) refl refl (rw first refl)) in
      let late : Reach config
          (at_time lapsed (attempted config began) (task kid (fetching p) ∷ []) (began ∷ [])) =
        later led (advance config.min_refetch_interval (rw floor refl)) in
      let gone : Reach config
          (at_time lapsed (attempted config began) (task kid (committed p) ∷ []) (began ∷ [])) =
        later late (
          act [] [] (task kid (committed p) ∷ []) (task kid (fetching p)) (attempted config began)
            refl (cancel p refl refl refl) refl) in
      later gone (
        act [] [] (task kid (notifying p) ∷ []) (task kid (committed p))
          (end_lease (attempted config began)) refl (clear_flag p refl refl refl) refl)

  -- In the gap a second task begins a fetch, and nobody waits.
  pub second_out : Reach {Key = Key} config (
      at_time lapsed
        (attempted config lapsed)
        (task kid (fetching (new_permit false)) ∷ task kid (notifying (new_permit false)) ∷ [])
        (lapsed ∷ began ∷ []))
  second_out =
      let p = new_permit false in
      later (later dropped (arrive kid refl))
        (make_claim [] (task kid (notifying p) ∷ []) (task kid looking) refl refl (rw second refl))

  -- A third task arrives, joins the second one's fetch and waits, and is woken by the first.
  pub third_woken :
      let p = new_permit false in
      Run {Key = Key}
        (at_time lapsed
          (attempted config lapsed)
          (task kid (fetching p) ∷ task kid (notifying p) ∷ [])
          (lapsed ∷ began ∷ []))
        (at_time lapsed
          (attempted config lapsed)
          (task kid woken ∷ task kid (fetching p) ∷ task kid (settled p) ∷ [])
          (lapsed ∷ began ∷ []))
  third_woken =
      let p = new_permit false in
      let others = task kid (fetching p) ∷ task kid (notifying p) ∷ [] in
      let from =
        at_time {Key = Key} lapsed (attempted config lapsed) others (lapsed ∷ began ∷ []) in
      let joins : Run from (
          at_time lapsed (attempted config lapsed) (task kid joining ∷ others)
            (lapsed ∷ began ∷ [])) =
        then (then (done refl) (arrive kid refl))
          (make_claim [] others (task kid looking) refl refl (rw third refl)) in
      let listens : Run from (
          at_time lapsed (attempted config lapsed) (task kid registered ∷ others)
            (lapsed ∷ began ∷ [])) =
        then joins (
          act [] others (task kid registered ∷ []) (task kid joining) (attempted config lapsed) refl
            (register refl refl refl) refl) in
      let waits : Run from (
          at_time lapsed (attempted config lapsed) (task kid waiting ∷ others)
            (lapsed ∷ began ∷ [])) =
        then listens (
          act [] others (task kid waiting ∷ []) (task kid registered) (attempted config lapsed) refl
            (reread refl refl refl) refl) in
      then waits (
        notify (task kid waiting ∷ task kid (fetching p) ∷ []) [] (task kid (notifying p)) p refl
          refl refl)

-- Whatever the configuration and the kid, some interleaving comes to a state in which one fetch is
-- out, the lease of an earlier one has cleared the flag and not yet notified, and nobody waits; and
-- from there, with no other fetch begun, to one in which a task that has arrived since is woken
-- while the fetch that it joined is still out, and would answer 503.
pub early_wakeup :
    {Key : Type 0} (config : AdminJwksClientConfig) (kid : String) (began : ℕ)
    → (s : System Key) × (t : System Key) × Reach config s
      × (s.tasks
          ≡ task kid (fetching (new_permit false)) ∷ task kid (notifying (new_permit false)) ∷ [])
      × Run s t
      × (t.fetches ≡ s.fetches)
      × (t.tasks
          ≡ task kid woken
            ∷ task kid (fetching (new_permit false))
            ∷ task kid (settled (new_permit false))
            ∷ [])
      × (t.client.fetch_in_flight ≡ true)
      × (answer_from_cache t.client kid t.now ≡ err (unavailable "admin JWKS endpoint unreachable"))
early_wakeup {Key} config kid began =
    let lapsed = began + config.min_refetch_interval in
    let p = new_permit false in
    (
      at_time lapsed (attempted config lapsed) (task kid (fetching p) ∷ task kid (notifying p) ∷ [])
          (lapsed ∷ began ∷ []),
      at_time lapsed (attempted config lapsed)
          (task kid woken ∷ task kid (fetching p) ∷ task kid (settled p) ∷ [])
          (lapsed ∷ began ∷ []),
      second_out Key config kid began lapsed refl,
      refl,
      third_woken Key config kid began lapsed refl,
      refl,
      refl,
      refl,
      no_answer Key config kid began lapsed refl,
    )
