-- ===== src/Examples/Keys.antt =====
-- rust/src/jwks.rs, and rust/src/guard.rs over its clients, on a concrete network whose clock ticks
use maxgame_admin_guard.Base.{
  ℕ, ◌+◌, ◌*◌, ◌≤◌, ◌<◌, String, ◌≡◌, ◌≢◌, ◌↔◌, refl, true, false, Option, none, some, List, [],
  ◌∷◌, ok, err, arith,
}
use maxgame_admin_guard.Base.Text.{
  split, trim, trim_start_matches, trim_end_matches, is_whitespace, strip_prefix, parse_u64, digits,
}
use maxgame_admin_guard.Breaker.{allow_request, new_permit, with_clock}
use maxgame_admin_guard.Introspect.Client.{seconds}
use maxgame_admin_guard.Examples as Tokens
use maxgame_admin_guard.Introspect.Client as Live
use maxgame_admin_guard.Guard
use maxgame_admin_guard.Guard.{authorize, is_mutating, default_mutating_methods}
use maxgame_admin_guard.Guard.Wiring.{new_guard, new_world}
use maxgame_admin_guard.Guard.Wiring.Outage.{mutations_fail_closed}
use maxgame_admin_guard.Jwks.{
  JwksKey, KeyCrates, new_config, get, insert_keys, usable_entry, decode_ed25519_key, max_age,
  KeySet, age_directive, cached_and_fresh, AdminJwksClientConfig,
}
use maxgame_admin_guard.Jwks.Keys.{insert_keys-last, last_key}
use maxgame_admin_guard.Jwks.Client.{
  AdminJwksClient, Reply, World, new, fresh_key, floor_active, claim, commit, resolve_key,
  read_reply, answer_from_cache,
}
use maxgame_admin_guard.Jwks.Client.Source.{IsAnswered, resolve_key-IsAnswered}
use maxgame_admin_guard.Jwks.Client.System.{
  Phase, Task, System, Reach, start, later, arrive, make_claim, act, register, reread, looking,
  joining, registered, fetching, committed, waiting, commit_fetch, init, advance, woken,
}
use maxgame_admin_guard.Jwks.Client.System.Safety.{single_flight, no_lost_wakeup}
use maxgame_admin_guard.Jwks.Client.System.Weights.{total, in_flight, probing, announces}
use maxgame_admin_guard.Jwks.Client.System.Floor.{Spaced, fetches-Spaced}
use maxgame_admin_guard.Jwks.Client.System.Progress.{
  Run, done, then, task_steps, arrivals, task_steps-bounded,
}
use maxgame_admin_guard.Jwks.Client.System.Drain.{Drained, every_call_can_finish}
use maxgame_admin_guard.Error.{GuardResult, unavailable}
use maxgame_admin_guard.Jwks.Client.System.Origin.{Brings}
use maxgame_admin_guard.Jwks.Client.System.Early.{early_wakeup}
use maxgame_admin_guard.Jwks.Client.System.Age.{IsRecent, first_read, answers-IsRecent}

-- Keys are numbers of 32 bytes' texts: the text "long" has 32 bytes, any other none.
abbrev pub bytes : List ℕ
bytes =
    1 ∷ 1 ∷ 1 ∷ 1 ∷ 1 ∷ 1 ∷ 1 ∷ 1 ∷ 1 ∷ 1 ∷ 1 ∷ 1 ∷ 1 ∷ 1 ∷ 1 ∷ 1 ∷ 1 ∷ 1 ∷ 1 ∷ 1 ∷ 1 ∷ 1 ∷ 1 ∷ 1
    ∷ 1 ∷ 1 ∷ 1 ∷ 1 ∷ 1 ∷ 1 ∷ 1 ∷ 1 ∷ []

abbrev pub crates : KeyCrates ℕ
crates = record {
  url_safe_decode = λ s. some bytes;
  standard_decode = λ s. none;
  from_bytes = λ b. ok 7;
  show_length = λ n. "?";
}

abbrev pub entry : JwksKey
entry = record { kty = some "OKP"; crv = some "Ed25519"; kid = some "k1"; x = some "AQE" }

abbrev pub rsa : JwksKey
rsa = record { kty = some "RSA"; crv = none; kid = some "k1"; x = none }

abbrev pub reply : Reply
reply = record {
  status = 200;
  status_text = "200 OK";
  cache_control = some "public, max-age=60";
  keys = some (rsa ∷ entry ∷ []);
}

abbrev now : ℕ → ℕ
now net = net

abbrev pub send : String → ℕ → ℕ → Option Reply × ℕ
send url timeout net = (some reply, net + 1)

abbrev pub settled : World ℕ ℕ → World ℕ ℕ
settled w = w

abbrev config : AdminJwksClientConfig
config = new_config "https://idp/jwks"

abbrev world : World ℕ ℕ
world = record { client = new config; net = 5 }

insert_keys-last_example :
    get "k1" (insert_keys crates (rsa ∷ entry ∷ []) []) ≡ last_key crates "k1" (rsa ∷ entry ∷ [])
insert_keys-last_example = insert_keys-last crates "k1" (rsa ∷ entry ∷ [])

resolve_key-IsAnswered_example :
    let (answer, w') = resolve_key crates now send settled "k1" world in
    IsAnswered crates now send settled "k1" world w' answer
resolve_key-IsAnswered_example = resolve_key-IsAnswered crates now send settled "k1" world no_flight
  where
    no_flight : world.client.fetch_in_flight ≡ false
    no_flight = unfold new in refl

abbrev led : AdminJwksClient ℕ
led = (claim (new config) "k1" 5).0

abbrev task : Phase → Task
task phase = record { kid = "k1"; phase = phase }

abbrev at_five : AdminJwksClient ℕ → List Task → List ℕ → System ℕ
at_five client tasks fetches = record { client = client; now = 5; tasks = tasks; fetches = fetches }

-- One task leads a fetch and another waits for it.
abbrev joined_state : System ℕ
joined_state = at_five led (task waiting ∷ task (fetching (new_permit false)) ∷ []) (5 ∷ [])

joined_state-Reach : Reach config joined_state
unfolding claim floor_active cached_and_fresh get new with_clock allow_request new_config
joined_state-Reach =
    let one : Reach config (at_five (new config) (task looking ∷ []) []) =
      later (start 5) (arrive "k1" refl) in
    let two : Reach config (at_five led (task (fetching (new_permit false)) ∷ []) (5 ∷ [])) =
      later one (make_claim [] [] (task looking) refl refl refl) in
    let three : Reach config
        (at_five led (task looking ∷ task (fetching (new_permit false)) ∷ []) (5 ∷ [])) =
      later two (arrive "k1" refl) in
    let four : Reach config
        (at_five led (task joining ∷ task (fetching (new_permit false)) ∷ []) (5 ∷ [])) =
      later three
        (make_claim [] (task (fetching (new_permit false)) ∷ []) (task looking) refl refl refl) in
    let five : Reach config
        (at_five led (task registered ∷ task (fetching (new_permit false)) ∷ []) (5 ∷ [])) =
      later four (
        act [] (task (fetching (new_permit false)) ∷ []) (task registered ∷ []) (task joining) led
          refl (register refl refl refl) refl) in
    later five (
      act [] (task (fetching (new_permit false)) ∷ []) (task waiting ∷ []) (task registered) led
        refl (reread refl refl refl) refl)

single_flight_example :
    (total in_flight joined_state.tasks ≤ 1)
    × (joined_state.client.fetch_in_flight ≡ true ↔ 0 < total in_flight joined_state.tasks)
    × (total probing joined_state.tasks ≤ 1)
    × (joined_state.client.breaker.probe_in_flight ≡ true ↔ 0 < total probing joined_state.tasks)
single_flight_example = single_flight config joined_state joined_state-Reach

no_lost_wakeup_example : 0 < total in_flight joined_state.tasks + total announces joined_state.tasks
no_lost_wakeup_example = no_lost_wakeup config joined_state joined_state-Reach (omega arith)

fetches-Spaced_example : Spaced config.min_refetch_interval (5 ∷ [])
fetches-Spaced_example = fetches-Spaced config joined_state joined_state-Reach

-- One call alone, from its arrival to its claim.
abbrev one_call :
    Run
      (at_five (new config) [] [])
      (at_five led (task (fetching (new_permit false)) ∷ []) (5 ∷ []))
unfolding claim floor_active cached_and_fresh get new with_clock allow_request new_config
one_call =
    then (then (done refl) (arrive "k1" refl)) (make_claim [] [] (task looking) refl refl refl)

task_steps-bounded_example : task_steps one_call + 4 ≤ 0 + 5 * arrivals one_call
task_steps-bounded_example = task_steps-bounded one_call

-- Every fetch brings the same key.
abbrev bring : System ℕ → Task → GuardResult (KeySet ℕ × ℕ)
bring s k = ok (("k1", 7) ∷ [], 60)

every_call_can_finish_example : Drained bring joined_state
every_call_can_finish_example = every_call_can_finish bring config joined_state joined_state-Reach

abbrev brought : KeySet ℕ × ℕ
brought = (("k1", 7) ∷ [], seconds 60)

read_brought : ok brought ≡ read_reply crates led.config (some reply)
unfolding read_reply claim floor_active cached_and_fresh get new with_clock allow_request new_config
    max_age age_directive split trim trim_start_matches trim_end_matches is_whitespace strip_prefix
    parse_u64 digits insert_keys usable_entry decode_ed25519_key
read_brought = refl

abbrev fetched_client : AdminJwksClient ℕ
fetched_client = (commit led (new_permit false) "k1" 5 (ok brought)).1

abbrev fetched_task : Task
fetched_task = task (committed (commit led (new_permit false) "k1" 5 (ok brought)).2)

-- One call alone, up to the end of its fetch.
abbrev one_fetch : Run (init config 5) (at_five fetched_client (fetched_task ∷ []) (5 ∷ []))
one_fetch = then one_call (
    act [] [] (fetched_task ∷ []) (task (fetching (new_permit false))) fetched_client refl
      (commit_fetch (new_permit false) (ok brought) refl refl refl) refl)

-- A nanosecond later.
abbrev fetched_state : System ℕ
fetched_state = record (at_five fetched_client (fetched_task ∷ []) (5 ∷ [])) { now = 6 }

-- All the keys that the fetch brings are the number 7.
abbrev IsSeven : ℕ → String → ℕ → Type 0
IsSeven at kid key = key ≡ 7

brought-IsSeven : Brings crates IsSeven 5 (ok brought)
unfolding get
brought-IsSeven kid key h = ground (arith, h)

answers-IsRecent_example : IsRecent crates IsSeven config 6 "k1" 7
unfolding one_call
answers-IsRecent_example =
    answers-IsRecent crates IsSeven config 5 fetched_state (then one_fetch (advance 1 refl))
      (tt, (((some reply, read_brought), brought-IsSeven), (tt, (tt, tt)))) "k1" 7
      (first_read given)
  where
    given : fresh_key fetched_client "k1" 6 ≡ some 7
    given =
        unfold claim floor_active cached_and_fresh get new with_clock allow_request commit
          new_config in
        refl

early_wakeup_example :
    (s : System ℕ) × (t : System ℕ) × Reach config s
    × (s.tasks
        ≡ task (fetching (new_permit false)) ∷ task (Phase.notifying (new_permit false)) ∷ [])
    × Run s t
    × (t.fetches ≡ s.fetches)
    × (t.tasks
        ≡ task woken
          ∷ task (fetching (new_permit false))
          ∷ task (Phase.settled (new_permit false))
          ∷ [])
    × (t.client.fetch_in_flight ≡ true)
    × (answer_from_cache t.client "k1" t.now ≡ err (unavailable "admin JWKS endpoint unreachable"))
early_wakeup_example = early_wakeup config "k1" 5

-- A network that answers the key endpoint and no introspection.
abbrev pub silent : Live.Request → ℕ → Option Live.Response × ℕ
silent r net = (none, net + 1)

mutations_fail_closed_example :
    authorize Tokens.crates
      (λ w. 0)
      (new_guard crates Tokens.serde now send silent settled Tokens.config)
      "POST"
      (some "h.p.s")
      (some Tokens.may_write)
      (new_world Tokens.config 5)
    ≢ (ok Tokens.ann, new_world Tokens.config 5)
mutations_fail_closed_example =
    mutations_fail_closed Tokens.serde now silent (λ r net. refl) crates send settled Tokens.crates
      (λ w. 0) Tokens.config "POST" (some "h.p.s") (some Tokens.may_write)
      (new_world Tokens.config 5) (new_world Tokens.config 5) Tokens.ann posts
  where
    posts : is_mutating Tokens.config "POST" ≡ true
    posts = unfold is_mutating Guard.new_config Tokens.config default_mutating_methods in refl
