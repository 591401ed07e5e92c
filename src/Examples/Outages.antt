-- ===== src/Examples/Outages.antt =====
-- rust/src/jwks.rs and rust/src/guard.rs over it, on a network that brings no keys.
use maxgame_admin_guard.Base.{
  ℕ, ◌+◌, ◌≤◌, String, ◌≡◌, refl, ap, false, Option, none, some, [], ◌∷◌, ok, err, arith, inr,
}
use maxgame_admin_guard.Error.{GuardError, unavailable, GuardResult}
use maxgame_admin_guard.Introspect.Client.{seconds}
use maxgame_admin_guard.Introspect.Client as Live
use maxgame_admin_guard.Base.Text.{
  trim, split, is_empty, trim_start_matches, trim_end_matches, is_whitespace, str_le,
}
use maxgame_admin_guard.Access.{
  normalize_site_access, normalize_entries, insert_sorted, sort, dedup, insert, raw_features,
  grant_text, has_feature, is_super_admin, lookup, has_any_site_access,
}
use maxgame_admin_guard.Introspect.{non_blank, not_blank}
use maxgame_admin_guard.Token.{
  verify, open_header, split_jwt, decode_json, decode_base64url, header_kid, check_token,
  check_signature, check_signature_bytes, check_claims, check_issuer, check_expiry,
}
use maxgame_admin_guard.Jwks.{
  AdminJwksClientConfig, new_config, get, cached_and_fresh, cached_within_grace,
}
use maxgame_admin_guard.Jwks.Client.{
  AdminJwksClient, Reply, World, new, claim, floor_active, stale_key, resolve_key, read_reply, lead,
  commit, end_lease, drop_permit,
}
use maxgame_admin_guard.Breaker.{with_clock, allow_request}
use maxgame_admin_guard.Breaker.Permit
use maxgame_admin_guard.Jwks.Client.Outage as Client
use maxgame_admin_guard.Jwks.Client.Held.{IsHeld, InWindow}
use maxgame_admin_guard.Jwks.Client.Outage.{Follows, rides_out}
use maxgame_admin_guard.Guard.{
  authorize, authorize_identity, check_live, check_access, is_configured, is_mutating,
  default_mutating_methods,
}
use maxgame_admin_guard.Guard.Wiring.{
  Wired, wired_resolve, wired_introspect, new_guard, introspect_client,
}
use maxgame_admin_guard.Access.{AdminIdentity}
use maxgame_admin_guard.Guard.Blame.{Blames}
use maxgame_admin_guard.Guard.Wiring.Blame.{new_guard-Blames}
use maxgame_admin_guard.Guard.Wiring.Reads.{Requests, none_yet, request, wait, reads_survive_outage}
use maxgame_admin_guard.Examples.{crates, serde, config, verified, ann, may_write}
use maxgame_admin_guard.Examples.Wired.{opened, accepted, configured, may}
use maxgame_admin_guard.Examples.Keys as Toy

abbrev jwks_config : AdminJwksClientConfig
jwks_config = new_config "https://idp/jwks"

abbrev now : ℕ → ℕ
now net = net

abbrev send : String → ℕ → ℕ → Option Reply × ℕ
send url timeout net = (none, net + 1)

abbrev post : Live.Request → ℕ → Option Live.Response × ℕ
post r net = (none, net + 1)

abbrev fails :
    (net : ℕ)
    → (e : GuardError) × (read_reply Toy.crates jwks_config
          (send jwks_config.jwks_url jwks_config.http_timeout net).0
        ≡ err e)
unfolding read_reply
fails net = (unavailable "admin JWKS endpoint unreachable", refl)

abbrev ticks : (url : String) (timeout : ℕ) (net : ℕ) → now net ≤ now (send url timeout net).1
ticks url timeout net = omega arith

floor : jwks_config.min_refetch_interval ≤ seconds 60
unfolding new_config
floor = omega arith

-- A client that fetched the key at 5, for a minute.
abbrev held : AdminJwksClient ℕ
held = record (new jwks_config) {
  cache = record {
    keys = ("k1", 7) ∷ [];
    ttl = some (seconds 60);
    fetched_at = some 5;
    last_attempt_at = some 5;
    last_attempt_failed = false;
  };
}

held-IsHeld : IsHeld jwks_config "k1" 7 5 (seconds 60) held
unfolding get new
held-IsHeld = record {
  same = refl;
  idle = refl;
  has = refl;
  fetched = refl;
  aged = refl;
  tried = inr (omega arith);
}

-- Two minutes later.
abbrev late : World ℕ ℕ
late = record { client = held; net = seconds 120 }

later_on :
    Follows jwks_config "k1" 7 5
      (seconds 60)
      Toy.crates
      now
      send
      Toy.settled
      fails
      ticks
      floor
      (record { client = held; net = 5 })
      late
later_on = Client.wait (seconds 120) (Client.none_yet refl) (omega arith) refl

inside :
    InWindow jwks_config 5
      (seconds 60)
      (now (resolve_key Toy.crates now send Toy.settled "k1" late).1.net)
unfolding resolve_key claim floor_active cached_and_fresh get new with_clock allow_request
    new_config lead commit end_lease drop_permit
inside = omega arith

rides_out_example :
    let (answer, w) = resolve_key Toy.crates now send Toy.settled "k1" late in
    (answer ≡ ok 7) × IsHeld jwks_config "k1" 7 5 (seconds 60) w.client
rides_out_example =
    rides_out jwks_config "k1" 7 5 (seconds 60) Toy.crates now send Toy.settled fails ticks floor
      (record { client = held; net = 5 }) late held-IsHeld later_on inside

abbrev wired : Wired ℕ ℕ
wired = record { jwks = held; introspection = introspect_client config; net = seconds 120 }

reads : is_mutating config "GET" ≡ false
unfolding is_mutating default_mutating_methods config
reads = refl

posts : (r : Live.Request) (net : ℕ) → now net ≤ now (post r net).1
posts r net = omega arith

abbrev started : Wired ℕ ℕ
started = record { jwks = held; introspection = introspect_client config; net = 5 }

-- A request without a token, and then two minutes.
later_requests :
    Requests Toy.crates serde now
      (λ net. 0)
      send
      post
      Toy.settled
      jwks_config
      fails
      ticks
      posts
      config
      crates
      started
      wired
unfolding authorize is_configured not_blank trim is_empty trim_start_matches trim_end_matches
    is_whitespace config new_guard
later_requests =
    wait (seconds 120) (request {v = started} "GET" none (some may_write) (none_yet refl) refl)
      (omega arith) refl

reads_survive_outage_example :
    (authorize crates
      (λ w. 0)
      (new_guard Toy.crates serde now send post Toy.settled config)
      "GET"
      (some "h.p.s")
      (some may_write)
      wired).0
    ≡ ok ann
unfolding config
reads_survive_outage_example =
    reads_survive_outage Toy.crates serde now (λ net. 0) send post Toy.settled jwks_config fails
      ticks posts config crates "k1" 7 5 (seconds 60) floor started "GET" "h.p.s" "h" "p" "s"
      may_write verified wired held-IsHeld later_requests configured reads opened inside accepted
      may

-- A mutation with no introspection to be had.
abbrev refusal : GuardResult AdminIdentity × Wired ℕ ℕ
refusal =
    authorize crates (λ w. 0) (new_guard Toy.crates serde now send post Toy.settled config) "POST"
      (some "h.p.s") (some may_write) wired

refused : refusal.0 ≡ err (unavailable "unable to verify admin session with the IdP")
unfolding authorize authorize_identity check_live config is_configured is_mutating new_guard
    wired_resolve wired_introspect introspect_client verify open_header split_jwt trim split
    is_empty trim_start_matches trim_end_matches is_whitespace decode_json decode_base64url
    header_kid check_token check_signature check_signature_bytes check_claims check_issuer
    check_expiry non_blank not_blank normalize_site_access normalize_entries insert_sorted sort
    dedup insert raw_features grant_text str_le resolve_key claim floor_active cached_and_fresh
    cached_within_grace stale_key get new with_clock allow_request new_config lead commit end_lease
    drop_permit read_reply default_mutating_methods check_access has_feature is_super_admin lookup
    Live.introspect Live.fetch Live.settle_reply Live.with_breaker Live.with_timeout
    Live.with_header_name Live.new Permit.record_failure Permit.drop has_any_site_access
refused = refl

new_guard-Blames_example :
    Blames
      (new_guard Toy.crates serde now send post Toy.settled config)
      "POST"
      wired
      (unavailable "unable to verify admin session with the IdP")
      refusal.1
new_guard-Blames_example =
    new_guard-Blames Toy.crates serde now send post Toy.settled config crates (λ w. 0) "POST"
      (some "h.p.s") (some may_write) wired refusal.1
      (unavailable "unable to verify admin session with the IdP")
      (ap (λ (x : GuardResult AdminIdentity). (x, refusal.1)) refused)
