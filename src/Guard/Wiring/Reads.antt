-- ===== src/Guard/Wiring/Reads.antt =====
-- rust/src/guard.rs: reads through the wired guard while no key can be fetched.
use maxgame_admin_guard.Base.{
  ℕ, ◌≤◌, String, ◌≡◌, refl, sym, ap, subst, true, false, Option, some, ok, err, and_then, inl, inr,
  arith,
}
use maxgame_admin_guard.Error.{GuardError, GuardResult}
use maxgame_admin_guard.Json.{Serde}
use maxgame_admin_guard.Access.{has_feature}
use maxgame_admin_guard.Introspect.Client as Live
use maxgame_admin_guard.Token.{Crates, VerifiedAdminToken, now_ts, verify}
use maxgame_admin_guard.Token.Laws.{IsOpened, IsAccepted}
use maxgame_admin_guard.Token.Verify.{verify_iff}
use maxgame_admin_guard.Jwks.{AdminJwksClientConfig, KeyCrates}
use maxgame_admin_guard.Jwks.Client as Keys
use maxgame_admin_guard.Jwks.Client.Outage as Client
use maxgame_admin_guard.Jwks.Client.Held.{IsHeld, InWindow}
use maxgame_admin_guard.Jwks.Client.Outage.{Follows, rides_out}
use maxgame_admin_guard.Guard.Frame.{authorize-keeps}
use maxgame_admin_guard.Introspect.{IntrospectionBody, from_body}
use maxgame_admin_guard.Introspect.Client.Laws.{fetch_cases}
use maxgame_admin_guard.Guard.{
  AdminGuard, token_identity, GuardConfig, Requirement, is_mutating, is_configured, authorize,
}
use maxgame_admin_guard.Guard.Laws.{unchanged, authorize_iff, check_access_iff}
use maxgame_admin_guard.Guard.Wiring.{Wired, wired_resolve, wired_introspect, new_guard}

module _ {Key Net : Type 0} (key_crates : KeyCrates Key) (serde : Serde) (now unix : Net → ℕ)
    (send : String → ℕ → Net → Option Keys.Reply × Net)
    (post : Live.Request → Net → Option Live.Response × Net)
    (settled : Keys.World Key Net → Keys.World Key Net) (keys : AdminJwksClientConfig)
    (fails : (net : Net)
      → (e : GuardError) × (Keys.read_reply key_crates keys
            (send keys.jwks_url keys.http_timeout net).0
          ≡ err e))
    (ticks : (url : String) (timeout : ℕ) (net : Net) → now net ≤ now (send url timeout net).1)
    (posts : (r : Live.Request) (net : Net) → now net ≤ now (post r net).1) where
  abbrev keys_world : Wired Key Net → Keys.World Key Net
  keys_world w = record { client = w.jwks; net = w.net }

  introspect-later :
      (token : String) (w : Live.World Net)
      → now w.net ≤ now (Live.introspect now post serde token w).1.net
  unfolding Live.introspect
  introspect-later token w = rw (world (Live.fetch now post token w)) fetched
    where
      world :
          (r : GuardResult IntrospectionBody × Live.World Net)
          → (and_then r (λ body v. (ok (from_body serde body), v))).1 ≡ r.1
      world (ok body, v) = refl
      world (err e, v) = refl

      fetched : now w.net ≤ now (Live.fetch now post token w).1.net
      fetched = elim (fetch_cases now post token w) [
        | inl (refused, same, unanswered) ↦ rw same (omega arith)
        | inr (sent, answers) ↦ rw sent (posts (Live.request w.client token) w.net)
      ]

  held-authorized :
      (config : GuardConfig) (crates : Crates Key) (method token h p s kid : String)
      (require : Requirement) (key : Key) (at ttl : ℕ) (t : VerifiedAdminToken)
      (before : Keys.World Key Net) (w : Wired Key Net) (floor : keys.min_refetch_interval ≤ ttl)
      → IsHeld keys kid key at ttl before.client
      → Follows keys kid key at ttl key_crates now send settled fails ticks floor before
          (keys_world w)
      → is_configured config ≡ true
      → is_mutating config method ≡ false
      → IsOpened crates token h p s kid
      → let net = (Keys.resolve_key key_crates now send settled kid (keys_world w)).1.net in
        InWindow keys at ttl (now net)
        → IsAccepted crates config.issuer (now_ts crates unix net) key h p s t
        → has_feature (token_identity token t) require.site require.feature ≡ true
        → (authorize crates
            (λ w. unix w.net)
            (new_guard key_crates serde now send post settled config)
            method
            (some token)
            (some require)
            w).0
          ≡ ok (token_identity token t)
  unfolding new_guard
  held-authorized config crates method token h p s kid require key at ttl t before w floor held
        follows configured reads opened inside accepted granted =
      ap (λ x. x.0)
        ((authorize_iff guard method crates (λ w. unix w.net) (some token) (some require) w
            (token_identity token t) after).1
          (record {
            configured = configured;
            token = token;
            has_token = refl;
            verified = t;
            after = after;
            verifies = verifies;
            required = require;
            has_requirement = refl;
            claims_suffice = (check_access_iff (token_identity token t) require).1 granted;
            live = unchanged reads refl refl;
          }))
    where
      guard : AdminGuard (Wired Key Net) Key
      guard = new_guard key_crates serde now send post settled config

      after : Wired Key Net
      after = (wired_resolve key_crates serde now send post settled kid w).1

      resolution : GuardResult Key × Keys.World Key Net
      resolution = Keys.resolve_key key_crates now send settled kid (keys_world w)

      resolved : resolution.0 ≡ ok key
      resolved =
          (rides_out keys kid key at ttl key_crates now send settled fails ticks floor before
            (keys_world w) held follows inside).0

      verifies : verify crates (λ w. unix w.net) guard.verifier token w ≡ (ok t, after)
      verifies = (verify_iff crates (λ w. unix w.net) guard.verifier token w after t).1 (record {
        h = h;
        p = p;
        s = s;
        kid = kid;
        key = key;
        opened = opened;
        resolved = unfold wired_resolve in ap (λ (x : GuardResult Key). (x, after)) resolved;
        accepted = unfold wired_resolve in accepted;
      })

  module _ (config : GuardConfig) (crates : Crates Key) where
    abbrev guard : AdminGuard (Wired Key Net) Key
    guard = new_guard key_crates serde now send post settled config

    -- Requests one after another, of any kind and with any outcome, with any changes of the network
    -- between them in which time does not go back.
    pub data Requests (w : Wired Key Net) : Wired Key Net → Type 0 where
      none_yet : {w' : Wired Key Net} → w' ≡ w → Requests w w'
      request :
          {u v : Wired Key Net} (method : String) (bearer : Option String)
          (require : Option Requirement)
          → Requests w u
          → v ≡ (authorize crates (λ w. unix w.net) guard method bearer require u).1
          → Requests w v
      wait :
          {u v : Wired Key Net} (net : Net)
          → Requests w u
          → now u.net ≤ now net
          → v ≡ record u { net = net }
          → Requests w v

    module _ (kid : String) (key : Key) (at ttl : ℕ) (floor : keys.min_refetch_interval ≤ ttl)
        (start : Wired Key Net) where
      abbrev Reached : Wired Key Net → Type 0
      Reached w =
          Follows keys kid key at ttl key_crates now send settled fails ticks floor
            (keys_world start) (keys_world w)

      -- To the JWKS client a run of requests is a run of its calls.
      Requests-Follows : (w : Wired Key Net) → Requests start w → Reached w
      unfolding new_guard wired_resolve wired_introspect
      Requests-Follows w (none_yet e) = Client.none_yet (ap keys_world e)
      Requests-Follows w (request {u = u} method bearer require r e) = subst Reached (sym e) (
          authorize-keeps crates (λ w. unix w.net) guard Reached
            (λ asked v f. Client.call asked f refl)
            (λ token v f.
              Client.wait
                (Live.introspect now post serde token
                  (record { client = v.introspection; net = v.net })).1.net
                f (introspect-later token (record { client = v.introspection; net = v.net })) refl)
            method bearer require u (Requests-Follows u r))
      Requests-Follows w (wait {u = u} net r t e) =
          subst Reached (sym e) (Client.wait net (Requests-Follows u r) t refl)

      -- While every fetch of the keys fails, and whatever introspection answers, reads go on being
      -- authorized, as the admin of the claims, after any requests: where the guard is configured, the
      -- token opens, the key that it names is held from before, the lookup ends within the key's TTL
      -- and the grace window, the token is accepted under the key at that time, its claims grant the
      -- requirement, and the TTL is no shorter than the refetch floor.
      pub reads_survive_outage :
          (method token h p s : String) (require : Requirement) (t : VerifiedAdminToken)
          (w : Wired Key Net)
          → IsHeld keys kid key at ttl start.jwks
          → Requests start w
          → is_configured config ≡ true
          → is_mutating config method ≡ false
          → IsOpened crates token h p s kid
          → let net = (Keys.resolve_key key_crates now send settled kid (keys_world w)).1.net in
            InWindow keys at ttl (now net)
            → IsAccepted crates config.issuer (now_ts crates unix net) key h p s t
            → has_feature (token_identity token t) require.site require.feature ≡ true
            → (authorize crates (λ w. unix w.net) guard method (some token) (some require) w).0
              ≡ ok (token_identity token t)
      reads_survive_outage method token h p s require t w held run =
          held-authorized config crates method token h p s kid require key at ttl t
            (keys_world start) w floor held (Requests-Follows w run)
