-- ===== src/Guard/Wiring/Success.antt =====
-- rust/src/guard.rs: the wired guard while the identity provider answers, from `AdminGuard::new` to
-- the first mutation that it authorizes.
use maxgame_admin_guard.Base.{
  ℕ, ◌<◌, String, ◌≡◌, refl, sym, ap, ◌∙◌, subst, true, false, Option, none, some, List, ok, arith,
  inl, inr, min, ◌≢◌, and_then-ok,
}
use maxgame_admin_guard.Error.{GuardResult}
use maxgame_admin_guard.Json.{Serde}
use maxgame_admin_guard.Access.{AdminIdentity, SiteAccess, has_feature}
use maxgame_admin_guard.Breaker.{allow_request, with_clock, new_permit}
use maxgame_admin_guard.Introspect.{AdminIntrospection, active, IntrospectionBody, from_body}
use maxgame_admin_guard.Introspect.Client as Live
use maxgame_admin_guard.Introspect.Client.{is_success}
use maxgame_admin_guard.Introspect.Client.Laws.{Answers, fetch_cases}
use maxgame_admin_guard.Token.{Crates, VerifiedAdminToken, now_ts, verify}
use maxgame_admin_guard.Token.Laws.{IsOpened, IsAccepted}
use maxgame_admin_guard.Token.Verify.{verify_iff}
use maxgame_admin_guard.Jwks.{
  KeyCrates, JwksKey, cached_and_fresh, get, default_jwks_ttl, max_jwks_ttl, max_age, unwrap_or,
  default_http_timeout, default_jwks_breaker_failure_threshold, default_jwks_breaker_reset,
}
use maxgame_admin_guard.Jwks
use maxgame_admin_guard.Jwks.Keys.{last_key, max_age-bounds}
use maxgame_admin_guard.Jwks.Client as Keys
use maxgame_admin_guard.Jwks.Client.{floor_active, fresh_key}
use maxgame_admin_guard.Jwks.Client.Window.{resolve_key-fetches}
use maxgame_admin_guard.Guard.{
  AdminGuard, token_identity, GuardConfig, Requirement, is_mutating, is_configured, authorize,
  apply_verdict,
}
use maxgame_admin_guard.Guard.Laws.{confirmed, authorize_iff, check_access_iff}
use maxgame_admin_guard.Guard.Wiring.{
  Wired, wired_resolve, wired_introspect, new_guard, new_world, jwks_client, introspect_client,
}

module _ {Key Net : Type 0} (key_crates : KeyCrates Key) (serde : Serde) (now unix : Net → ℕ)
    (send : String → ℕ → Net → Option Keys.Reply × Net)
    (post : Live.Request → Net → Option Live.Response × Net)
    (settled : Keys.World Key Net → Keys.World Key Net) (config : GuardConfig) where
  -- An age is some time.
  age-positive :
      (header : Option String) → 0 < min (unwrap_or (max_age header) default_jwks_ttl) max_jwks_ttl
  age-positive header = by_age (max_age header) refl
    where
      by_age :
          (o : Option ℕ) → max_age header ≡ o → 0 < min (unwrap_or o default_jwks_ttl) max_jwks_ttl
      by_age none e = omega arith
      by_age (some ttl) e =
          let (n, same, low, high) = max_age-bounds header ttl e in omega (arith, same, low)

  -- A new guard's first key comes from the first answer of the key endpoint.
  resolves :
      (net net' : Net) (kid : String) (r : Keys.Reply) (entries : List JwksKey) (key : Key)
      → send config.jwks_url default_http_timeout net ≡ (some r, net')
      → is_success r.status ≡ true
      → r.keys ≡ some entries
      → last_key key_crates kid entries ≡ some key
      → let (answer, w) =
          Keys.resolve_key key_crates now send settled kid
            (record { client = jwks_client config; net = net }) in
        (answer ≡ ok key) × (w.net ≡ net')
  unfolding jwks_client Keys.new Jwks.new_config cached_and_fresh get floor_active with_clock
      allow_request
  resolves net net' kid r entries key s i k l =
      let fetched =
        resolve_key-fetches key_crates now send settled kid
          (record { client = jwks_client config; net = net })
          (with_clock default_jwks_breaker_failure_threshold default_jwks_breaker_reset)
          (new_permit false) r net' entries key (now net') refl refl refl refl refl s i k l
          (omega (arith, age-positive r.cache_control)) in
      (fetched.0, fetched.1)

  -- The breaker of a new introspection client is closed.
  not_refused : (n : ℕ) → (allow_request (introspect_client config).breaker n).1 ≢ none
  unfolding introspect_client Live.with_breaker Live.with_timeout Live.with_header_name with_clock
      allow_request
  not_refused n h = cc h

  -- A new guard's first introspection is answered with what the response says.
  introspects :
      (jwks : Keys.AdminJwksClient Key) (net net' : Net) (token : String) (r : Live.Response)
      (body : IntrospectionBody)
      → post (Live.request (introspect_client config) token) net ≡ (some r, net')
      → is_success r.status ≡ true
      → r.body ≡ some body
      → let w : Wired Key Net = record {
        jwks = jwks;
        introspection = introspect_client config;
        net = net;
      } in
        (wired_introspect key_crates serde now send post settled token w).0
        ≡ ok (from_body serde body)
  unfolding wired_introspect Live.introspect
  introspects jwks net net' token r body p i b =
      ap (λ x. x.0)
        (and_then-ok
          (Live.fetch now post token (record { client = introspect_client config; net = net })) _
          body fetched)
    where
      fetched :
          (Live.fetch now post token (record { client = introspect_client config; net = net })).0
          ≡ ok body
      fetched =
          elim (fetch_cases now post token
            (record { client = introspect_client config; net = net })) [
              | inl (refused, same, unanswered) ↦ absurd (not_refused (now net) refused)
              | inr (world, answers) ↦
                  (answers body).1
                    (subst (λ (x : Option Live.Response × Net). Answers x.0 body) (sym p) (i, b))
            ]

  -- The first mutation of a new guard: where the guard is configured, the bearer token opens, the
  -- key endpoint answers with a set that holds its key, the token is accepted under that key at the
  -- time after that answer, the claims grant the requirement, and the identity provider then
  -- answers that the session is active with grants that meet it as well, the request is authorized
  -- as the admin that the verdict names.
  pub first_mutation-authorized :
      (crates : Crates Key) (method token h p s kid : String) (require : Requirement)
      (net net₁ net₂ : Net) (keys : Keys.Reply) (entries : List JwksKey) (key : Key)
      (t : VerifiedAdminToken) (reply : Live.Response) (body : IntrospectionBody)
      (admin_id role : String) (access : SiteAccess)
      → is_configured config ≡ true
      → is_mutating config method ≡ true
      → IsOpened crates token h p s kid
      → send config.jwks_url default_http_timeout net ≡ (some keys, net₁)
      → is_success keys.status ≡ true
      → keys.keys ≡ some entries
      → last_key key_crates kid entries ≡ some key
      → IsAccepted crates config.issuer (now_ts crates unix net₁) key h p s t
      → has_feature (token_identity token t) require.site require.feature ≡ true
      → post (Live.request (introspect_client config) token) net₁ ≡ (some reply, net₂)
      → is_success reply.status ≡ true
      → reply.body ≡ some body
      → from_body serde body ≡ active admin_id role access
      → let live : AdminIdentity = record {
        admin_id = admin_id;
        role = role;
        site_access = access;
        token = token;
      } in
        has_feature live require.site require.feature ≡ true
        → (authorize crates
            (λ w. unix w.net)
            (new_guard key_crates serde now send post settled config)
            method
            (some token)
            (some require)
            (new_world config net)).0
          ≡ ok live
  unfolding new_guard
  first_mutation-authorized crates method token h p s kid require net net₁ net₂ keys entries key t
        reply body admin_id role access configured mutates opened sent success parsed found accepted
        granted posted answered read verdict live_granted =
      ap (λ x. x.0)
        ((authorize_iff guard method crates seconds_of (some token) (some require)
            (new_world config net) live w₂).1
          (record {
            configured = configured;
            token = token;
            has_token = refl;
            verified = t;
            after = w₁;
            verifies = verifies;
            required = require;
            has_requirement = refl;
            claims_suffice = (check_access_iff (token_identity token t) require).1 granted;
            live =
                confirmed (active admin_id role access) mutates asked (unfold apply_verdict in refl)
                  ((check_access_iff live require).1 live_granted);
          }))
    where
      seconds_of : Wired Key Net → ℕ
      seconds_of w = unix w.net

      guard : AdminGuard (Wired Key Net) Key
      guard = new_guard key_crates serde now send post settled config

      live : AdminIdentity
      live = record { admin_id = admin_id; role = role; site_access = access; token = token }

      resolution : GuardResult Key × Keys.World Key Net
      resolution =
          Keys.resolve_key key_crates now send settled kid
            (record { client = jwks_client config; net = net })

      w₁ : Wired Key Net
      w₁ = record {
        jwks = resolution.1.client;
        introspection = introspect_client config;
        net = resolution.1.net;
      }

      resolved : (resolution.0 ≡ ok key) × (resolution.1.net ≡ net₁)
      resolved = resolves net net₁ kid keys entries key sent success parsed found

      verifies : verify crates seconds_of guard.verifier token (new_world config net) ≡ (ok t, w₁)
      verifies =
          (verify_iff crates seconds_of guard.verifier token (new_world config net) w₁ t).1
            (record {
              h = h;
              p = p;
              s = s;
              kid = kid;
              key = key;
              opened = opened;
              resolved = unfold wired_resolve in ap (λ (x : GuardResult Key). (x, w₁)) resolved.0;
              accepted =
                  subst
                    (λ (n : Net).
                      IsAccepted crates config.issuer (now_ts crates unix n) key h p s t)
                    (sym resolved.1) accepted;
            })

      introspection : GuardResult AdminIntrospection × Wired Key Net
      introspection = wired_introspect key_crates serde now send post settled token w₁

      w₂ : Wired Key Net
      w₂ = introspection.1

      asked : introspection ≡ (ok (active admin_id role access), w₂)
      asked =
          ap (λ (x : GuardResult AdminIntrospection). (x, w₂))
            (introspects resolution.1.client resolution.1.net net₂ token reply body
                (subst
                  (λ (n : Net).
                    post (Live.request (introspect_client config) token) n ≡ (some reply, net₂))
                  (sym resolved.1) posted)
                answered read
              ∙ ap (λ (v : AdminIntrospection). ok v) verdict)
