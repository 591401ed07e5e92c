-- ===== src/Template/Service/Startup.antt =====
-- template/src/config.rs and template/src/inbound: what a configuration that loads makes of the
-- guard and of the CORS policy.
use maxgame_admin_guard.Base.{
  String, ◌≡◌, refl, ap, ◌∙◌, Bool, true, false, not, any, Option, none, some, List, [], ◌∷◌, ok,
  ok-injective, >>=-eq-ok, ok_or-eq-ok, arith, subst,
}
use maxgame_admin_guard.Base.Text.{
  ◌<>◌, trim, is_empty, is_whitespace, filter, str_eq, has_visible, is_empty-trim,
  has_visible-append,
}
use maxgame_admin_guard.Introspect.{not_blank}
use maxgame_admin_guard.Jwks.{unwrap_or}
use maxgame_admin_guard.Guard.{is_configured}
use maxgame_admin_guard.Template.Config.{
  Config, EnvSource, system_env, Parts, required, from_str, parse_or, read_parts, assemble, load,
  validated, default_jwks_path,
}
use maxgame_admin_guard.Template.Config.Laws.{load-IsValid, validated-eq-ok}
use maxgame_admin_guard.Template.Service.{guard_config}
use maxgame_admin_guard.Template.Service.Router.{parsed_origins, cors_layer}

not_blank-visible : (s : String) → has_visible s ≡ true → not_blank s ≡ true
unfolding not_blank
not_blank-visible s h = ground (arith, is_empty-trim s, h)

-- `SystemEnv` hides the variables that are blank.
system_env-not_blank :
    (var : String → Option String) (key v : String)
    → system_env var key ≡ some v
    → not_blank v ≡ true
unfolding system_env not_blank
system_env-not_blank var key v h = by_value (var key) h
  where
    by_value :
        (o : Option String)
        → filter (λ (s : String). not (is_empty (trim s))) o ≡ some v
        → not (is_empty (trim v)) ≡ true
    by_value none k = cc k
    by_value (some s) k = ground (arith, k)

required-eq-ok : (env : EnvSource) (key v : String) → required env key ≡ ok v → env key ≡ some v
unfolding required
required-eq-ok env key v h = ok_or-eq-ok (env key) _ h

read_parts-required :
    (env : EnvSource) (p : Parts)
    → read_parts env ≡ ok p
    → (env "ADMIN_JWT_ISSUER" ≡ some p.issuer)
      × (env "ADMIN_INTROSPECT_API_KEY" ≡ some p.introspect_api_key)
unfolding read_parts
read_parts-required env p h =
    let (named, h₁, k₁) = >>=-eq-ok (required env "APP_ENV") _ h in
    let (app_env, h₂, k₂) = >>=-eq-ok (from_str named) _ k₁ in
    let (base, h₃, k₃) = >>=-eq-ok (required env "ADMIN_IDP_BASE_URL") _ k₂ in
    let (port, h₄, k₄) = >>=-eq-ok (parse_or 65535 env "PORT" 8097) _ k₃ in
    let (url, h₅, k₅) = >>=-eq-ok (required env "DATABASE_URL") _ k₄ in
    let (most, h₆, k₆) = >>=-eq-ok (parse_or 4294967295 env "DATABASE_MAX_CONNECTIONS" 10) _ k₅ in
    let (issuer, h₇, k₇) = >>=-eq-ok (required env "ADMIN_JWT_ISSUER") _ k₆ in
    let (secret, h₈, k₈) = >>=-eq-ok (required env "ADMIN_INTROSPECT_API_KEY") _ k₇ in
    let i = required-eq-ok env "ADMIN_JWT_ISSUER" issuer h₇ in
    let s = required-eq-ok env "ADMIN_INTROSPECT_API_KEY" secret h₈ in
    let same = ok-injective k₈ in
    (
      i ∙ ap (λ (x : Parts). some x.issuer) same,
      s ∙ ap (λ (x : Parts). some x.introspect_api_key) same,
    )

-- A variable that is set, or a default that ends in a path.
or_default-not_blank :
    (var : String → Option String) (key base path : String)
    → has_visible path ≡ true
    → not_blank (unwrap_or (system_env var key) (base <> path)) ≡ true
or_default-not_blank var key base path h = by_value (system_env var key) refl
  where
    by_value :
        (o : Option String) → system_env var key ≡ o → not_blank (unwrap_or o (base <> path)) ≡ true
    by_value none e =
        not_blank-visible (base <> path) (ground (arith, has_visible-append base path, h))
    by_value (some s) e = system_env-not_blank var key s e

load-assembled :
    (env : EnvSource) (c : Config)
    → load env ≡ ok c
    → (p : Parts) × (read_parts env ≡ ok p) × (assemble env p ≡ c)
unfolding load
load-assembled env c h =
    let (p, r, v) = >>=-eq-ok (read_parts env) (λ p. validated (assemble env p)) h in
    (p, r, (validated-eq-ok (assemble env p) c v).1)

slash_path-visible : (path : String) → has_visible ("/" <> path) ≡ true
slash_path-visible path =
    rw (has_visible-append "/" path) (unfold has_visible is_whitespace in refl)

-- A service that starts from the process's environment has a guard that is configured: the guard's
-- 503 for a missing setting never comes from a configuration that loads.
pub load-is_configured :
    (var : String → Option String) (c : Config)
    → load (system_env var) ≡ ok c
    → is_configured (guard_config c) ≡ true
unfolding is_configured guard_config assemble
load-is_configured var c h =
    let (p, r, same) = load-assembled (system_env var) c h in
    let (issuer, secret) = read_parts-required (system_env var) p r in
    let (valid, guarded, (path, url)) = load-IsValid (system_env var) c h in
    let has_issuer : not_blank c.admin_idp.issuer ≡ true =
      system_env-not_blank var "ADMIN_JWT_ISSUER" c.admin_idp.issuer
        (issuer ∙ ap (λ (x : Config). some x.admin_idp.issuer) same) in
    let has_secret : not_blank c.admin_idp.introspect_api_key ≡ true =
      system_env-not_blank var "ADMIN_INTROSPECT_API_KEY" c.admin_idp.introspect_api_key
        (secret ∙ ap (λ (x : Config). some x.admin_idp.introspect_api_key) same) in
    let has_keys : not_blank c.admin_idp.jwks_url ≡ true =
      subst (λ (x : Config). not_blank x.admin_idp.jwks_url ≡ true) same
        (or_default-not_blank var "ADMIN_JWKS_URL" p.idp_base_url default_jwks_path
          (unfold has_visible is_whitespace in refl)) in
    let has_url : not_blank c.admin_idp.introspect_url ≡ true = rw url (
      not_blank-visible (c.admin_idp.base_url <> ("/" <> path)) (
        ground (
          arith,
          has_visible-append c.admin_idp.base_url ("/" <> path),
          slash_path-visible path,
        ))) in
    ground (arith, has_issuer, has_secret, has_keys, has_url)

abbrev has_wildcard : List String → Bool
has_wildcard os = any (λ o. str_eq o "*") os

parsed_origins-no_wildcard :
    (parse : String → Option String)
    → ((s v : String) → parse s ≡ some v → v ≡ s)
    → (os : List String) → has_wildcard os ≡ false
    → has_wildcard (parsed_origins parse os) ≡ false
unfolding parsed_origins
parsed_origins-no_wildcard parse keeps [] h = refl
parsed_origins-no_wildcard parse keeps (o ∷ os) h =
    by_value (λ k. parsed_origins-no_wildcard parse keeps os k) (parse o) refl
  where
    by_value :
        (has_wildcard os ≡ false → has_wildcard (parsed_origins parse os) ≡ false)
        → (v : Option String) → parse o ≡ v
        → has_wildcard (elim v [
          | some value ↦ value ∷ parsed_origins parse os
          | none ↦ parsed_origins parse os
        ])
          ≡ false
    by_value rest none e = rest (ground (arith, h))
    by_value rest (some v) e =
        let same : str_eq v "*" ≡ str_eq o "*" = ap (λ (s : String). str_eq s "*") (keeps o v e) in
        ground (arith, h, same, rest)

-- The CORS policy of a configuration that loads does not name the wildcard among its origins, as
-- long as a parsed header value is the text that it was parsed from.
pub cors_layer-no_wildcard :
    (parse : String → Option String)
    → ((s v : String) → parse s ≡ some v → v ≡ s)
    → (env : EnvSource) (c : Config) → load env ≡ ok c
    → any (λ o. str_eq o "*") (cors_layer parse c).allow_origins ≡ false
unfolding cors_layer
cors_layer-no_wildcard parse keeps env c h =
    parsed_origins-no_wildcard parse keeps c.cors_allowed_origins
      (load-IsValid env c h).0.no_wildcard
