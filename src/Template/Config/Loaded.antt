-- ===== src/Template/Config/Loaded.antt =====
-- template/src/config.rs: what a configuration that the process's environment loads is held to.
use maxgame_admin_guard.Base.{
  ok_or-eq-ok, ℕ, ◌≤◌, String, ◌≡◌, refl, true, Option, none, some, List, [], ◌∷◌, ok, arith, All,
  >>=-returned, ok-injective, subst, Bool-cases, inl, inr,
}
use maxgame_admin_guard.Base.Text.{
  ◌<>◌, starts_with, trim_start_matches, trim_end_matches, is_whitespace, trim, is_empty, lacks,
  split, lacks-split, lacks-trim, trim-idempotent, trim_end-idempotent, parse_unsigned,
  parse_unsigned-bound,
}
use maxgame_admin_guard.Jwks.{unwrap_or}
use maxgame_admin_guard.Template.Config.{
  system_env, default_jwks_path, Config, EnvSource, no_trailing_slash, is_slash, non_empty_trimmed,
  csv_list, default_introspect_path, validate, load, read_parts, assemble, required, parse_or,
  Parts, validated, from_str, parse_present,
}
use maxgame_admin_guard.Template.Config.Visible.{
  IsVisible, append-IsVisible, rooted-IsVisible, answer-IsVisible, unwrap_or-IsVisible,
}
use maxgame_admin_guard.Template.Config.Laws.{validate_iff, validated-eq-ok}
use maxgame_admin_guard.Template.Config.Spelled.{IsListed, IsSpellable}

non_empty_trimmed-All :
    (ss : List String) → All (λ s. lacks b',' s ≡ true) ss → All IsListed (non_empty_trimmed ss)
non_empty_trimmed-All [] h = tt
non_empty_trimmed-All (s ∷ ss) (h, hs) = elim (Bool-cases (is_empty (trim s))) [
  | inl blank ↦
      subst (All IsListed) {x = non_empty_trimmed ss} (ground (arith, blank))
        (non_empty_trimmed-All ss hs)
  | inr visible ↦
      subst (All IsListed) {x = trim s ∷ non_empty_trimmed ss} (ground (arith, visible)) (
        record { no_comma = lacks-trim b',' s h; trimmed = trim-idempotent s; not_empty = visible },
        non_empty_trimmed-All ss hs,
      )
]

csv_list-All : (raw : String) → All IsListed (csv_list raw)
unfolding csv_list
csv_list-All raw = non_empty_trimmed-All (split b',' raw) (lacks-split b',' raw)

parse_present-bound :
    (most : ℕ) (key : String) (o : Option String) (default n : ℕ)
    → default ≤ most
    → parse_present most key o default ≡ ok n
    → n ≤ most
unfolding parse_unsigned
parse_present-bound most key none default n h e = ground (arith, h, e)
parse_present-bound most key (some raw) default n h e =
    ground (arith, e, parse_unsigned-bound most raw n)

parse_or-bound :
    (most : ℕ) (env : EnvSource) (key : String) (default n : ℕ)
    → default ≤ most
    → parse_or most env key default ≡ ok n
    → n ≤ most
unfolding parse_or
parse_or-bound most env key default n h e = parse_present-bound most key (env key) default n h e

-- What the parts that are read are held to.
record InRange (p : Parts) : Type 0 where
  pub port : p.port ≤ 65535
  pub database_max_connections : p.database_max_connections ≤ 4294967295
  pub base_url : no_trailing_slash p.idp_base_url ≡ p.idp_base_url
  pub database_url : IsVisible p.database_url
  pub issuer : IsVisible p.issuer
  pub introspect_api_key : IsVisible p.introspect_api_key

module _ (var : String → Option String) where
  required-IsVisible : (key v : String) → required (system_env var) key ≡ ok v → IsVisible v
  unfolding required
  required-IsVisible key v h = answer-IsVisible var key v (ok_or-eq-ok (system_env var key) _ h)

  read_parts-InRange : (p : Parts) → read_parts (system_env var) ≡ ok p → InRange p
  unfolding read_parts
  read_parts-InRange p h =
      let env = system_env var in
      >>=-returned (required env "APP_ENV") _ h λ named _ h.
        >>=-returned (from_str named) _ h λ app_env _ h.
          >>=-returned (required env "ADMIN_IDP_BASE_URL") _ h λ base _ h.
            >>=-returned (parse_or 65535 env "PORT" 8097) _ h λ port u16 h.
              >>=-returned (required env "DATABASE_URL") _ h λ url d h.
                >>=-returned (parse_or 4294967295 env "DATABASE_MAX_CONNECTIONS" 10) _ h
                  λ most u32 h. >>=-returned (required env "ADMIN_JWT_ISSUER") _ h λ issuer i h.
                    >>=-returned (required env "ADMIN_INTROSPECT_API_KEY") _ h λ key k h.
                      subst InRange (ok-injective h) (record {
                        port = parse_or-bound 65535 env "PORT" 8097 port (omega arith) u16;
                        database_max_connections =
                            parse_or-bound 4294967295 env "DATABASE_MAX_CONNECTIONS" 10 most
                              (omega arith) u32;
                        base_url = trim_end-idempotent is_slash base;
                        database_url = required-IsVisible "DATABASE_URL" url d;
                        issuer = required-IsVisible "ADMIN_JWT_ISSUER" issuer i;
                        introspect_api_key = required-IsVisible "ADMIN_INTROSPECT_API_KEY" key k;
                      })

-- The values that a process's environment has to say are not blank.
pub record IsSayable (path : String) (c : Config) : Type 0 where
  pub introspect_path : IsVisible path
  pub host : IsVisible c.host
  pub database_url : IsVisible c.database_url
  pub issuer : IsVisible c.admin_idp.issuer
  pub jwks_url : IsVisible c.admin_idp.jwks_url
  pub introspect_api_key : IsVisible c.admin_idp.introspect_api_key

abbrev pub IsLoadable : String → Config → Type 0
IsLoadable path c = IsSpellable path c × IsSayable path c

-- The environment's introspection path, or its default.
abbrev pub introspect_path : EnvSource → String
introspect_path env = unwrap_or (env "ADMIN_INTROSPECT_PATH") default_introspect_path

assemble-IsSpellable :
    (env : EnvSource) (p : Parts)
    → InRange p
    → validate (assemble env p) ≡ ok tt
    → IsSpellable (introspect_path env) (assemble env p)
assemble-IsSpellable env p r v =
    let (valid, guarded) = (validate_iff (assemble env p)).0 v in
    record {
      port = unfold assemble in r.port;
      database_max_connections = unfold assemble in r.database_max_connections;
      base_path = unfold assemble in trim_end-idempotent is_slash (unwrap_or (env "BASE_PATH") "");
      base_url = unfold assemble in r.base_url;
      introspect_url = unfold assemble in refl;
      origins = unfold assemble in csv_list-All (unwrap_or (env "CORS_ALLOWED_ORIGINS") "");
      valid = valid;
      guarded = guarded;
    }

assemble-IsSayable :
    (var : String → Option String) (p : Parts)
    → InRange p
    → IsSayable (introspect_path (system_env var)) (assemble (system_env var) p)
unfolding assemble
assemble-IsSayable var p r = record {
  introspect_path =
      unwrap_or-IsVisible var "ADMIN_INTROSPECT_PATH" default_introspect_path
        (rooted-IsVisible default_introspect_path (unfold starts_with in refl));
  host =
      unwrap_or-IsVisible var "HOST" "0.0.0.0"
        (unfold trim is_empty trim_start_matches trim_end_matches is_whitespace in refl);
  database_url = r.database_url;
  issuer = r.issuer;
  jwks_url = unwrap_or-IsVisible var "ADMIN_JWKS_URL" (p.idp_base_url <> default_jwks_path) (
      append-IsVisible p.idp_base_url default_jwks_path
        (rooted-IsVisible default_jwks_path (unfold starts_with in refl)));
  introspect_api_key = r.introspect_api_key;
}

pub load-IsLoadable :
    (var : String → Option String) (c : Config)
    → load (system_env var) ≡ ok c
    → IsLoadable (introspect_path (system_env var)) c
unfolding load
load-IsLoadable var c h =
    let env = system_env var in
    >>=-returned (read_parts env) (λ p. validated (assemble env p)) h
      λ p r v.
        let (valid, same) = validated-eq-ok (assemble env p) c v in
        let fits = read_parts-InRange var p r in
        subst (IsLoadable (introspect_path env)) same
          (assemble-IsSpellable env p fits valid, assemble-IsSayable var p fits)
