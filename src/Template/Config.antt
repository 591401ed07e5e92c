-- ===== src/Template/Config.antt =====
-- template/src/config.rs: the configuration, as it is read from an environment and validated.
-- An environment is what it answers for a variable.
mod Env
pub mod Laws
pub mod Spelled
pub mod Visible
pub mod Loaded
pub mod Loads
unfoldable pub use Env.*
use Prim.Native.Char.{Char, code}
use Prim.Native.String
use maxgame_admin_guard.Base.{
  ℕ, ◌+◌, ◌-◌, ◌*◌, String, Bool, true, false, not, ◌&&◌, ◌||◌, Option, none, some, List, [], ◌∷◌,
  any, Result, ok, err, ◌>>=◌, ◌>>◌, ok_or, map_err, ltb, leb, ◌==◌, if◌then◌else◌,
}
use maxgame_admin_guard.Base.Text.{
  ◌<>◌, trim, trim_end_matches, is_empty, starts_with, split, str_eq, filter, parse_unsigned,
}
use maxgame_admin_guard.Template.{DomainError, internal, DomainResult}
use maxgame_admin_guard.Template.Config.Env.{
  join_url, AppEnv, development, staging, production, is_dev, as_str, to_ascii_lowercase, is_one_of,
  app_env_named, from_str, EnvSource, system_env,
}
use maxgame_admin_guard.Access.{is_nil}
use maxgame_admin_guard.Jwks.{unwrap_or}

abbrev pub default_jwks_path : String
default_jwks_path = "/.well-known/jwks.json"

abbrev pub default_introspect_path : String
default_introspect_path = "/api/v1/oauth/introspect"

abbrev pub min_deployed_secret_len : ℕ
min_deployed_secret_len = 32

pub record AdminIdpConfig : Type 0 where
  pub base_url : String
  pub issuer : String
  pub jwks_url : String
  pub introspect_url : String
  pub introspect_api_key : String

pub record Config : Type 0 where
  pub app_env : AppEnv
  pub host : String
  pub port : ℕ
  pub base_path : String
  pub database_url : String
  pub database_max_connections : ℕ
  pub admin_idp : AdminIdpConfig
  pub cors_allowed_origins : List String

unfoldable pub required : EnvSource → String → DomainResult String
required env key = ok_or (env key) (internal (key <> " is required but not set"))

abbrev pub parse_present : ℕ → String → Option String → ℕ → DomainResult ℕ
parse_present most key none default = ok default
parse_present most key (some raw) default =
    map_err (λ e. internal (key <> " is not a valid value: " <> e)) (parse_unsigned most raw)

-- `parse_or`, at a type whose largest value is `most`.
unfoldable pub parse_or : ℕ → EnvSource → String → ℕ → DomainResult ℕ
unfolding parse_unsigned
parse_or most env key default = parse_present most key (env key) default

abbrev pub non_empty_trimmed : List String → List String
non_empty_trimmed [] = []
non_empty_trimmed (s ∷ ss) =
    if is_empty (trim s) then non_empty_trimmed ss else trim s ∷ non_empty_trimmed ss

unfoldable pub csv_list : String → List String
unfolding split trim is_empty
csv_list raw = non_empty_trimmed (split b',' raw)

-- `str::len`: the bytes of the UTF-8 form.
abbrev utf8_width : ℕ → ℕ
utf8_width c = if ltb c 128 then 1 else if ltb c 2048 then 2 else if ltb c 65536 then 3 else 4

unfoldable pub len : String → ℕ
len String.[] = 0
len (String.◌∷◌ c s) = utf8_width (code c) + len s

abbrev pub ensure : Bool → String → DomainResult (Unit {0})
ensure true message = ok tt
ensure false message = err (internal message)

-- The guardrails of a deployed environment.
unfoldable pub validate_deployed : Config → DomainResult (Unit {0})
unfolding as_str starts_with len
validate_deployed c = do
  ensure (starts_with c.admin_idp.jwks_url "https://") (
      "the resolved ADMIN_JWKS_URL must be https in "
      <> as_str c.app_env
      <> ": the signing keys arrive over it, so a plaintext fetch is a token-forgery path (got '"
      <> c.admin_idp.jwks_url
      <> "')")
  ensure (starts_with c.admin_idp.introspect_url "https://") (
      "the resolved introspection URL must be https in "
      <> as_str c.app_env
      <> " — check ADMIN_IDP_BASE_URL (its scheme is what ADMIN_INTROSPECT_PATH resolves against):"
      <> " got '"
      <> c.admin_idp.introspect_url
      <> "'")
  ensure (not (is_nil c.cors_allowed_origins)) (
      "CORS_ALLOWED_ORIGINS must list at least one origin in "
      <> as_str c.app_env
      <> "; only development may leave it empty")
  ensure (leb min_deployed_secret_len (len c.admin_idp.introspect_api_key)) (
      "ADMIN_INTROSPECT_API_KEY must be at least 32 characters in "
      <> as_str c.app_env
      <> " (generate with `openssl rand -base64 32`)")

-- `Config::validate`.
unfoldable pub validate : Config → DomainResult (Unit {0})
unfolding is_empty starts_with is_dev validate_deployed
validate c = do
  ensure (is_empty c.base_path || starts_with c.base_path "/")
      ("BASE_PATH must start with '/' when set, got '" <> c.base_path <> "'")
  ensure (not (any (λ o. str_eq o "*") c.cors_allowed_origins)) (
      "CORS_ALLOWED_ORIGINS must not contain the literal '*'; list each browser origin that may "
      <> "call this service")
  if is_dev c.app_env then ok tt else validate_deployed c

abbrev pub is_slash : ℕ → Bool
is_slash c = c == b'/'

abbrev pub no_trailing_slash : String → String
no_trailing_slash s = trim_end_matches is_slash s

-- The variables that may be missing or wrong, in the order in which `load` reads them.
pub record Parts : Type 0 where
  pub app_env : AppEnv
  pub idp_base_url : String
  pub port : ℕ
  pub database_url : String
  pub database_max_connections : ℕ
  pub issuer : String
  pub introspect_api_key : String

unfoldable pub read_parts : EnvSource → DomainResult Parts
unfolding from_str required parse_or trim_end_matches
read_parts env = do
  named ← required env "APP_ENV"
  app_env ← from_str named
  base ← required env "ADMIN_IDP_BASE_URL"
  port ← parse_or 65535 env "PORT" 8097
  database_url ← required env "DATABASE_URL"
  database_max_connections ← parse_or 4294967295 env "DATABASE_MAX_CONNECTIONS" 10
  issuer ← required env "ADMIN_JWT_ISSUER"
  introspect_api_key ← required env "ADMIN_INTROSPECT_API_KEY"
  ok (record {
    app_env = app_env;
    idp_base_url = no_trailing_slash base;
    port = port;
    database_url = database_url;
    database_max_connections = database_max_connections;
    issuer = issuer;
    introspect_api_key = introspect_api_key;
  })

unfoldable pub assemble : EnvSource → Parts → Config
unfolding join_url csv_list trim_end_matches
assemble env p = record {
  app_env = p.app_env;
  host = unwrap_or (env "HOST") "0.0.0.0";
  port = p.port;
  base_path = no_trailing_slash (unwrap_or (env "BASE_PATH") "");
  database_url = p.database_url;
  database_max_connections = p.database_max_connections;
  admin_idp = record {
    base_url = p.idp_base_url;
    issuer = p.issuer;
    jwks_url = unwrap_or (env "ADMIN_JWKS_URL") (p.idp_base_url <> default_jwks_path);
    introspect_url =
        join_url p.idp_base_url (unwrap_or (env "ADMIN_INTROSPECT_PATH") default_introspect_path);
    introspect_api_key = p.introspect_api_key;
  };
  cors_allowed_origins = csv_list (unwrap_or (env "CORS_ALLOWED_ORIGINS") "");
}

abbrev pub validated : Config → DomainResult Config
validated c = validate c >> ok c

-- `Config::load`.
unfoldable pub load : EnvSource → DomainResult Config
unfolding read_parts assemble validate
load env = read_parts env >>= λ p. validated (assemble env p)
