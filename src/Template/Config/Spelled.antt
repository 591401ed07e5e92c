-- ===== src/Template/Config/Spelled.antt =====
-- template/src/config.rs: an environment that spells a configuration out.
use maxgame_admin_guard.Base.{
  ◌≤◌, String, ◌≡◌, ◌∙◌, refl, sym, ap, true, false, some, List, [], ◌∷◌, ok, arith, All, ◌>>=◌,
  ◌>>◌,
}
use maxgame_admin_guard.Base.Text.{
  trim, is_empty, lacks, joined, split-joined, decimal, parse_unsigned-decimal,
}
use maxgame_admin_guard.Jwks.{unwrap_or}
use maxgame_admin_guard.Template.Config.{
  AppEnv, development, staging, production, is_dev, as_str, from_str, Config, EnvSource, join_url,
  no_trailing_slash, non_empty_trimmed, csv_list, load, read_parts, assemble, required, parse_or,
  Parts, validated,
}
use maxgame_admin_guard.Template.Config.Laws.{IsValid, IsGuarded, validate_iff}

-- An origin that a comma-separated list keeps as it is.
pub record IsListed (origin : String) : Type 0 where
  pub no_comma : lacks b',' origin ≡ true
  pub trimmed : trim origin ≡ origin
  pub not_empty : is_empty origin ≡ false

-- The environment answers with the configuration's values, `path` being the introspection path.
-- A value may be left out where it is empty, and so answers with nothing; the base URL may have
-- slashes at its end.
pub record Spells (env : EnvSource) (path : String) (c : Config) : Type 0 where
  pub app_env : env "APP_ENV" ≡ some (as_str c.app_env)
  pub host : env "HOST" ≡ some c.host
  pub port : env "PORT" ≡ some (decimal c.port)
  pub base_path : unwrap_or (env "BASE_PATH") "" ≡ c.base_path
  pub database_url : env "DATABASE_URL" ≡ some c.database_url
  pub database_max_connections :
      env "DATABASE_MAX_CONNECTIONS" ≡ some (decimal c.database_max_connections)
  pub base_url :
      (raw : String) × (env "ADMIN_IDP_BASE_URL" ≡ some raw)
      × (no_trailing_slash raw ≡ c.admin_idp.base_url)
  pub issuer : env "ADMIN_JWT_ISSUER" ≡ some c.admin_idp.issuer
  pub jwks_url : env "ADMIN_JWKS_URL" ≡ some c.admin_idp.jwks_url
  pub introspect_path : env "ADMIN_INTROSPECT_PATH" ≡ some path
  pub introspect_api_key : env "ADMIN_INTROSPECT_API_KEY" ≡ some c.admin_idp.introspect_api_key
  pub cors_allowed_origins :
      unwrap_or (env "CORS_ALLOWED_ORIGINS") "" ≡ joined "," c.cors_allowed_origins

-- The configuration is one that an environment can spell.
pub record IsSpellable (path : String) (c : Config) : Type 0 where
  pub port : c.port ≤ 65535
  pub database_max_connections : c.database_max_connections ≤ 4294967295
  pub base_path : no_trailing_slash c.base_path ≡ c.base_path
  pub base_url : no_trailing_slash c.admin_idp.base_url ≡ c.admin_idp.base_url
  pub introspect_url : c.admin_idp.introspect_url ≡ join_url c.admin_idp.base_url path
  pub origins : All IsListed c.cors_allowed_origins
  pub valid : IsValid c
  pub guarded : is_dev c.app_env ≡ false → IsGuarded c

from_str-as_str : (e : AppEnv) → from_str (as_str e) ≡ ok e
unfolding from_str as_str
from_str-as_str development = refl
from_str-as_str staging = refl
from_str-as_str production = refl

non_empty_trimmed-IsListed : (os : List String) → All IsListed os → non_empty_trimmed os ≡ os
non_empty_trimmed-IsListed [] h = refl
non_empty_trimmed-IsListed (o ∷ os) (h, hs) =
    ground (arith, h.trimmed, h.not_empty, non_empty_trimmed-IsListed os hs)

IsListed-lacks : (os : List String) → All IsListed os → All (λ o. lacks b',' o ≡ true) os
IsListed-lacks [] h = tt
IsListed-lacks (o ∷ os) (h, hs) = (h.no_comma, IsListed-lacks os hs)

csv_list-joined : (os : List String) → All IsListed os → csv_list (joined "," os) ≡ os
unfolding csv_list
csv_list-joined [] h = unfold joined trim is_empty in refl
csv_list-joined (o ∷ os) h =
    ap non_empty_trimmed (split-joined "," o os (IsListed-lacks (o ∷ os) h))
    ∙ non_empty_trimmed-IsListed (o ∷ os) h

abbrev parts : Config → Parts
parts c = record {
  app_env = c.app_env;
  idp_base_url = c.admin_idp.base_url;
  port = c.port;
  database_url = c.database_url;
  database_max_connections = c.database_max_connections;
  issuer = c.admin_idp.issuer;
  introspect_api_key = c.admin_idp.introspect_api_key;
}

module _ {env : EnvSource} {path : String} {c : Config} (spells : Spells env path c)
    (spellable : IsSpellable path c) where
  read_parts-Spells : read_parts env ≡ ok (parts c)
  unfolding read_parts required parse_or
  read_parts-Spells =
      rw
        (
          spells.app_env,
          spells.port,
          spells.base_url.1,
          spells.database_url,
          spells.database_max_connections,
          spells.issuer,
          spells.introspect_api_key,
          from_str-as_str c.app_env,
          parse_unsigned-decimal 65535 c.port spellable.port,
          parse_unsigned-decimal 4294967295 c.database_max_connections
              spellable.database_max_connections,
          spells.base_url.2,
        )
        refl

  assemble-Spells : assemble env (parts c) ≡ c
  unfolding assemble
  assemble-Spells =
      rw
        (
          spells.host,
          spells.base_path,
          spells.jwks_url,
          spells.introspect_path,
          spells.cors_allowed_origins,
          spellable.base_path,
          sym spellable.introspect_url,
          csv_list-joined c.cors_allowed_origins spellable.origins,
        )
        refl

-- A valid configuration is what an environment loads that spells it out: with numbers in range, no
-- trailing slash on the base path and the base URL, an introspection URL that joins the path to the
-- base URL, and origins that are trimmed, not empty and without a comma.
pub load-Spells :
    {env : EnvSource} {path : String} {c : Config}
    → Spells env path c
    → IsSpellable path c
    → load env ≡ ok c
unfolding load
load-Spells {env = env} {c = c} spells spellable =
    ap (λ r. r >>= λ p. validated (assemble env p)) (read_parts-Spells spells spellable)
    ∙ ap validated (assemble-Spells spells spellable)
    ∙ ap (λ r. r >> ok c) ((validate_iff c).1 (spellable.valid, spellable.guarded))
