-- ===== src/Examples/Settings.antt =====
-- template/src on a concrete environment and error.
use maxgame_admin_guard.Base.{
  String, ◌≡◌, ◌≤◌, ◌↔◌, refl, false, Option, none, some, [], ◌∷◌, ok, arith, if◌then◌else◌,
}
use maxgame_admin_guard.Base.Text.{
  digits, lacks, str_eq, trim, is_empty, trim_start_matches, trim_end_matches, is_whitespace,
  starts_with, split,
}
use maxgame_admin_guard.Base.Int.{pos}
use maxgame_admin_guard.Template.Example.{
  RawAdminListQuery, AdminListQuery, offset, try_from, bounded_number, parse_i64,
}
use maxgame_admin_guard.Template.Example.Laws.{offset-exact}
use maxgame_admin_guard.Template.Config.{
  Config, EnvSource, load, read_parts, assemble, validate, validate_deployed, required, parse_or,
  from_str, to_ascii_lowercase, join_url, csv_list, is_dev, as_str, len, staging, system_env,
}
use maxgame_admin_guard.Template.Config.Laws.{IsGuarded, load-IsValid}
use maxgame_admin_guard.Template.Config.Spelled.{IsSpellable, load-Spells}
use maxgame_admin_guard.Template.Config.Loaded.{IsSayable, IsLoadable}
use maxgame_admin_guard.Template.Config.Loads.{spelled, spelled-Spells, loads_iff}

-- A staging environment.
abbrev pub env : EnvSource
env key =
    if str_eq key "APP_ENV"
    then some "Staging"
    else if str_eq key "ADMIN_IDP_BASE_URL"
    then some "https://idp/"
    else if str_eq key "ADMIN_INTROSPECT_API_KEY"
    then some "0123456789abcdef0123456789abcdef"
    else if str_eq key "CORS_ALLOWED_ORIGINS"
    then some "https://a, https://b"
    else if str_eq key "ADMIN_JWT_ISSUER"
    then some "idp"
    else if str_eq key "DATABASE_URL"
    then some "postgres://db"
    else none

abbrev pub config : Config
config = record {
  app_env = staging;
  host = "0.0.0.0";
  port = 8097;
  base_path = "";
  database_url = "postgres://db";
  database_max_connections = 10;
  admin_idp = record {
    base_url = "https://idp";
    issuer = "idp";
    jwks_url = "https://idp/.well-known/jwks.json";
    introspect_url = "https://idp/api/v1/oauth/introspect";
    introspect_api_key = "0123456789abcdef0123456789abcdef";
  };
  cors_allowed_origins = "https://a" ∷ "https://b" ∷ [];
}

loads : load env ≡ ok config
unfolding load read_parts assemble validate validate_deployed required parse_or from_str
    to_ascii_lowercase join_url csv_list is_dev as_str len trim is_empty trim_start_matches
    trim_end_matches is_whitespace starts_with split
loads = refl

guarded : is_dev staging ≡ false → IsGuarded config
guarded = (load-IsValid env config loads).1

spellable : IsSpellable "api/v1/oauth/introspect" config
unfolding len is_empty starts_with trim is_whitespace trim_start_matches trim_end_matches join_url
    lacks
spellable = record {
  port = omega arith;
  database_max_connections = omega arith;
  base_path = refl;
  base_url = refl;
  introspect_url = refl;
  origins = (
    record { no_comma = refl; trimmed = refl; not_empty = refl },
    (record { no_comma = refl; trimmed = refl; not_empty = refl }, tt),
  );
  valid = record { rooted = refl; no_wildcard = refl };
  guarded = guarded;
}

sayable : IsSayable "api/v1/oauth/introspect" config
unfolding trim is_empty is_whitespace trim_start_matches trim_end_matches
sayable = record {
  introspect_path = refl;
  host = refl;
  database_url = refl;
  issuer = refl;
  jwks_url = refl;
  introspect_api_key = refl;
}

load-Spells_example : load (system_env (spelled "api/v1/oauth/introspect" config)) ≡ ok config
load-Spells_example =
    load-Spells (spelled-Spells "api/v1/oauth/introspect" config (spellable, sayable)) spellable

loads_iff_example :
    ((var : String → Option String) × (load (system_env var) ≡ ok config))
    ↔ ((path : String) × IsLoadable path config)
loads_iff_example = loads_iff config

abbrev third_page : RawAdminListQuery
third_page = record { page = some "3"; take = some "25" }

abbrev query : AdminListQuery
query = record { page = pos 3; take = pos 25 }

offset-exact_example : (offset query ≡ pos 50) × (1 ≤ 3) × (1 ≤ 25) × (25 ≤ 100)
offset-exact_example = offset-exact third_page query parses (omega arith)
  where
    parses : try_from third_page ≡ ok query
    parses = unfold try_from bounded_number parse_i64 digits in refl
