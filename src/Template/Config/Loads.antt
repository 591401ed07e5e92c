-- ===== src/Template/Config/Loads.antt =====
-- template/src/config.rs: which configurations an environment loads.
use maxgame_admin_guard.Base.{
  ap, ◌∙◌, ◌⊎◌, String, ◌≡◌, refl, Option, none, some, List, [], ◌∷◌, ok, arith, All, ◌↔◌,
  Bool-cases, inl, inr, if◌then◌else◌,
}
use maxgame_admin_guard.Base.Text.{
  ◌<>◌, is_empty-eq, starts_with, trim_end-append, str_eq, decimal, joined, is_empty,
}
use maxgame_admin_guard.Template.Config.{system_env, as_str, Config, is_slash, load}
use maxgame_admin_guard.Template.Config.Visible.{
  IsVisible, append-IsVisible, decimal-IsVisible, rooted-IsVisible, joined-IsVisible,
  as_str-IsVisible, said, said-or_empty,
}
use maxgame_admin_guard.Template.Config.Laws.{IsValid}
use maxgame_admin_guard.Template.Config.Spelled.{IsListed, Spells, load-Spells}
use maxgame_admin_guard.Template.Config.Loaded.{IsLoadable, introspect_path, load-IsLoadable}

-- Variables that say each value of the configuration, the base URL with a slash after it.
abbrev pub spelled : String → Config → String → Option String
unfolding as_str decimal joined
spelled path c key =
    if str_eq key "APP_ENV"
    then some (as_str c.app_env)
    else if str_eq key "HOST"
    then some c.host
    else if str_eq key "PORT"
    then some (decimal c.port)
    else if str_eq key "BASE_PATH"
    then some c.base_path
    else if str_eq key "DATABASE_URL"
    then some c.database_url
    else if str_eq key "DATABASE_MAX_CONNECTIONS"
    then some (decimal c.database_max_connections)
    else if str_eq key "ADMIN_IDP_BASE_URL"
    then some (c.admin_idp.base_url <> "/")
    else if str_eq key "ADMIN_JWT_ISSUER"
    then some c.admin_idp.issuer
    else if str_eq key "ADMIN_JWKS_URL"
    then some c.admin_idp.jwks_url
    else if str_eq key "ADMIN_INTROSPECT_PATH"
    then some path
    else if str_eq key "ADMIN_INTROSPECT_API_KEY"
    then some c.admin_idp.introspect_api_key
    else if str_eq key "CORS_ALLOWED_ORIGINS"
    then some (joined "," c.cors_allowed_origins)
    else none

base_path-said : (c : Config) → IsValid c → (c.base_path ≡ "") ⊎ IsVisible c.base_path
base_path-said c valid = elim (Bool-cases (is_empty c.base_path)) [
  | inl e ↦ inl (is_empty-eq c.base_path e)
  | inr e ↦ inr (rooted-IsVisible c.base_path (ground (arith, e, valid.rooted)))
]

origins-said :
    (os : List String) → All IsListed os → (joined "," os ≡ "") ⊎ IsVisible (joined "," os)
origins-said [] h = inl (unfold joined in refl)
origins-said (o ∷ os) (h, hs) =
    inr (joined-IsVisible "," o os (ap is_empty h.trimmed ∙ h.not_empty))

-- The process's environment over those variables spells the configuration out.
pub spelled-Spells :
    (path : String) (c : Config) → IsLoadable path c → Spells (system_env (spelled path c)) path c
unfolding spelled
spelled-Spells path c (s, v) =
    let var = spelled path c in
    record {
      app_env = said var "APP_ENV" (as_str c.app_env) refl (as_str-IsVisible c.app_env);
      host = said var "HOST" c.host refl v.host;
      port = said var "PORT" (decimal c.port) refl (decimal-IsVisible c.port);
      base_path = said-or_empty var "BASE_PATH" c.base_path refl (base_path-said c s.valid);
      database_url = said var "DATABASE_URL" c.database_url refl v.database_url;
      database_max_connections =
          said var "DATABASE_MAX_CONNECTIONS" (decimal c.database_max_connections) refl
            (decimal-IsVisible c.database_max_connections);
      base_url = (
        c.admin_idp.base_url <> "/",
        said var "ADMIN_IDP_BASE_URL" (c.admin_idp.base_url <> "/") refl (
            append-IsVisible c.admin_idp.base_url "/"
              (rooted-IsVisible "/" (unfold starts_with in refl))),
        trim_end-append is_slash c.admin_idp.base_url "/" refl ∙ s.base_url,
      );
      issuer = said var "ADMIN_JWT_ISSUER" c.admin_idp.issuer refl v.issuer;
      jwks_url = said var "ADMIN_JWKS_URL" c.admin_idp.jwks_url refl v.jwks_url;
      introspect_path = said var "ADMIN_INTROSPECT_PATH" path refl v.introspect_path;
      introspect_api_key =
          said var "ADMIN_INTROSPECT_API_KEY" c.admin_idp.introspect_api_key refl
            v.introspect_api_key;
      cors_allowed_origins =
          said-or_empty var "CORS_ALLOWED_ORIGINS" (joined "," c.cors_allowed_origins) refl
            (origins-said c.cors_allowed_origins s.origins);
    }

-- Some variables of the process load the configuration exactly if it is valid, its numbers fit their
-- types, its base path and base URL have no trailing slash, its introspection URL joins some path to
-- the base URL, its origins are trimmed, not empty and without a comma, and that path, its host, its
-- database URL, its issuer, its JWKS URL and its introspection key are not blank.
pub loads_iff :
    (c : Config)
    → ((var : String → Option String) × (load (system_env var) ≡ ok c))
      ↔ ((path : String) × IsLoadable path c)
loads_iff c = (
  λ (var, h). (introspect_path (system_env var), load-IsLoadable var c h),
  λ (path, s). (spelled path c, load-Spells (spelled-Spells path c s) s.0),
)
