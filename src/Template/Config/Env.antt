-- ===== src/Template/Config/Env.antt =====
-- template/src/config.rs: which environment the process runs in, where its variables come from, and
-- how a URL is joined.
use Prim.Native.Char.{Char, code}
use maxgame_admin_guard.Base.{
  some, none, ◌≡◌, arith, String, Bool, true, false, not, Option, List, [], ◌∷◌, any, ok, err, ◌==◌,
  if◌then◌else◌,
}
use maxgame_admin_guard.Base.Text.{◌<>◌, trim, is_empty, starts_with, str_eq, filter}
use maxgame_admin_guard.Template.{internal, DomainResult}

unfoldable pub join_url : String → String → String
unfolding starts_with
join_url base path = if starts_with path "/" then base <> path else base <> ("/" <> path)

pub data AppEnv : Type 0 where
  development staging production : AppEnv

unfoldable pub is_dev : AppEnv → Bool
is_dev development = true
is_dev staging = false
is_dev production = false

unfoldable pub as_str : AppEnv → String
as_str development = "development"
as_str staging = "staging"
as_str production = "production"

-- The letter of `to` that stands where `c` stands in `from`, or else `c`.
abbrev translate : String → String → Char → Char
translate String.[] to c = c
translate (String.◌∷◌ f fs) String.[] c = c
translate (String.◌∷◌ f fs) (String.◌∷◌ t ts) c =
    let rest = translate fs ts c in if code f == code c then t else rest

unfoldable pub to_ascii_lowercase : String → String
to_ascii_lowercase String.[] = ""
to_ascii_lowercase (String.◌∷◌ c s) =
    String.◌∷◌ (translate "ABCDEFGHIJKLMNOPQRSTUVWXYZ" "abcdefghijklmnopqrstuvwxyz" c)
      (to_ascii_lowercase s)

abbrev pub is_one_of : List String → String → Bool
is_one_of names s = any (λ name. str_eq s name) names

abbrev pub app_env_named : String → DomainResult AppEnv
app_env_named s =
    if is_one_of ("production" ∷ "prod" ∷ []) s
    then ok production
    else if is_one_of ("staging" ∷ "uat" ∷ []) s
    then ok staging
    else if is_one_of ("development" ∷ "dev" ∷ "local" ∷ []) s
    then ok development
    else err (
        internal (
          "unknown APP_ENV '" <> s
          <> "' (expected development, dev, local, staging, uat, production or prod)"))

-- `AppEnv::from_str`.
unfoldable pub from_str : String → DomainResult AppEnv
unfolding trim to_ascii_lowercase
from_str s = app_env_named (to_ascii_lowercase (trim s))

abbrev pub EnvSource : Type 0
EnvSource = String → Option String

-- `SystemEnv`, of what `std::env::var(key).ok()` is.
unfoldable pub system_env : (String → Option String) → EnvSource
unfolding trim is_empty
system_env var key = filter (λ v. not (is_empty (trim v))) (var key)

abbrev map_trim : Option String → Option String
map_trim none = none
map_trim (some v) = some (trim v)

-- `EnvSource` for a `BTreeMap`, of what its `get` answers.
unfoldable map_env : (String → Option String) → EnvSource
unfolding trim is_empty
map_env values key = filter (λ v. not (is_empty v)) (map_trim (values key))

-- A map answers as the process's environment does, but trimmed.
map_env-system_env :
    (values : String → Option String) (key : String)
    → map_env values key ≡ map_trim (system_env values key)
unfolding map_env system_env
map_env-system_env values key = ground arith
