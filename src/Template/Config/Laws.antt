-- ===== src/Template/Config/Laws.antt =====
-- template/src/config.rs: what a configuration that loads can be relied on for.
use Prim.Native.Char.{Char, code}
use text.Mathlib.TextLemmas.{nil-append, cons-append}
use text.Mathlib.TextEquality.{Char-path}
use maxgame_admin_guard.Base.{
  String, ◌≤◌, ◌≡◌, ◌↔◌, refl, Bool, true, false, any, ◌||◌, ok, err, ◌>>◌, >>=-eq-ok, arith,
  Bool-cases, ==_iff, inl, inr, ap, sym, ◌∙◌, ◌==◌,
}
use maxgame_admin_guard.Base.Text.{◌<>◌, is_empty, starts_with, str_eq}
use maxgame_admin_guard.Access.{is_nil}
use maxgame_admin_guard.Jwks.{unwrap_or}
use maxgame_admin_guard.Template.{DomainResult}
use maxgame_admin_guard.Template.Config.{
  is_dev, Config, EnvSource, join_url, len, ensure, validate_deployed, validate, load, validated,
  read_parts, assemble, default_introspect_path,
}

-- What every environment is held to.
pub record IsValid (c : Config) : Type 0 where
  pub rooted : (is_empty c.base_path || starts_with c.base_path "/") ≡ true
  pub no_wildcard : any (λ o. str_eq o "*") c.cors_allowed_origins ≡ false

-- What a deployed environment is held to as well.
pub record IsGuarded (c : Config) : Type 0 where
  pub keys_over_https : starts_with c.admin_idp.jwks_url "https://" ≡ true
  pub introspects_over_https : starts_with c.admin_idp.introspect_url "https://" ≡ true
  pub has_origin : is_nil c.cors_allowed_origins ≡ false
  pub long_secret : 32 ≤ len c.admin_idp.introspect_api_key

ensure-eq-ok : (b : Bool) (message : String) → ensure b message ≡ ok tt → b ≡ true
ensure-eq-ok true message h = refl
ensure-eq-ok false message h = cc h

-- A configuration validates exactly if its base path is empty or rooted, no origin is the wildcard,
-- and, unless the environment is a developer's, both endpoints of the identity provider are https,
-- an origin is listed and the introspection key has at least 32 bytes.
pub validate_iff :
    (c : Config) → (validate c ≡ ok tt) ↔ (IsValid c × (is_dev c.app_env ≡ false → IsGuarded c))
unfolding validate validate_deployed
validate_iff c = (
  λ h. (
    record { rooted = ground arith; no_wildcard = ground arith },
    λ d. record {
      keys_over_https = ground arith;
      introspects_over_https = ground arith;
      has_origin = ground arith;
      long_secret = ground arith;
    },
  ),
  λ (v, g). elim (Bool-cases (is_dev c.app_env)) [
    | inl dev ↦ ground (arith, v.rooted, v.no_wildcard, dev)
    | inr deployed ↦ ground (arith, v.rooted, v.no_wildcard, deployed, g deployed)
  ],
)

abbrev pub Under : String → String → Type 0
Under base url = (path : String) × (url ≡ base <> ("/" <> path))

pub join_url-Under : (base path : String) → Under base (join_url base path)
unfolding join_url starts_with
join_url-Under base String.[] = ("", refl)
join_url-Under base (String.◌∷◌ c s) = elim (Bool-cases (code c == 47)) [
  | inl slash ↦ (s, rw (slashed slash) (ground arith))
  | inr other ↦ (String.◌∷◌ c s, ground arith)
]
  where
    slashed : code c == 47 ≡ true → String.◌∷◌ c s ≡ "/" <> s
    slashed h =
        ap (λ (x : Char). String.◌∷◌ x s) (Char-path c "/" ((==_iff (code c) 47).0 h))
        ∙ sym (cons-append "/" "" s ∙ ap (λ (t : String). String.◌∷◌ "/" t) (nil-append s))

pub validated-eq-ok : (c d : Config) → validated c ≡ ok d → (validate c ≡ ok tt) × (c ≡ d)
validated-eq-ok c d h = by_result (validate c) refl h
  where
    by_result :
        (r : DomainResult (Unit {0}))
        → validate c ≡ r
        → (r >> ok c) ≡ ok d
        → (validate c ≡ ok tt) × (c ≡ d)
    by_result (ok u) e k = (e, cc k)
    by_result (err m) e k = cc k

load-validates :
    (env : EnvSource) (c : Config)
    → load env ≡ ok c
    → (validate c ≡ ok tt)
      × (c.admin_idp.introspect_url
          ≡ join_url c.admin_idp.base_url
              (unwrap_or (env "ADMIN_INTROSPECT_PATH") default_introspect_path))
unfolding load
load-validates env c h =
    let (p, r, v) = >>=-eq-ok (read_parts env) (λ p. validated (assemble env p)) h in
    let same = validated-eq-ok (assemble env p) c v in
    (
      ap validate (sym same.1) ∙ same.0,
      ap (λ (x : Config). x.admin_idp.introspect_url) (sym same.1)
          ∙ (unfold assemble in refl)
          ∙ ap
              (λ (x : Config).
                join_url x.admin_idp.base_url
                  (unwrap_or (env "ADMIN_INTROSPECT_PATH") default_introspect_path))
              same.1,
    )

-- A configuration loads only if it validates, and its introspection endpoint is then under the
-- identity provider's base URL, whatever path the environment names.
pub load-IsValid :
    (env : EnvSource) (c : Config)
    → load env ≡ ok c
    → IsValid c
      × (is_dev c.app_env ≡ false → IsGuarded c)
      × ((path : String) × (c.admin_idp.introspect_url ≡ c.admin_idp.base_url <> ("/" <> path)))
load-IsValid env c h =
    let (v, u) = load-validates env c h in
    let (path, e) =
      join_url-Under c.admin_idp.base_url
        (unwrap_or (env "ADMIN_INTROSPECT_PATH") default_introspect_path) in
    let (valid, guarded) = (validate_iff c).0 v in (valid, guarded, (path, u ∙ e))
