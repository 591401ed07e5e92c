-- ===== src/Jwks.antt =====
-- rust/src/jwks.rs: the configuration, the cache, and what a response's headers and keys become.
-- A duration and an instant are nanoseconds. Base64 and Ed25519's key format are parameters.
pub mod Keys
pub mod Client
use maxgame_admin_guard.Base.{
  ℕ, ◌+◌, ◌-◌, ◌*◌, ◌^◌, min, String, Bool, true, false, ◌&&◌, not, Option, none, some, List, [],
  ◌∷◌, Result, ok, err, ◌>>=◌, ok_or, map_err, ltb, ◌==◌, if◌then◌else◌, length,
}
use maxgame_admin_guard.Base.Text.{
  ◌<>◌, trim, split, split_once, strip_prefix, str_eq, filter, parse_u64,
}
use maxgame_admin_guard.Error.{GuardError, internal, GuardResult}
use maxgame_admin_guard.Introspect.Client.{seconds}

abbrev pub default_jwks_ttl : ℕ
default_jwks_ttl = seconds 300

abbrev pub max_jwks_ttl : ℕ
max_jwks_ttl = seconds 3600

abbrev pub default_jwks_stale_grace : ℕ
default_jwks_stale_grace = seconds 900

abbrev pub default_http_timeout : ℕ
default_http_timeout = seconds 10

abbrev pub default_min_refetch_interval : ℕ
default_min_refetch_interval = seconds 5

abbrev pub default_jwks_breaker_failure_threshold : ℕ
default_jwks_breaker_failure_threshold = 5

abbrev pub default_jwks_breaker_reset : ℕ
default_jwks_breaker_reset = seconds 30

pub record AdminJwksClientConfig : Type 0 where
  pub jwks_url : String
  pub http_timeout : ℕ
  pub default_ttl : ℕ
  pub max_ttl : ℕ
  pub min_refetch_interval : ℕ
  pub stale_grace : ℕ
  pub breaker_failure_threshold : ℕ
  pub breaker_reset : ℕ

unfoldable pub new_config : String → AdminJwksClientConfig
new_config jwks_url = record {
  jwks_url = jwks_url;
  http_timeout = default_http_timeout;
  default_ttl = default_jwks_ttl;
  max_ttl = max_jwks_ttl;
  min_refetch_interval = default_min_refetch_interval;
  stale_grace = default_jwks_stale_grace;
  breaker_failure_threshold = default_jwks_breaker_failure_threshold;
  breaker_reset = default_jwks_breaker_reset;
}

pub record JwksKey : Type 0 where
  pub kty : Option String
  pub crv : Option String
  pub kid : Option String
  pub x : Option String

-- The `HashMap` from `kid`s to keys: one entry for a `kid`.
abbrev pub KeySet : Type 0 → Type 0
KeySet Key = List (String × Key)

unfoldable pub get : {Key : Type 0} → String → KeySet Key → Option Key
get kid [] = none
get kid ((held, key) ∷ rest) = if str_eq held kid then some key else get kid rest

unfoldable pub insert : {Key : Type 0} → String → Key → KeySet Key → KeySet Key
insert kid key [] = (kid, key) ∷ []
insert kid key ((k, old) ∷ ks) =
    let rest = insert kid key ks in if str_eq k kid then (k, key) ∷ ks else (k, old) ∷ rest

pub record JwksCache (Key : Type 0) : Type 0 where
  pub keys : KeySet Key
  pub fetched_at : Option ℕ
  pub ttl : Option ℕ
  pub last_attempt_at : Option ℕ
  pub last_attempt_failed : Bool

-- `JwksCache::default`.
abbrev pub empty_cache : {Key : Type 0} → JwksCache Key
empty_cache = record {
  keys = [];
  fetched_at = none;
  ttl = none;
  last_attempt_at = none;
  last_attempt_failed = false;
}

abbrev pub unwrap_or {ℓ} : {A : Type ℓ} → Option A → A → A
unwrap_or none a = a
unwrap_or (some b) a = b

-- `Duration::saturating_add`: the largest duration is `u64::MAX` seconds and 999999999 ns.
abbrev pub saturating_add : ℕ → ℕ → ℕ
saturating_add a b = min (a + b) (2 ^ 64 * 10 ^ 9 - 1)

module _ {Key : Type 0} where
  -- The key, if the last successful fetch is less than `horizon` ago.
  abbrev pub held_within : JwksCache Key → String → ℕ → ℕ → Option Key
  held_within cache kid horizon now = elim (get kid cache.keys) [
    | none ↦ none
    | some key ↦ elim cache.fetched_at [
      | none ↦ none
      | some at ↦ if ltb (now - at) horizon then some key else none
    ]
  ]

  unfoldable pub cached_and_fresh : JwksCache Key → String → ℕ → ℕ → Option Key
  cached_and_fresh cache kid fallback_ttl now =
      held_within cache kid (unwrap_or cache.ttl fallback_ttl) now

  unfoldable pub cached_within_grace : JwksCache Key → String → ℕ → ℕ → ℕ → Option Key
  cached_within_grace cache kid fallback_ttl grace now =
      held_within cache kid (saturating_add (unwrap_or cache.ttl fallback_ttl) grace) now

-- The crates that read a key: the two base64 alphabets, and the point of 32 bytes or the error's
-- text.
pub record KeyCrates (Key : Type 0) : Type 0 where
  pub url_safe_decode : String → Option (List ℕ)
  pub standard_decode : String → Option (List ℕ)
  pub from_bytes : List ℕ → Result String Key
  pub show_length : ℕ → String

-- `Result::or_else` on the two decoders' results.
abbrev pub or_else {ℓ} : {A : Type ℓ} → Option A → Option A → Option A
or_else none o = o
or_else (some a) o = some a

-- The first directive that names an age, as its text after the sign of equality.
unfoldable pub age_directive : List String → Option String
unfolding strip_prefix trim
age_directive [] = none
age_directive (d ∷ ds) =
    or_else (or_else (strip_prefix (trim d) "max-age=") (strip_prefix (trim d) "s-maxage="))
      (age_directive ds)

abbrev pub age_of : Option String → Option ℕ
age_of none = none
age_of (some text) = filter (λ n. ltb 0 n) (parse_u64 text)

abbrev pub in_seconds : Option ℕ → Option ℕ
in_seconds none = none
in_seconds (some n) = some (seconds n)

-- `max_age`, of the header's text where it is there and is text.
unfoldable pub max_age : Option String → Option ℕ
unfolding age_directive split parse_u64
max_age none = none
max_age (some value) = in_seconds (age_of (age_directive (split b',' value)))

module _ {Key : Type 0} (crates : KeyCrates Key) where
  open crates use {url_safe_decode, standard_decode, from_bytes, show_length}

  abbrev exact_length : List ℕ → GuardResult (List ℕ)
  exact_length bytes =
      if length bytes == 32
      then ok bytes
      else err (
          internal (
            "admin JWKS key `x` decoded to "
            <> show_length (length bytes)
            <> " bytes (expected 32)"))

  unfoldable pub decode_ed25519_key : String → GuardResult Key
  decode_ed25519_key x_b64 = do
    bytes ←
        ok_or (or_else (url_safe_decode x_b64) (standard_decode x_b64))
          (internal "admin JWKS key `x` is not valid base64")
    array ← exact_length bytes
    map_err (λ e. internal ("admin JWKS key is not a valid Ed25519 key: " <> e)) (from_bytes array)

  abbrev pub is_text : String → Option String → Bool
  is_text t none = false
  is_text t (some s) = str_eq s t

  abbrev pub usable_key : GuardResult Key → Option Key
  usable_key (ok key) = some key
  usable_key (err e) = none

  abbrev decoded : String → String → String → JwksKey → Option (String × Key)
  decoded kty kid x k = elim (usable_key (decode_ed25519_key x)) [
    | none ↦ none
    | some key ↦ if str_eq kty "OKP" && is_text "Ed25519" k.crv then some (kid, key) else none
  ]

  abbrev with_fields :
      Option String → Option String → Option String → JwksKey → Option (String × Key)
  with_fields (some kty) (some kid) (some x) k = decoded kty kid x k
  with_fields _ _ _ k = none

  -- One turn of the loop over the response's entries: the entry's `kid` and key if it is kept.
  unfoldable pub usable_entry : JwksKey → Option (String × Key)
  unfolding decode_ed25519_key
  usable_entry k = with_fields k.kty k.kid k.x k

  abbrev pub add_entry : Option (String × Key) → KeySet Key → KeySet Key
  add_entry none ks = ks
  add_entry (some (kid, key)) ks = insert kid key ks

  -- The loop, with the map built so far.
  unfoldable pub insert_keys : List JwksKey → KeySet Key → KeySet Key
  unfolding usable_entry insert
  insert_keys [] acc = acc
  insert_keys (k ∷ ks) acc = insert_keys ks (add_entry (usable_entry k) acc)
