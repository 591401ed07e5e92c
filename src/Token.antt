-- ===== src/Token.antt =====
-- rust/src/token.rs: offline verification of an admin access token.
-- What the source takes from crates is a parameter: base64url, the derived JSON readers, Ed25519,
-- the formatting of integers and of `Debug` texts inside messages, and the key provider.
pub mod Split
pub mod Laws
pub mod Verify
use maxgame_admin_guard.Base.{
  ℕ, String, Bool, true, false, ◌&&◌, not, Option, none, some, List, [], ◌∷◌, Result, ok, err,
  ◌>>=◌, ◌>>◌, ok_or, Call, and_then, ◌==◌, if◌then◌else◌, length,
}
use maxgame_admin_guard.Base.Int.{ℤ, leb_ℤ, u64_as_i64}
use maxgame_admin_guard.Base.Text.{◌<>◌, trim, is_empty, split, str_eq}
use maxgame_admin_guard.Error.{GuardError, unauthorized, GuardResult}
use maxgame_admin_guard.Json.{Value, Serde}
use maxgame_admin_guard.Access.{SiteAccess}
use maxgame_admin_guard.Introspect.{or_text, non_blank, normalized}

abbrev pub expected_alg : String
expected_alg = "EdDSA"

abbrev pub expected_token_type : String
expected_token_type = "admin"

pub record VerifiedAdminToken : Type 0 where
  pub sub : String
  pub role : String
  pub site_access : SiteAccess

pub record JwtHeader : Type 0 where
  pub alg : String
  pub kid : Option String

pub record JwtPayload : Type 0 where
  pub sub : Option String
  pub iss : Option String
  pub exp : Option ℤ
  pub role : Option String
  pub token_type : Option String
  pub site_access : Option Value

-- The crates that the verifier calls. A decoder answers with the error's text where it fails.
pub record Crates (Key : Type 0) : Type 0 where
  pub base64url_decode : String → Option (List ℕ)
  pub header_from_slice : List ℕ → Result String JwtHeader
  pub payload_from_slice : List ℕ → Result String JwtPayload
  pub signature_length : ℕ
  pub verify_strict : Key → String → List ℕ → Bool
  pub debug_option : Option String → String
  pub show_int : ℤ → String
  pub serde : Serde

-- rust/src/jwks.rs, the trait `JwksKeyProvider`.
pub record JwksKeyProvider (W Key : Type 0) : Type 0 where
  pub resolve_key : String → Call W GuardError Key

pub record AdminTokenVerifier (W Key : Type 0) : Type 0 where
  pub key_provider : JwksKeyProvider W Key
  pub expected_issuer : String

-- `AdminTokenVerifier::new`.
abbrev pub new_verifier :
    {W Key : Type 0} → JwksKeyProvider W Key → String → AdminTokenVerifier W Key
new_verifier key_provider expected_issuer = record {
  key_provider = key_provider;
  expected_issuer = expected_issuer;
}

-- The three segments of the compact form.
abbrev three_parts : List String → GuardResult (String × String × String)
three_parts (h ∷ p ∷ s ∷ []) =
    if not (is_empty h) && not (is_empty p) && not (is_empty s)
    then ok (h, p, s)
    else err (unauthorized "JWT is not a three-part compact token")
three_parts _ = err (unauthorized "JWT is not a three-part compact token")

unfoldable pub split_jwt : String → GuardResult (String × String × String)
unfolding trim split is_empty
split_jwt token = three_parts (split b'.' (trim token))

module _ {Key : Type 0} (crates : Crates Key) where
  open crates use {
    base64url_decode, header_from_slice, payload_from_slice, signature_length, verify_strict,
    debug_option, show_int, serde,
  }

  unfoldable pub decode_base64url : String → GuardResult (List ℕ)
  decode_base64url segment =
      ok_or (base64url_decode segment) (unauthorized "JWT segment is not valid base64url")

  abbrev pub json_error : {A : Type 0} → Result String A → GuardResult A
  json_error (ok a) = ok a
  json_error (err e) = err (unauthorized ("JWT segment is not valid JSON: " <> e))

  -- `decode_json`, with the reader of the type that is asked for.
  unfoldable pub decode_json : {A : Type 0} → (List ℕ → Result String A) → String → GuardResult A
  unfolding decode_base64url
  decode_json read segment = do bytes ← decode_base64url segment; json_error (read bytes)

  abbrev pub require : Bool → GuardError → GuardResult (Unit {0})
  require true e = ok tt
  require false e = err e

  -- The checks of the header: the algorithm first, then that a `kid` is there.
  unfoldable pub header_kid : JwtHeader → GuardResult String
  header_kid header = do
    require (str_eq header.alg expected_alg)
        (unauthorized ("JWT alg '" <> header.alg <> "' rejected (expected EdDSA)"))
    ok_or header.kid (unauthorized "JWT missing `kid` header")

  -- The steps before the key lookup: the segments and the `kid`.
  unfoldable pub open_header : String → GuardResult ((String × String × String) × String)
  unfolding split_jwt decode_json header_kid
  open_header token = do
    parts ← split_jwt token
    header ← decode_json header_from_slice (parts.0)
    kid ← header_kid header
    ok (parts, kid)

  -- The signature, over the first two segments as they stand in the token.
  unfoldable pub check_signature_bytes : Key → String → List ℕ → GuardResult (Unit {0})
  check_signature_bytes key signing_input bytes = do
    require (length bytes == signature_length) (unauthorized "JWT signature shape invalid")
    require (verify_strict key signing_input bytes)
        (unauthorized "JWT signature verification failed")

  unfoldable pub check_signature : Key → String × String × String → GuardResult (Unit {0})
  unfolding decode_base64url check_signature_bytes
  check_signature key parts = do
    bytes ← decode_base64url (parts.2)
    check_signature_bytes key (parts.0 <> ("." <> parts.1)) bytes

  -- `payload.token_type.as_deref() != Some(EXPECTED_TOKEN_TYPE)`, negated.
  abbrev pub is_text : String → Option String → Bool
  is_text t none = false
  is_text t (some s) = str_eq s t

  unfoldable pub check_issuer : String → Option String → GuardResult (Unit {0})
  check_issuer expected none = err (unauthorized "JWT missing `iss` claim")
  check_issuer expected (some iss) =
      require (str_eq iss expected)
        (unauthorized ("JWT iss '" <> iss <> "' does not match expected '" <> expected <> "'"))

  unfoldable pub check_expiry : ℤ → ℤ → GuardResult (Unit {0})
  check_expiry exp now =
      require (not (leb_ℤ exp now))
        (unauthorized ("JWT expired (exp=" <> show_int exp <> ", now=" <> show_int now <> ")"))

  -- The claims, read after the signature.
  unfoldable pub check_claims : String → ℤ → JwtPayload → GuardResult VerifiedAdminToken
  unfolding check_issuer check_expiry non_blank
  check_claims expected_issuer now payload = do
    require (is_text expected_token_type payload.token_type) (
        unauthorized
          ("JWT type claim is " <> debug_option payload.token_type <> " (expected \"admin\")"))
    check_issuer expected_issuer payload.iss
    exp ← ok_or payload.exp (unauthorized "JWT missing `exp` claim")
    check_expiry exp now
    sub ← ok_or (non_blank payload.sub) (unauthorized "JWT missing `sub` claim")
    ok (record {
      sub = sub;
      role = or_text payload.role "";
      site_access = normalized serde payload.site_access;
    })

  -- The steps after the key lookup.
  unfoldable pub check_token :
      String → ℤ → Key → String × String × String → GuardResult VerifiedAdminToken
  unfolding check_signature decode_json check_claims
  check_token expected_issuer now key parts = do
    check_signature key parts
    payload ← decode_json payload_from_slice (parts.1)
    check_claims expected_issuer now payload

  module _ {W : Type 0} (unix_seconds : W → ℕ) where
    -- `now_ts`.
    abbrev pub now_ts : W → ℤ
    now_ts w = u64_as_i64 (unix_seconds w)

    abbrev pub resolve_and_check :
        AdminTokenVerifier W Key
        → GuardResult ((String × String × String) × String)
        → Call W GuardError VerifiedAdminToken
    resolve_and_check v (err e) w = (err e, w)
    resolve_and_check v (ok (parts, kid)) w =
        and_then (v.key_provider.resolve_key kid w)
          (λ key w'. (check_token v.expected_issuer (now_ts w') key parts, w'))

    unfoldable pub verify : AdminTokenVerifier W Key → String → Call W GuardError VerifiedAdminToken
    verify v token w = resolve_and_check v (open_header token) w
