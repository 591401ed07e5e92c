-- ===== src/Examples.antt =====
-- Concrete inputs for the theorems: toy crates, a clock in seconds as the world, one admin.
mod Tokens
mod Guards
mod Breakers
mod Keys
mod Verdicts
mod Settings
mod Service
mod Routes
mod Boot
mod Wired
mod Outages
use maxgame_admin_guard.Base.{
  ℕ, ◌+◌, String, Bool, true, false, Option, none, some, List, [], ◌∷◌, Result, ok, err, ◌==◌,
  if◌then◌else◌,
}
use maxgame_admin_guard.Base.Int.{ℤ, pos}
use maxgame_admin_guard.Base.Text.{str_eq}
use maxgame_admin_guard.Error.{GuardError, unauthorized, unavailable}
use maxgame_admin_guard.Json.{
  Value, null, string, array, object, Items, nil, cons, Entries, end, entry, Serde,
}
use maxgame_admin_guard.Access.{AdminIdentity, SiteAccess}
use maxgame_admin_guard.Introspect.{AdminIntrospection, active, inactive, AdminIntrospector}
use maxgame_admin_guard.Token.{
  VerifiedAdminToken, JwtHeader, JwtPayload, Crates, JwksKeyProvider, AdminTokenVerifier,
}
use maxgame_admin_guard.Guard.{GuardConfig, Requirement, AdminGuard, new_config}

abbrev pub serde : Serde
serde = record { to_string = λ v. "value"; as_i64 = λ v. some (pos 99) }

-- `{"hub": ["write", "read", "read"]}`.
abbrev pub claim_entries : Entries
claim_entries =
    entry "hub" (array (cons (string "write") (cons (string "read") (cons (string "read") nil))))
      end

abbrev pub header : JwtHeader
header = record { alg = "EdDSA"; kid = some "k1" }

abbrev pub payload : JwtPayload
payload = record {
  sub = some "ann";
  iss = some "idp";
  exp = some (pos 100);
  role = some "admin";
  token_type = some "admin";
  site_access = some (object claim_entries);
}

-- Every segment decodes to one byte, and a signature holds under the key 7.
abbrev pub crates : Crates ℕ
crates = record {
  base64url_decode = λ s. if str_eq s "?" then none else some (1 ∷ []);
  header_from_slice = λ b. ok header;
  payload_from_slice = λ b. ok payload;
  signature_length = 1;
  verify_strict = λ key m b. key == 7;
  debug_option = λ o. "?";
  show_int = λ n. "?";
  serde = serde;
}

-- The seconds of the world are the world.
abbrev pub unix_seconds : ℕ → ℕ
unix_seconds w = w

abbrev pub key_provider : JwksKeyProvider ℕ ℕ
key_provider = record {
  resolve_key = λ kid w. if str_eq kid "k1" then (ok 7, w + 1) else (err (unavailable "down"), w);
}

abbrev pub verifier : AdminTokenVerifier ℕ ℕ
verifier = record { key_provider = key_provider; expected_issuer = "idp" }

abbrev pub grants : SiteAccess
grants = ("hub", "read" ∷ "write" ∷ []) ∷ []

abbrev pub verified : VerifiedAdminToken
verified = record { sub = "ann"; role = "admin"; site_access = grants }

-- An introspector that confirms the admin, one that has ended the session, and each a tick later.
abbrev pub confirming : AdminIntrospector ℕ
confirming = record {
  introspect = λ token w. (ok (active "ann" "admin" grants), w + 1);
  introspect_with_step_up = λ token w. (ok (active "ann" "admin" grants, none), w + 1);
}

abbrev pub ending : AdminIntrospector ℕ
ending = record {
  introspect = λ token w. (ok (inactive "signed out"), w + 1);
  introspect_with_step_up = λ token w. (ok (inactive "signed out", none), w + 1);
}

abbrev pub config : GuardConfig
unfolding new_config
config = new_config "idp" "https://idp/jwks" "https://idp/introspect" "secret"

abbrev pub guard : AdminGuard ℕ ℕ
guard = record { config = config; verifier = verifier; introspector = confirming }

abbrev pub ending_guard : AdminGuard ℕ ℕ
ending_guard = record { config = config; verifier = verifier; introspector = ending }

abbrev pub may_write : Requirement
may_write = record { site = "hub"; feature = "write" }

abbrev pub may_delete : Requirement
may_delete = record { site = "hub"; feature = "delete" }

abbrev pub ann : AdminIdentity
ann = record { admin_id = "ann"; role = "admin"; site_access = grants; token = "h.p.s" }
