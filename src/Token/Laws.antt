-- ===== src/Token/Laws.antt =====
-- rust/src/token.rs: what an accepted token has shown, and how each rejection is answered.
use maxgame_admin_guard.Base.{
  ℕ, String, ◌≡◌, ◌↔◌, refl, ap, ◌∙◌, subst, Bool, true, false, Option, none, some, List, Result,
  ok, err, >>=-eq-ok, ok_or-eq-ok, arith, length,
}
use maxgame_admin_guard.Base.Int.{ℤ, ◌<ℤ◌}
use maxgame_admin_guard.Base.Text.{◌<>◌, eq_iff, trim}
use maxgame_admin_guard.Error.{GuardError}
use maxgame_admin_guard.Introspect.{or_text, not_blank, non_blank, normalized}
use maxgame_admin_guard.Introspect.Laws.{non_blank_iff}
use maxgame_admin_guard.Token.{
  VerifiedAdminToken, JwtHeader, JwtPayload, Crates, split_jwt, decode_base64url, decode_json,
  json_error, require, header_kid, check_signature_bytes, open_header, check_signature,
  check_issuer, check_expiry, check_claims, check_token, expected_alg, expected_token_type,
}
use maxgame_admin_guard.Token.Split.{IsCompact, split_jwt_iff}

module _ {Key : Type 0} (crates : Crates Key) where
  open crates use {
    base64url_decode, header_from_slice, payload_from_slice, signature_length, verify_strict, serde,
  }

  -- A segment decodes to bytes that a reader accepts.
  pub record Decodes {A : Type 0} (read : List ℕ → Result String A) (segment : String) (a : A)
      : Type 0 where
    pub bytes : List ℕ
    pub decoded : base64url_decode segment ≡ some bytes
    pub read_as : read bytes ≡ ok a

  -- What the token says of its key, before the key is looked up.
  pub record IsOpened (token h p s kid : String) : Type 0 where
    pub compact : IsCompact (trim token) h p s
    pub header : JwtHeader
    pub decodes : Decodes header_from_slice h header
    pub alg : header.alg ≡ expected_alg
    pub has_kid : header.kid ≡ some kid

  -- The signature segment holds a signature of the first two segments under the key.
  pub record IsSigned (key : Key) (h p s : String) : Type 0 where
    pub bytes : List ℕ
    pub decoded : base64url_decode s ≡ some bytes
    pub sized : length bytes ≡ signature_length
    pub signed : verify_strict key (h <> ("." <> p)) bytes ≡ true

  -- The claims grant the identity: the right type and issuer, not expired, and a subject.
  pub record HasClaims (issuer : String) (now : ℤ) (payload : JwtPayload) (t : VerifiedAdminToken)
      : Type 0 where
    pub is_admin : payload.token_type ≡ some expected_token_type
    pub issued : payload.iss ≡ some issuer
    pub exp : ℤ
    pub expires : payload.exp ≡ some exp
    pub in_time : ◌<ℤ◌ now exp
    pub subject : payload.sub ≡ some t.sub
    pub named : not_blank t.sub ≡ true
    pub role : t.role ≡ or_text payload.role ""
    pub access : t.site_access ≡ normalized serde payload.site_access

  require-ok : (b : Bool) (e : GuardError) {u : Unit {0}} → require crates b e ≡ ok u → b ≡ true
  require-ok true e h = refl
  require-ok false e h = cc

  json_error-ok : {A : Type 0} (r : Result String A) (a : A) → json_error crates r ≡ ok a → r ≡ ok a
  json_error-ok (ok b) a h = cc
  json_error-ok (err e) a h = cc

  decode_json-ok :
      {A : Type 0} (read : List ℕ → Result String A) (segment : String) (a : A)
      → decode_json crates read segment ≡ ok a
      → Decodes read segment a
  unfolding decode_json decode_base64url
  decode_json-ok read segment a h =
      let (bytes, decoded, r) = >>=-eq-ok (decode_base64url crates segment) _ h in
      record {
        bytes = bytes;
        decoded = ok_or-eq-ok (base64url_decode segment) _ decoded;
        read_as = json_error-ok (read bytes) a r;
      }

  decode_json-of :
      {A : Type 0} {read : List ℕ → Result String A} {segment : String} {a : A}
      → Decodes read segment a
      → decode_json crates read segment ≡ ok a
  unfolding decode_json decode_base64url
  decode_json-of d = rw (d.decoded, d.read_as)

  header_kid_iff :
      (header : JwtHeader) (kid : String)
      → (header_kid crates header ≡ ok kid)
        ↔ ((header.alg ≡ expected_alg) × (header.kid ≡ some kid))
  unfolding header_kid
  header_kid_iff header kid = cases header.kid refl
    where
      cases :
          (k : Option String)
          → header.kid ≡ k
          → (header_kid crates header ≡ ok kid)
            ↔ ((header.alg ≡ expected_alg) × (header.kid ≡ some kid))
      cases none e = ground (arith, eq_iff header.alg expected_alg)
      cases (some k) e = ground (arith, eq_iff header.alg expected_alg)

  -- The steps before the key lookup succeed exactly for a compact token whose header is readable,
  -- names the algorithm EdDSA and holds a `kid`.
  pub open_header_iff :
      (token h p s kid : String)
      → (open_header crates token ≡ ok ((h, p, s), kid)) ↔ IsOpened token h p s kid
  unfolding open_header
  open_header_iff token h p s kid = (there, back)
    where
      there : open_header crates token ≡ ok ((h, p, s), kid) → IsOpened token h p s kid
      there e =
          let (parts, split, e₁) = >>=-eq-ok (split_jwt token) _ e in
          let (header, decoded, e₂) =
            >>=-eq-ok (decode_json crates header_from_slice (parts.0)) _ e₁ in
          let (kid', found, e₃) = >>=-eq-ok (header_kid crates header) _ e₂ in
          let same : parts ≡ (h, p, s) = cc e₃ in
          let same_kid : kid' ≡ kid = cc e₃ in
          let checked = (header_kid_iff header kid).0 (found ∙ ap ok same_kid) in
          record {
            compact = (split_jwt_iff token h p s).0 (split ∙ ap ok same);
            header = header;
            decodes = decode_json-ok header_from_slice h header (
                subst
                  (λ (t : String × String × String).
                    decode_json crates header_from_slice (t.0) ≡ ok header)
                  same decoded);
            alg = checked.0;
            has_kid = checked.1;
          }

      back : IsOpened token h p s kid → open_header crates token ≡ ok ((h, p, s), kid)
      back o = rw (
        (split_jwt_iff token h p s).1 o.compact,
        decode_json-of o.decodes,
        (header_kid_iff o.header kid).1 (o.alg, o.has_kid),
      )

  check_signature_iff :
      (key : Key) (h p s : String)
      → (check_signature crates key (h, p, s) ≡ ok tt) ↔ IsSigned key h p s
  unfolding check_signature check_signature_bytes decode_base64url
  check_signature_iff key h p s = (there, back)
    where
      there : check_signature crates key (h, p, s) ≡ ok tt → IsSigned key h p s
      there e =
          let (bytes, decoded, e₁) = >>=-eq-ok (decode_base64url crates s) _ e in
          record {
            bytes = bytes;
            decoded = ok_or-eq-ok (base64url_decode s) _ decoded;
            sized = ground arith;
            signed = ground arith;
          }

      back : IsSigned key h p s → check_signature crates key (h, p, s) ≡ ok tt
      back d = rw d.decoded (ground (arith, d.sized, d.signed))

  -- The claims pass exactly if they are an admin token's, from the expected issuer, that expires
  -- after now and names its subject; the identity is then what the claims say.
  check_claims_iff :
      (issuer : String) (now : ℤ) (payload : JwtPayload) (t : VerifiedAdminToken)
      → (check_claims crates issuer now payload ≡ ok t) ↔ HasClaims issuer now payload t
  unfolding check_claims check_issuer check_expiry
  check_claims_iff issuer now payload t = (
    there payload.token_type payload.iss payload.exp (non_blank payload.sub) refl refl refl refl,
    back,
  )
    where
      there :
          (kind iss : Option String) (exp : Option ℤ) (sub : Option String)
          → payload.token_type ≡ kind
          → payload.iss ≡ iss
          → payload.exp ≡ exp
          → non_blank payload.sub ≡ sub
          → check_claims crates issuer now payload ≡ ok t
          → HasClaims issuer now payload t
      there none iss exp sub k i x n h = ground arith
      there (some a) none exp sub k i x n h = ground arith
      there (some a) (some b) none sub k i x n h = ground arith
      there (some a) (some b) (some e) none k i x n h = ground arith
      there (some a) (some b) (some e) (some s) k i x n h = record {
        is_admin = ground (arith, eq_iff a expected_token_type);
        issued = ground (arith, eq_iff b issuer);
        exp = e;
        expires = x;
        in_time = ground arith;
        subject = ground (arith, non_blank_iff payload.sub s);
        named = ground (arith, non_blank_iff payload.sub s);
        role = ground arith;
        access = ground arith;
      }

      back : HasClaims issuer now payload t → check_claims crates issuer now payload ≡ ok t
      back c = ground (
        arith,
        eq_iff expected_token_type expected_token_type,
        eq_iff issuer issuer,
        non_blank_iff payload.sub t.sub,
        c.is_admin,
        c.issued,
        c.expires,
        c.in_time,
        c.subject,
        c.named,
        c.role,
        c.access,
      )

  -- What an accepted token has shown after the key lookup.
  pub record IsAccepted (issuer : String) (now : ℤ) (key : Key) (h p s : String)
      (t : VerifiedAdminToken) : Type 0 where
    pub signed : IsSigned key h p s
    pub payload : JwtPayload
    pub decodes : Decodes payload_from_slice p payload
    pub claims : HasClaims issuer now payload t

  pub check_token_iff :
      (issuer : String) (now : ℤ) (key : Key) (h p s : String) (t : VerifiedAdminToken)
      → (check_token crates issuer now key (h, p, s) ≡ ok t) ↔ IsAccepted issuer now key h p s t
  unfolding check_token
  check_token_iff issuer now key h p s t = (there, back)
    where
      there : check_token crates issuer now key (h, p, s) ≡ ok t → IsAccepted issuer now key h p s t
      there e =
          let (u, signed, e₁) = >>=-eq-ok (check_signature crates key (h, p, s)) _ e in
          let (payload, decoded, e₂) = >>=-eq-ok (decode_json crates payload_from_slice p) _ e₁ in
          record {
            signed = (check_signature_iff key h p s).0 signed;
            payload = payload;
            decodes = decode_json-ok payload_from_slice p payload decoded;
            claims = (check_claims_iff issuer now payload t).0 e₂;
          }

      back : IsAccepted issuer now key h p s t → check_token crates issuer now key (h, p, s) ≡ ok t
      back a =
          rw ((check_signature_iff key h p s).1 a.signed, decode_json-of a.decodes)
            ((check_claims_iff issuer now a.payload t).1 a.claims)
