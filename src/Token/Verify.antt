-- ===== src/Token/Verify.antt =====
-- rust/src/token.rs: `AdminTokenVerifier::verify` as a whole, over any key provider.
use maxgame_admin_guard.Base.{
  ℕ, String, ◌≡◌, ◌↔◌, ◌⊎◌, inl, inr, refl, ap, subst, Bool, true, false, Option, none, some, List,
  [], ◌∷◌, Result, ok, not, ◌&&◌, ◌==◌, length, Bool-cases, ok_or, ◌>>=◌, ◌>>◌, err, and_then-eq-ok,
  and_then-eq-err, arith,
}
use maxgame_admin_guard.Base.Int.{ℤ}
use maxgame_admin_guard.Base.Text.{◌<>◌, is_empty, split, trim}
use maxgame_admin_guard.Error.{GuardError, unauthorized, GuardResult, status}
use maxgame_admin_guard.Introspect.{non_blank}
use maxgame_admin_guard.Token.{
  VerifiedAdminToken, JwtPayload, Crates, AdminTokenVerifier, split_jwt, three_parts,
  decode_base64url, decode_json, json_error, header_kid, open_header, check_signature,
  check_signature_bytes, check_issuer, check_expiry, check_claims, check_token, now_ts, require,
  resolve_and_check, verify,
}
use maxgame_admin_guard.Token.Laws.{IsOpened, IsAccepted, open_header_iff, check_token_iff}

module _ {Key : Type 0} (crates : Crates Key) {W : Type 0} (unix_seconds : W → ℕ) where
  -- All that an accepted token has shown: its form, the key that the provider found for its `kid`,
  -- the signature under that key, and its claims at the time after the lookup.
  pub record IsVerified (v : AdminTokenVerifier W Key) (token : String) (w w' : W)
      (t : VerifiedAdminToken) : Type 0 where
    pub h : String
    pub p : String
    pub s : String
    pub kid : String
    pub key : Key
    pub opened : IsOpened crates token h p s kid
    pub resolved : v.key_provider.resolve_key kid w ≡ (ok key, w')
    pub accepted : IsAccepted crates v.expected_issuer (now_ts crates unix_seconds w') key h p s t

  -- A verifier accepts a token, with an identity, exactly if the token is compact with a readable
  -- EdDSA header that names a key, the provider resolves that key, the signature of the first two
  -- segments holds under it, and the claims are an unexpired admin's from the expected issuer with
  -- a subject; the identity is what the claims say.
  pub verify_iff :
      (v : AdminTokenVerifier W Key) (token : String) (w w' : W) (t : VerifiedAdminToken)
      → (verify crates unix_seconds v token w ≡ (ok t, w')) ↔ IsVerified v token w w' t
  unfolding verify
  verify_iff v token w w' t = (there (open_header crates token) refl, back)
    where
      there :
          (o : GuardResult ((String × String × String) × String))
          → open_header crates token ≡ o
          → resolve_and_check crates unix_seconds v o w ≡ (ok t, w')
          → IsVerified v token w w' t
      there (err e) q h = cc
      there (ok ((h, p, s), kid)) q r =
          let (key, w'', found, checked) =
            and_then-eq-ok (v.key_provider.resolve_key kid w) _ t w' r in
          let accepted : check_token crates v.expected_issuer (now_ts crates unix_seconds w'') key
                (h, p, s)
              ≡ ok t =
            cc checked in
          let verified : IsVerified v token w w'' t = record {
            h = h;
            p = p;
            s = s;
            kid = kid;
            key = key;
            opened = (open_header_iff crates token h p s kid).0 q;
            resolved = found;
            accepted = (check_token_iff crates v.expected_issuer _ key h p s t).0 accepted;
          } in
          subst (λ x. IsVerified v token w x t) (cc checked) verified

      back : IsVerified v token w w' t → verify crates unix_seconds v token w ≡ (ok t, w')
      back d =
          rw ((open_header_iff crates token d.h d.p d.s d.kid).1 d.opened, d.resolved)
            (ap (λ (r : GuardResult VerifiedAdminToken). (r, w'))
              ((check_token_iff crates v.expected_issuer _ d.key d.h d.p d.s t).1 d.accepted))

  -- Whatever a step refuses is a 401.
  abbrev Refuses401 : {A : Type 0} → GuardResult A → Type 0
  Refuses401 (ok a) = Unit
  Refuses401 (err e) = status e ≡ 401

  bind-Refuses401 :
      {A B : Type 0} (m : GuardResult A) (f : A → GuardResult B)
      → Refuses401 m
      → ((a : A) → Refuses401 (f a))
      → Refuses401 (m >>= f)
  bind-Refuses401 (ok a) f h k = k a
  bind-Refuses401 (err e) f h k = h

  require-Refuses401 : (b : Bool) (msg : String) → Refuses401 (require crates b (unauthorized msg))
  unfolding status
  require-Refuses401 true msg = tt
  require-Refuses401 false msg = refl

  ok_or-Refuses401 :
      {A : Type 0} (o : Option A) (msg : String) → Refuses401 (ok_or o (unauthorized msg))
  unfolding status
  ok_or-Refuses401 none msg = refl
  ok_or-Refuses401 (some a) msg = tt

  three_parts-Refuses401 : (ps : List String) → Refuses401 (three_parts ps)
  unfolding status
  three_parts-Refuses401 (h ∷ p ∷ s ∷ []) =
      elim (Bool-cases (not (is_empty h) && not (is_empty p) && not (is_empty s))) [
        | inl full ↦ rw full tt
        | inr bare ↦ rw bare refl
      ]
  three_parts-Refuses401 [] = refl
  three_parts-Refuses401 (h ∷ []) = refl
  three_parts-Refuses401 (h ∷ p ∷ []) = refl
  three_parts-Refuses401 (h ∷ p ∷ s ∷ t ∷ ts) = refl

  json_error-Refuses401 : {A : Type 0} (r : Result String A) → Refuses401 (json_error crates r)
  unfolding status
  json_error-Refuses401 (ok a) = tt
  json_error-Refuses401 (err e) = refl

  decode_json-Refuses401 :
      {A : Type 0} (read : List ℕ → Result String A) (segment : String)
      → Refuses401 (decode_json crates read segment)
  unfolding decode_json
  decode_json-Refuses401 read segment =
      bind-Refuses401 _ _ (ok_or-Refuses401 (crates.base64url_decode segment) _)
        (λ bytes. json_error-Refuses401 (read bytes))

  open_header-Refuses401 : (token : String) → Refuses401 (open_header crates token)
  unfolding open_header split_jwt header_kid
  open_header-Refuses401 token =
      bind-Refuses401 (split_jwt token) _ (three_parts-Refuses401 (split b'.' (trim token)))
        λ parts.
          bind-Refuses401 (decode_json crates crates.header_from_slice (parts.0)) _
            (decode_json-Refuses401 _ (parts.0))
            λ header.
              bind-Refuses401 (header_kid crates header) _
                (bind-Refuses401 (require crates _ _) _ (require-Refuses401 _ _)
                  (λ u. ok_or-Refuses401 header.kid _))
                (λ kid. tt)

  check_issuer-Refuses401 :
      (issuer : String) (iss : Option String) → Refuses401 (check_issuer crates issuer iss)
  unfolding check_issuer status
  check_issuer-Refuses401 issuer none = refl
  check_issuer-Refuses401 issuer (some iss) = require-Refuses401 _ _

  check_claims-Refuses401 :
      (issuer : String) (now : ℤ) (payload : JwtPayload)
      → Refuses401 (check_claims crates issuer now payload)
  unfolding check_claims
  check_claims-Refuses401 issuer now payload =
      bind-Refuses401 (require crates _ _) _ (require-Refuses401 _ _) λ u.
        bind-Refuses401 (check_issuer crates issuer payload.iss) _
          (check_issuer-Refuses401 issuer payload.iss)
          λ u₁. bind-Refuses401 (ok_or payload.exp _) _ (ok_or-Refuses401 payload.exp _) λ exp.
            bind-Refuses401 (check_expiry crates exp now) _ (require-Refuses401 _ _) λ u₂.
              bind-Refuses401 (ok_or (non_blank payload.sub) _) _
                (ok_or-Refuses401 (non_blank payload.sub) _) (λ sub. tt)

  both-Refuses401 :
      (a b : Bool) (m n : String)
      → Refuses401 (require crates a (unauthorized m) >> require crates b (unauthorized n))
  unfolding status
  both-Refuses401 true b m n = require-Refuses401 b n
  both-Refuses401 false b m n = refl

  check_signature_bytes-Refuses401 :
      (key : Key) (input : String) (bytes : List ℕ)
      → Refuses401 (check_signature_bytes crates key input bytes)
  unfolding check_signature_bytes
  check_signature_bytes-Refuses401 key input bytes =
      both-Refuses401 (length bytes == crates.signature_length)
        (crates.verify_strict key input bytes) "JWT signature shape invalid"
        "JWT signature verification failed"

  check_signature-Refuses401 :
      (key : Key) (parts : String × String × String) → Refuses401 (check_signature crates key parts)
  unfolding check_signature decode_base64url
  check_signature-Refuses401 key parts =
      bind-Refuses401 (decode_base64url crates (parts.2)) _
        (ok_or-Refuses401 (crates.base64url_decode (parts.2)) _)
        (check_signature_bytes-Refuses401 key (parts.0 <> ("." <> parts.1)))

  check_token-Refuses401 :
      (issuer : String) (now : ℤ) (key : Key) (parts : String × String × String)
      → Refuses401 (check_token crates issuer now key parts)
  unfolding check_token
  check_token-Refuses401 issuer now key parts =
      bind-Refuses401 (check_signature crates key parts) _ (check_signature-Refuses401 key parts)
        (λ u.
          bind-Refuses401 (decode_json crates crates.payload_from_slice (parts.1)) _
            (decode_json-Refuses401 _ (parts.1)) (check_claims-Refuses401 issuer now))

  status-of-Refuses401 :
      {A : Type 0} (r : GuardResult A) (x : GuardError) → Refuses401 r → r ≡ err x → status x ≡ 401
  status-of-Refuses401 (ok a) x h e = cc
  status-of-Refuses401 (err y) x h e = ground arith

  -- A rejected token is a 401, unless the key provider itself could not answer: then its error is
  -- passed on as it is.
  pub verify-rejects :
      (v : AdminTokenVerifier W Key) (token : String) (w w' : W) (x : GuardError)
      → verify crates unix_seconds v token w ≡ (err x, w')
      → (status x ≡ 401) ⊎ ((kid : String) × (v.key_provider.resolve_key kid w ≡ (err x, w')))
  unfolding verify
  verify-rejects v token w w' x h = cases (open_header crates token) refl h
    where
      cases :
          (o : GuardResult ((String × String × String) × String))
          → open_header crates token ≡ o
          → resolve_and_check crates unix_seconds v o w ≡ (err x, w')
          → (status x ≡ 401) ⊎ ((kid : String) × (v.key_provider.resolve_key kid w ≡ (err x, w')))
      cases (err e) q r = inl (status-of-Refuses401 _ x (open_header-Refuses401 token) (cc (q, r)))
      cases (ok (parts, kid)) q r =
          elim (and_then-eq-err (v.key_provider.resolve_key kid w) _ x w' r) [
            | inl failed ↦ inr (kid, failed)
            | inr (key, w'', found, checked) ↦ inl (
                status-of-Refuses401
                  (check_token crates v.expected_issuer (now_ts crates unix_seconds w'') key parts)
                  x (check_token-Refuses401 v.expected_issuer _ key parts) (cc checked))
          ]
