-- ===== src/Examples/Tokens.antt =====
-- rust/src/token.rs on concrete tokens.
use maxgame_admin_guard.Base.{◌≡◌, refl, ok}
use maxgame_admin_guard.Base.Text.{
  trim, split, is_empty, trim_start_matches, trim_end_matches, is_whitespace,
}
use maxgame_admin_guard.Access.{
  normalize_site_access, normalize_entries, insert_sorted, sort, dedup, insert, raw_features,
  grant_text,
}
use maxgame_admin_guard.Base.Text.{str_le}
use maxgame_admin_guard.Introspect.{non_blank, not_blank}
use maxgame_admin_guard.Token.{
  verify, open_header, split_jwt, decode_json, decode_base64url, header_kid, check_token,
  check_signature, check_signature_bytes, check_claims, check_issuer, check_expiry,
}
use maxgame_admin_guard.Token.Verify.{IsVerified, verify_iff}
use maxgame_admin_guard.Examples.{crates, unix_seconds, verifier, verified}

pub verify_ann : verify crates unix_seconds verifier "h.p.s" 5 ≡ (ok verified, 6)
unfolding verify open_header split_jwt trim split is_empty trim_start_matches trim_end_matches
    is_whitespace decode_json decode_base64url header_kid check_token check_signature
    check_signature_bytes check_claims check_issuer check_expiry non_blank not_blank
    normalize_site_access normalize_entries insert_sorted sort dedup insert raw_features grant_text
    str_le
verify_ann = refl

verify_iff_example : IsVerified crates unix_seconds verifier "h.p.s" 5 6 verified
verify_iff_example = (verify_iff crates unix_seconds verifier "h.p.s" 5 6 verified).0 verify_ann
