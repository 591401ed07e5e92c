-- ===== src/Examples/Wired.antt =====
-- rust/src/guard.rs over both clients, on a network that answers.
use maxgame_admin_guard.Base.{ℕ, ◌+◌, ◌≡◌, refl, true, Option, none, some, [], ◌∷◌, ok, arith}
use maxgame_admin_guard.Base.Int.{pos}
use maxgame_admin_guard.Base.Text.{
  trim, trim_start_matches, trim_end_matches, is_whitespace, split, is_empty,
}
use maxgame_admin_guard.Json.{object}
use maxgame_admin_guard.Introspect.{IntrospectionBody, active, from_body, non_blank, not_blank}
use maxgame_admin_guard.Introspect.Client as Live
use maxgame_admin_guard.Token.{now_ts, split_jwt}
use maxgame_admin_guard.Token.Split.{split_jwt_iff}
use maxgame_admin_guard.Access.{
  normalize_site_access, normalize_entries, raw_features, grant_text, insert, insert_sorted, sort,
  dedup, has_feature, is_super_admin, lookup,
}
use maxgame_admin_guard.Base.Text.{str_le}
use maxgame_admin_guard.Jwks.{usable_entry, decode_ed25519_key}
use maxgame_admin_guard.Jwks.Keys.{last_key}
use maxgame_admin_guard.Token.Laws.{IsOpened, IsAccepted}
use maxgame_admin_guard.Guard.{authorize, is_configured, is_mutating, default_mutating_methods}
use maxgame_admin_guard.Guard.Wiring.{new_guard, new_world}
use maxgame_admin_guard.Guard.Wiring.Success.{first_mutation-authorized}
use maxgame_admin_guard.Examples.{
  crates, serde, config, verified, grants, ann, may_write, claim_entries, header, payload,
}
use maxgame_admin_guard.Examples.Keys as Toy

splits : split_jwt "h.p.s" ≡ ok ("h", "p", "s")
unfolding split_jwt trim trim_start_matches trim_end_matches is_whitespace split is_empty
splits = refl

pub opened : IsOpened crates "h.p.s" "h" "p" "s" "k1"
opened = record {
  compact = (split_jwt_iff "h.p.s" "h" "p" "s").0 splits;
  header = header;
  decodes = record { bytes = 1 ∷ []; decoded = refl; read_as = refl };
  alg = refl;
  has_kid = refl;
}

granted_sites : grants ≡ normalize_site_access serde (object claim_entries)
unfolding normalize_site_access normalize_entries insert_sorted sort dedup insert raw_features
    grant_text str_le
granted_sites = refl

pub accepted : IsAccepted crates "idp" (now_ts crates (λ (net : ℕ). 0) 6) 7 "h" "p" "s" verified
accepted = record {
  signed = record { bytes = 1 ∷ []; decoded = refl; sized = refl; signed = refl };
  payload = payload;
  decodes = record { bytes = 1 ∷ []; decoded = refl; read_as = refl };
  claims = record {
    is_admin = refl;
    issued = refl;
    exp = pos 100;
    expires = refl;
    in_time = omega arith;
    subject = refl;
    named =
        unfold not_blank trim trim_start_matches trim_end_matches is_whitespace is_empty in refl;
    role = refl;
    access = granted_sites;
  };
}

abbrev body : IntrospectionBody
body = record {
  active = some true;
  admin_id = some "ann";
  role = some "admin";
  site_access = some (object claim_entries);
  reason = none;
  step_up_elevated_until = none;
}

abbrev response : Live.Response
response = record { status = 200; status_text = "200 OK"; body = some body }

abbrev post : Live.Request → ℕ → Option Live.Response × ℕ
post r net = (some response, net + 1)

pub configured : is_configured config ≡ true
unfolding is_configured not_blank trim is_empty trim_start_matches trim_end_matches is_whitespace
    config
configured = refl

mutates : is_mutating config "POST" ≡ true
unfolding is_mutating default_mutating_methods config
mutates = refl

found : last_key Toy.crates "k1" (Toy.rsa ∷ Toy.entry ∷ []) ≡ some 7
unfolding usable_entry decode_ed25519_key
found = refl

names_ann : from_body serde body ≡ active "ann" "admin" grants
unfolding from_body non_blank not_blank trim is_empty trim_start_matches trim_end_matches
    is_whitespace normalize_site_access normalize_entries insert_sorted sort dedup insert
    raw_features grant_text str_le
names_ann = refl

pub may : has_feature ann "hub" "write" ≡ true
unfolding has_feature is_super_admin lookup
may = refl

first_mutation-authorized_example :
    (authorize crates
      (λ w. 0)
      (new_guard Toy.crates serde (λ (net : ℕ). net) Toy.send post Toy.settled config)
      "POST"
      (some "h.p.s")
      (some may_write)
      (new_world config 5)).0
    ≡ ok ann
unfolding config
first_mutation-authorized_example =
    first_mutation-authorized Toy.crates serde (λ (net : ℕ). net) (λ (net : ℕ). 0) Toy.send post
      Toy.settled config crates "POST" "h.p.s" "h" "p" "s" "k1" may_write 5 6 7 Toy.reply
      (Toy.rsa ∷ Toy.entry ∷ []) 7 verified response body "ann" "admin" grants configured mutates
      opened refl refl refl found accepted may refl refl refl names_ann may
