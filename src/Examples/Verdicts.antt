-- ===== src/Examples/Verdicts.antt =====
-- rust/src/introspect.rs, rust/src/introspect_client.rs, rust/src/access.rs and
-- rust/src/step_up.rs on concrete bodies, claims and tokens.
use maxgame_admin_guard.Base.{ℕ, ◌+◌, String, ◌≡◌, ◌↔◌, refl, true, Option, none, some, [], ◌∷◌, ok}
use maxgame_admin_guard.Base.Text.{
  trim, is_empty, trim_start_matches, trim_end_matches, is_whitespace,
}
use maxgame_admin_guard.Json.{Value, string, object, bool, entry, end, get}
use maxgame_admin_guard.Access.{lookup, normalize_site_access}
use maxgame_admin_guard.Access.Grants.{
  HasKeys, NormalAt, SameAt, site_value, normalize-NormalAt, normalize_same_iff,
}
use maxgame_admin_guard.Breaker.{with_clock}
use maxgame_admin_guard.Breaker.Calls.{IsClosed, call}
use maxgame_admin_guard.Introspect.{IntrospectionBody}
use maxgame_admin_guard.Introspect.Client.{Request, Response, World, new, fetch}
use maxgame_admin_guard.Introspect.Client.Laws.{fetch-call, outcome_of, sent}
use maxgame_admin_guard.Introspect.Client.Verdicts.{verdicts_never_open, introspect_all}
use maxgame_admin_guard.StepUp
use maxgame_admin_guard.StepUp.{
  StepUpConsumeClient, consumer, require_single_use_step_up, header_token, read_response,
  says_consumed, consume,
}
use maxgame_admin_guard.StepUp.Laws.{
  Consumes, IsChecked, require_single_use-IsChecked, single_use_passes_iff,
}
use maxgame_admin_guard.Examples.{serde, claim_entries}

abbrev body : IntrospectionBody
body = record {
  active = some true;
  admin_id = some "ann";
  role = some "admin";
  site_access = none;
  reason = none;
  step_up_elevated_until = some (string "99");
}

abbrev now : ℕ → ℕ
now net = net

abbrev post : Request → ℕ → Option Response × ℕ
post r net = (some (record { status = 200; status_text = "200 OK"; body = some body }), net + 1)

abbrev lost : Request → ℕ → Option Response × ℕ
lost r net = (none, net + 1)

abbrev world : World ℕ
world = record { client = new "https://idp/introspect" "secret"; net = 5 }

fetch-call_example :
    (fetch now post "h.p.s" world).1.client.breaker
    ≡ call world.client.breaker (record {
      asked = 5;
      done = now (sent now post "h.p.s" world).1;
      outcome = outcome_of (sent now post "h.p.s" world).0;
    })
fetch-call_example = fetch-call now post "h.p.s" world

verdicts_never_open_example :
    IsClosed (introspect_all now post serde ("h.p.s" ∷ "h.p.t" ∷ []) world).client.breaker
verdicts_never_open_example =
    verdicts_never_open now post serde ("h.p.s" ∷ "h.p.t" ∷ []) world
      (λ r net. (body, (refl, refl))) (unfold new with_clock in (refl, refl))

abbrev listed_claim : Value
listed_claim = object claim_entries

distinct : HasKeys listed_claim
distinct = unfold get in (refl, tt)

normalize-NormalAt_example :
    NormalAt serde
      (site_value listed_claim "hub")
      (lookup "hub" (normalize_site_access serde listed_claim))
normalize-NormalAt_example = normalize-NormalAt serde listed_claim "hub" distinct

-- A claim in the older shape, whose grants are the keys of an object.
abbrev legacy_claim : Value
legacy_claim = object (
    entry "hub" (object (entry "read" (string "readonly") (entry "write" (string "edit") end))) end)

normalize_same_iff_example :
    ((site : String)
      → lookup site (normalize_site_access serde listed_claim)
        ≡ lookup site (normalize_site_access serde legacy_claim))
    ↔ ((site : String) → SameAt serde (site_value listed_claim site) (site_value legacy_claim site))
normalize_same_iff_example =
    normalize_same_iff serde listed_claim legacy_claim distinct (unfold get in (refl, tt))

abbrev spender : StepUpConsumeClient
spender = record {
  consume_url = "https://idp/consume";
  header_name = "x-api-key";
  api_key = "secret";
  timeout = 3;
}

abbrev spent : StepUp.Response
spent = record {
  status = 200;
  status_text = "200 OK";
  body = some (object (entry "consumed" (bool true) end));
}

abbrev spend : StepUp.Request → ℕ → Option StepUp.Response × ℕ
spend r net = (some spent, net + 1)

single_use_passes_iff_example :
    (token : String) × (response : Option StepUp.Response) × (header_token (some " 123 ")
      ≡ some token)
    × (spend (StepUp.request spender token "ann" "safe.retire" "safe-1") 5 ≡ (response, 6))
    × Consumes response
single_use_passes_iff_example =
    (single_use_passes_iff spend spender (some " 123 ") "ann" "safe.retire" "safe-1" 5 6).0 passes
  where
    passes :
        require_single_use_step_up
          (consumer spend spender)
          (some " 123 ")
          "ann"
          "safe.retire"
          "safe-1"
          5
        ≡ (ok tt, 6)
    passes =
        unfold require_single_use_step_up header_token trim is_empty trim_start_matches
          trim_end_matches is_whitespace consume read_response says_consumed get in
        refl

require_single_use-IsChecked_example :
    let (answer, w') =
      require_single_use_step_up (consumer spend spender) none "ann" "safe.retire" "safe-1" 5 in
    IsChecked (consumer spend spender) none "ann" "safe.retire" "safe-1" 5 answer w'
require_single_use-IsChecked_example =
    require_single_use-IsChecked (consumer spend spender) none "ann" "safe.retire" "safe-1" 5
