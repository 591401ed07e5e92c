-- ===== src/StepUp/Laws.antt =====
-- rust/src/step_up.rs: when a step-up check passes, and what each refusal says.
use maxgame_admin_guard.Base.{
  String, ◌≡◌, ◌↔◌, refl, ap, ◌∙◌, Bool, true, false, Option, none, some, Result, ok, err, arith,
}
use maxgame_admin_guard.Error.{GuardError, GuardResult, status}
use maxgame_admin_guard.Json.{Value}
use maxgame_admin_guard.Introspect.Client.{is_success}
use maxgame_admin_guard.StepUp.{
  StepUpError, required, unavailable_consume, StepUpConsumer, header_token, outcome, spend,
  require_single_use_step_up, StepUpConsumeClient, Request, Response, request, says_consumed,
  read_response, consume, consumer, single_use,
}

-- A response that the client takes for a spent token.
pub record Consumes (response : Option Response) : Type 0 where
  pub r : Response
  pub body : Value
  pub arrives : response ≡ some r
  pub is_2xx : is_success r.status ≡ true
  pub parses : r.body ≡ some body
  pub says : says_consumed body ≡ true

-- The client says that a token was spent exactly if the response is a success whose body says
-- `consumed: true`, and that it was not exactly for a 409; every other reply is a 503.
pub read_response_iff :
    (response : Option Response)
    → (read_response response ≡ ok true ↔ Consumes response)
      × (read_response response ≡ ok false
          ↔ (r : Response) × (response ≡ some r) × (r.status ≡ 409))
      × ((e : GuardError) → read_response response ≡ err e → status e ≡ 503)
unfolding read_response status
read_response_iff none = ((λ h. cc, from_none), (λ h. cc, λ (q, e, s). cc), λ e h. ground arith)
  where
    from_none : Consumes none → read_response none ≡ ok true
    from_none c = cc c.arrives
read_response_iff (some r) = ((body r.body refl, from), (to, from₀), λ e h. ground arith)
  where
    body : (o : Option Value) → r.body ≡ o → read_response (some r) ≡ ok true → Consumes (some r)
    body none e h = ground arith
    body (some v) e h = record {
      r = r;
      body = v;
      arrives = refl;
      is_2xx = ground arith;
      parses = e;
      says = ground arith;
    }

    from : Consumes (some r) → read_response (some r) ≡ ok true
    from c = ground (arith, c.arrives, c.is_2xx, c.parses, c.says)

    to : read_response (some r) ≡ ok false → (q : Response) × (some r ≡ some q) × (q.status ≡ 409)
    to h = (r, refl, ground arith)

    from₀ :
        (q : Response) × (some r ≡ some q) × (q.status ≡ 409) → read_response (some r) ≡ ok false
    from₀ (q, e, s) = ground (arith, e, s)

module _ {W : Type 0} (consumer : StepUpConsumer W) where
  -- What a single-use check makes of the header and of the consumer's answer.
  pub data IsChecked (header : Option String) (admin_id action resource : String) (w : W)
      : Result StepUpError (Unit {0}) → W → Type 0 where
    no_token :
        (detail : String)
        → header_token header ≡ none
        → IsChecked header admin_id action resource w
            (err (required single_use action resource detail))
            w
    spent :
        (token : String) (w' : W)
        → header_token header ≡ some token
        → consumer.consume token admin_id action resource w ≡ (ok true, w')
        → IsChecked header admin_id action resource w (ok tt) w'
    rejected :
        (token detail : String) (w' : W)
        → header_token header ≡ some token
        → consumer.consume token admin_id action resource w ≡ (ok false, w')
        → IsChecked header admin_id action resource w
            (err (required single_use action resource detail))
            w'
    failed :
        (token detail : String) (e : GuardError) (w' : W)
        → header_token header ≡ some token
        → consumer.consume token admin_id action resource w ≡ (err e, w')
        → IsChecked header admin_id action resource w (err (unavailable_consume detail)) w'

  -- A single-use check passes only by spending the header's token for this very admin, action and
  -- resource. Without a token nothing is spent; a rejected token asks for another, and a consumer's
  -- error is an outage, never a pass.
  pub require_single_use-IsChecked :
      (header : Option String) (admin_id action resource : String) (w : W)
      → let (answer, w') = require_single_use_step_up consumer header admin_id action resource w in
        IsChecked header admin_id action resource w answer w'
  unfolding require_single_use_step_up
  require_single_use-IsChecked header admin_id action resource w = headed (header_token header) refl
    where
      answered :
          (token : String) (r : GuardResult Bool × W)
          → header_token header ≡ some token
          → consumer.consume token admin_id action resource w ≡ r
          → IsChecked header admin_id action resource w
              (outcome consumer action resource r).0
              (outcome consumer action resource r).1
      answered token (ok true, w') h c = spent token w' h c
      answered token (ok false, w') h c = rejected token _ w' h c
      answered token (err e, w') h c = failed token _ e w' h c

      headed :
          (o : Option String)
          → header_token header ≡ o
          → IsChecked header admin_id action resource w
              (spend consumer o admin_id action resource w).0
              (spend consumer o admin_id action resource w).1
      headed none h = no_token _ h
      headed (some token) h =
          answered token (consumer.consume token admin_id action resource w) h refl

module _ {Net : Type 0} (post : Request → Net → Option Response × Net) where
  -- With the HTTP client behind it, a single-use check passes exactly if the header holds a token
  -- and the endpoint answers the one POST for that token, admin, action and resource with a
  -- consumed token; the POST then is all that happened.
  pub single_use_passes_iff :
      (c : StepUpConsumeClient) (header : Option String) (admin_id action resource : String)
      (net net' : Net)
      → (require_single_use_step_up (consumer post c) header admin_id action resource net
          ≡ (ok tt, net'))
        ↔ ((token : String) × (response : Option Response) × (header_token header ≡ some token)
            × (post (request c token admin_id action resource) net ≡ (response, net'))
            × Consumes response)
  unfolding require_single_use_step_up consume
  single_use_passes_iff c header admin_id action resource net net' =
      (got (header_token header) refl, given)
    where
      Passed : Type 0
      Passed =
          (token : String) × (response : Option Response) × (header_token header ≡ some token)
          × (post (request c token admin_id action resource) net ≡ (response, net'))
          × Consumes response

      verdict :
          (token : String) (response : Option Response) (after : Net) (r : GuardResult Bool)
          → header_token header ≡ some token
          → post (request c token admin_id action resource) net ≡ (response, after)
          → read_response response ≡ r
          → outcome (consumer post c) action resource (r, after) ≡ (ok tt, net')
          → Passed
      verdict token response after (ok true) h p v k = (
        token,
        response,
        h,
        p ∙ ap (λ (x : Net). (response, x)) (cc k),
        (read_response_iff response).0.0 v,
      )
      verdict token response after (ok false) h p v k = cc k
      verdict token response after (err e) h p v k = cc k

      got :
          (o : Option String)
          → header_token header ≡ o
          → spend (consumer post c) o admin_id action resource net ≡ (ok tt, net')
          → Passed
      got none h k = cc k
      got (some token) h k =
          let (response, after) = post (request c token admin_id action resource) net in
          verdict token response after (read_response response) h refl refl k

      given :
          Passed
          → require_single_use_step_up (consumer post c) header admin_id action resource net
            ≡ (ok tt, net')
      given (token, response, h, p, q) = rw (h, p, (read_response_iff response).0.1 q) refl
