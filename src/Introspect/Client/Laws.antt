-- ===== src/Introspect/Client/Laws.antt =====
-- rust/src/introspect_client.rs: the client's failures, its calls of the network, and its breaker.
use maxgame_admin_guard.Base.{
  ℕ, String, ◌≡◌, ◌≢◌, ◌↔◌, ◌⊎◌, inl, inr, refl, ap₂, Bool, true, false, Option, none, some, ok,
  err, arith,
}
use maxgame_admin_guard.Error.{GuardError, status}
use maxgame_admin_guard.Breaker.{CircuitBreaker, RequestPermit, allow_request}
use maxgame_admin_guard.Breaker.Permit
use maxgame_admin_guard.Breaker.Calls.{Outcome, answered, failed, report, finish, call}
use maxgame_admin_guard.Introspect.{IntrospectionBody}
use maxgame_admin_guard.Introspect.Client.{
  Response, Request, is_success, request, settle_reply, World, fetch_with, fetch,
}

-- A reply that the client can read: a 2xx with an introspection body.
abbrev pub Answers : Option Response → IntrospectionBody → Type 0
Answers none body = ⊥
Answers (some r) body = (is_success r.status ≡ true) × (r.body ≡ some body)

abbrev outcome_of_body : Option IntrospectionBody → Outcome
outcome_of_body none = failed
outcome_of_body (some body) = answered

abbrev pub outcome_of : Option Response → Outcome
outcome_of none = failed
outcome_of (some r) = elim (is_success r.status) [ true ↦ outcome_of_body r.body | false ↦ failed ]

settle-report :
    (b : CircuitBreaker) (p : RequestPermit) (n : ℕ) (reply : Option Response)
    → ((settle_reply b p n reply).1 ≡ (report (outcome_of reply) b p n).0)
      × ((settle_reply b p n reply).2 ≡ (report (outcome_of reply) b p n).1)
unfolding settle_reply report
settle-report b p n none = (refl, refl)
settle-report b p n (some r) = settle (is_success r.status) r.body refl refl
  where
    settle :
        (success : Bool) (body : Option IntrospectionBody)
        → is_success r.status ≡ success
        → r.body ≡ body
        → ((settle_reply b p n (some r)).1 ≡ (report (outcome_of (some r)) b p n).0)
          × ((settle_reply b p n (some r)).2 ≡ (report (outcome_of (some r)) b p n).1)
    settle false body e f = ground arith
    settle true none e f = ground arith
    settle true (some body) e f = ground arith

settle-answer :
    (b : CircuitBreaker) (p : RequestPermit) (n : ℕ) (reply : Option Response)
    (body : IntrospectionBody)
    → ((settle_reply b p n reply).0 ≡ ok body) ↔ Answers reply body
unfolding settle_reply
settle-answer b p n none body = ground arith
settle-answer b p n (some r) body = settle r.body refl
  where
    settle :
        (parsed : Option IntrospectionBody)
        → r.body ≡ parsed
        → ((settle_reply b p n (some r)).0 ≡ ok body) ↔ Answers (some r) body
    settle none f = ground arith
    settle (some body') f = ground arith

settle-unavailable :
    (b : CircuitBreaker) (p : RequestPermit) (n : ℕ) (reply : Option Response) (e : GuardError)
    → (settle_reply b p n reply).0 ≡ err e
    → status e ≡ 503
unfolding settle_reply status
settle-unavailable b p n none e h = ground arith
settle-unavailable b p n (some r) e h = settle r.body refl
  where
    settle : (parsed : Option IntrospectionBody) → r.body ≡ parsed → status e ≡ 503
    settle none f = ground arith
    settle (some body) f = ground arith

module _ {Net : Type 0} (now : Net → ℕ) (post : Request → Net → Option Response × Net) where
  -- What the network does with the client's request.
  abbrev pub sent : String → World Net → Option Response × Net
  sent token w = post (request w.client token) w.net

  -- A call refused by the breaker leaves the network alone and answers 503; one that goes out posts
  -- exactly once, and answers with a body exactly if the reply is a 2xx that holds it.
  pub fetch_cases :
      (token : String) (w : World Net)
      → (((allow_request w.client.breaker (now w.net)).1 ≡ none)
          × ((fetch now post token w).1.net ≡ w.net)
          × ((body : IntrospectionBody) → (fetch now post token w).0 ≢ ok body))
        ⊎ (((fetch now post token w).1.net ≡ (sent token w).1)
            × ((body : IntrospectionBody)
                → ((fetch now post token w).0 ≡ ok body) ↔ Answers (sent token w).0 body))
  unfolding fetch
  fetch_cases token w = cases (allow_request w.client.breaker (now w.net)) refl
    where
      cases :
          (asked : CircuitBreaker × Option RequestPermit)
          → allow_request w.client.breaker (now w.net) ≡ asked
          → ((asked.1 ≡ none)
              × ((fetch_with now post token w asked).1.net ≡ w.net)
              × ((body : IntrospectionBody) → (fetch_with now post token w asked).0 ≢ ok body))
            ⊎ (((fetch_with now post token w asked).1.net ≡ (sent token w).1)
                × ((body : IntrospectionBody)
                    → ((fetch_with now post token w asked).0 ≡ ok body)
                      ↔ Answers (sent token w).0 body))
      cases (b, none) e = inl (refl, refl, λ body. cc)
      cases (b, some p) e = inr (refl, settle-answer b p _ _)

  -- Whatever goes wrong in a call is a 503.
  pub fetch-unavailable :
      (token : String) (w : World Net) (e : GuardError)
      → (fetch now post token w).0 ≡ err e
      → status e ≡ 503
  unfolding fetch status
  fetch-unavailable token w e h = cases (allow_request w.client.breaker (now w.net)) h
    where
      cases :
          (asked : CircuitBreaker × Option RequestPermit)
          → (fetch_with now post token w asked).0 ≡ err e
          → status e ≡ 503
      cases (b, none) h = ground arith
      cases (b, some p) h = settle-unavailable b p (now (sent token w).1) (sent token w).0 e h

  -- The breaker takes each call as one attempt, which succeeds exactly if the reply was a 2xx with
  -- a body, whatever its verdict.
  pub fetch-call :
      (token : String) (w : World Net)
      → (fetch now post token w).1.client.breaker
        ≡ call w.client.breaker (record {
          asked = now w.net;
          done = now (sent token w).1;
          outcome = outcome_of (sent token w).0;
        })
  unfolding fetch call
  fetch-call token w = cases (allow_request w.client.breaker (now w.net))
    where
      cases :
          (asked : CircuitBreaker × Option RequestPermit)
          → (fetch_with now post token w asked).1.client.breaker
            ≡ finish (outcome_of (sent token w).0) (now (sent token w).1) asked
      cases (b, none) = refl
      cases (b, some p) =
          let (bs, ps) = settle-report b p (now (sent token w).1) (sent token w).0 in
          ap₂ Permit.drop bs ps
