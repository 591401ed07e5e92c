-- ===== src/Introspect/Client/Verdicts.antt =====
-- rust/src/introspect_client.rs: the two trait methods, and runs of calls.
use maxgame_admin_guard.Base.{
  ℕ, String, ◌≡◌, ◌≢◌, refl, Option, none, some, List, [], ◌∷◌, Result, ok, err, and_then, arith,
}
use maxgame_admin_guard.Base.Int.{ℤ}
use maxgame_admin_guard.Error.{GuardError}
use maxgame_admin_guard.Json.{Serde}
use maxgame_admin_guard.Breaker.Calls.{failed, IsClosed, call-answered}
use maxgame_admin_guard.Introspect.{
  AdminIntrospection, active, inactive, IntrospectionBody, elevated_until, from_body,
}
use maxgame_admin_guard.Introspect.Client.{
  Response, Request, World, fetch, elevation_of, with_elevation, introspect,
  introspect_with_step_up,
}
use maxgame_admin_guard.Introspect.Client.Laws.{Answers, sent, outcome_of, fetch-call}

module _ {Net : Type 0} (now : Net → ℕ) (post : Request → Net → Option Response × Net)
    (serde : Serde) where
  abbrev Fetched : Type 0
  Fetched = Result GuardError IntrospectionBody × World Net

  abbrev judged : Fetched → Result GuardError AdminIntrospection × World Net
  judged r = and_then r (λ body w'. (ok (from_body serde body), w'))

  abbrev elevated : Fetched → Result GuardError (AdminIntrospection × Option ℤ) × World Net
  elevated r = and_then r (λ body w'. (ok (with_elevation now post serde body), w'))

  abbrev pub forget :
      Result GuardError (AdminIntrospection × Option ℤ) × World Net
      → Result GuardError AdminIntrospection × World Net
  forget (ok (verdict, until), w) = (ok verdict, w)
  forget (err e, w) = (err e, w)

  -- Both trait methods make the same call, and answer with the same verdict or the same error.
  pub same_verdict :
      (token : String) (w : World Net)
      → forget (introspect_with_step_up now post serde token w) ≡ introspect now post serde token w
  unfolding introspect introspect_with_step_up
  same_verdict token w = cases (fetch now post token w)
    where
      cases : (r : Fetched) → forget (elevated r) ≡ judged r
      cases (ok body, w') = refl
      cases (err e, w') = refl

  elevation-not_inactive :
      (v : AdminIntrospection) (until : Option ℤ) (t : ℤ) (reason : String)
      → elevation_of now post serde v until ≡ some t
      → v ≢ inactive reason
  elevation-not_inactive (active i r a) until t reason h = λ e. cc
  elevation-not_inactive (inactive i) until t reason h = cc

  -- An elevation comes only with an active verdict.
  elevation-is_active :
      (token : String) (w w' : World Net) (v : AdminIntrospection) (t : ℤ) (reason : String)
      → introspect_with_step_up now post serde token w ≡ (ok (v, some t), w')
      → v ≢ inactive reason
  unfolding introspect_with_step_up
  elevation-is_active token w w' v t reason h = cases (fetch now post token w) h
    where
      cases : (r : Fetched) → elevated r ≡ (ok (v, some t), w') → v ≢ inactive reason
      cases (ok body, w'') h = ground (
        arith,
        elevation-not_inactive (from_body serde body) (elevated_until serde body) t reason,
      )
      cases (err e, w'') h = cc

  -- The client after a list of calls, one after another.
  unfoldable pub introspect_all : List String → World Net → World Net
  introspect_all [] w = w
  introspect_all (token ∷ tokens) w = introspect_all tokens (introspect now post serde token w).1

  introspect-breaker :
      (token : String) (w : World Net)
      → (introspect now post serde token w).1 ≡ (fetch now post token w).1
  unfolding introspect
  introspect-breaker token w = cases (fetch now post token w)
    where
      cases : (r : Fetched) → (judged r).1 ≡ r.1
      cases (ok body, w') = refl
      cases (err e, w') = refl

  readable :
      (reply : Option Response) (body : IntrospectionBody)
      → Answers reply body
      → outcome_of reply ≢ failed
  readable none body a = absurd a
  readable (some r) body a = ground arith

  -- While the IdP answers every request with a readable 2xx, whatever verdicts it gives, no run of
  -- calls opens a closed breaker.
  pub verdicts_never_open :
      (tokens : List String) (w : World Net)
      → ((r : Request) (net : Net) → (body : IntrospectionBody) × Answers (post r net).0 body)
      → IsClosed w.client.breaker
      → IsClosed (introspect_all tokens w).client.breaker
  unfolding introspect_all introspect
  verdicts_never_open [] w h c = c
  verdicts_never_open (token ∷ tokens) w h c =
      verdicts_never_open tokens (introspect now post serde token w).1 h (
        rw (introspect-breaker token w, fetch-call now post token w)
          (call-answered w.client.breaker _ c (readable (sent now post token w).0 _ (h _ _).1)))
