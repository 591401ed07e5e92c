-- ===== src/AxumExt/Laws.antt =====
-- rust/src/axum_ext.rs: the header's token, and what the middleware lets through to the handler.
use maxgame_admin_guard.Base.{
  ℕ, String, ◌≡◌, ◌↔◌, refl, sym, ap, ◌∙◌, false, some, Result, ok, err, arith, and_then-eq-ok,
  and_then-eq-err, ok_or-eq-ok, inl, inr,
}
use maxgame_admin_guard.Base.Text.{◌<>◌, trim, is_empty, split_once-append}
use maxgame_admin_guard.Error.{GuardError}
use maxgame_admin_guard.Access.{AdminIdentity}
use maxgame_admin_guard.Token.{Crates}
use maxgame_admin_guard.Guard.{AdminGuard, authorize}
use maxgame_admin_guard.AxumExt.{
  bearer_token, Request, requirement, run_next, require_admin, from_request_parts,
}

-- A header of the scheme and a token that is not empty and has no outer white space gives that token.
pub bearer_token-Bearer :
    (token : String)
    → trim token ≡ token
    → is_empty token ≡ false
    → bearer_token (some ("Bearer " <> token)) ≡ some token
unfolding bearer_token
bearer_token-Bearer token t e = rw (split_once-append "B" "earer " token) (ground (arith, t, e))

module _ {W Key Answer : Type 0} (crates : Crates Key) (unix_seconds : W → ℕ)
    (next : Request → W → Answer × W) where
  -- The response is the handler's exactly if the guard authorizes the header's token for the
  -- route's site and feature; the handler then runs once, in the world that the guard left, on the
  -- same request with the authorized identity, which its extractor returns.
  pub require_admin_iff :
      (guard : AdminGuard W Key) (site feature : String) (request : Request) (w w' : W)
      (answer : Answer)
      → (require_admin crates unix_seconds next guard site feature request w ≡ (ok answer, w')) ↔ (
          (identity : AdminIdentity) × (after : W) × (seen : Request) × (authorize crates
              unix_seconds guard request.method
              (bearer_token request.authorization)
              (some (requirement site feature))
              w
            ≡ (ok identity, after))
          × (next seen after ≡ (answer, w'))
          × (seen.method ≡ request.method)
          × (seen.authorization ≡ request.authorization)
          × (from_request_parts seen ≡ ok identity))
  unfolding require_admin from_request_parts
  require_admin_iff guard site feature request w w' answer = (got, given)
    where
      Ran : Type 0
      Ran =
          (identity : AdminIdentity) × (after : W) × (seen : Request) × (authorize crates
              unix_seconds guard request.method (bearer_token request.authorization)
              (some (requirement site feature)) w
            ≡ (ok identity, after))
          × (next seen after ≡ (answer, w'))
          × (seen.method ≡ request.method)
          × (seen.authorization ≡ request.authorization)
          × (from_request_parts seen ≡ ok identity)

      got :
          require_admin crates unix_seconds next guard site feature request w ≡ (ok answer, w')
          → Ran
      got h =
          let (identity, after, a, n) = and_then-eq-ok _ (run_next next request) answer w' h in
          (
            identity,
            after,
            record request { extension = some identity },
            a,
            ground (arith, n),
            refl,
            refl,
            refl,
          )

      given :
          Ran
          → require_admin crates unix_seconds next guard site feature request w ≡ (ok answer, w')
      given (identity, after, seen, a, n, m, q, f) =
          rw a (ap (λ (r : Answer × W). shown r) (ap (λ x. next x after) (sym same) ∙ n))
        where
          shown : Answer × W → Result GuardError Answer × W
          shown (x, v) = (ok x, v)

          same : seen ≡ record request { extension = some identity }
          same = ground (arith, m, q, ok_or-eq-ok seen.extension _ f)

  -- A request that the guard does not authorize never reaches the handler: the error and the world
  -- are the guard's, with any other handler as well.
  require_admin-refuses :
      (other : Request → W → Answer × W) (guard : AdminGuard W Key) (site feature : String)
      (request : Request) (w w' : W) (e : GuardError)
      → require_admin crates unix_seconds next guard site feature request w ≡ (err e, w')
      → (authorize crates unix_seconds guard request.method
            (bearer_token request.authorization)
            (some (requirement site feature))
            w
          ≡ (err e, w'))
        × (require_admin crates unix_seconds other guard site feature request w ≡ (err e, w'))
  unfolding require_admin
  require_admin-refuses other guard site feature request w w' e h =
      elim (and_then-eq-err _ (run_next next request) e w' h) [
        | inl failed ↦ (failed, rw failed refl)
        | inr (identity, after, a, n) ↦ cc n
      ]
