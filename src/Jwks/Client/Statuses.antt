-- ===== src/Jwks/Client/Statuses.antt =====
-- rust/src/jwks.rs: the statuses of `resolve_key`'s errors, with other tasks about.
use maxgame_admin_guard.Base.{
  ℕ, String, ◌≡◌, refl, ap, Option, none, some, ok, err, ok_or, ◌⊎◌, inl, inr, Option-cases, arith,
}
use maxgame_admin_guard.Error.{GuardError, GuardResult, status}
use maxgame_admin_guard.Breaker.{RequestPermit}
use maxgame_admin_guard.Jwks.{KeySet, KeyCrates, get}
use maxgame_admin_guard.Jwks.Client.{
  AdminJwksClient, Claim, answered, joined, leading, Reply, World, fresh_key, stale_key,
  answer_from_cache, floor_answer, claim, commit, read_reply, lead, proceed, resolve_key,
}
use maxgame_admin_guard.Jwks.Client.Laws.{read_reply-unavailable}

-- An error blames the token or an outage.
abbrev pub Blames : GuardError → Type 0
Blames e = (status e ≡ 401) ⊎ (status e ≡ 503)

ok_or-Blames :
    {A : Type 0} (o : Option A) (d e : GuardError) → Blames d → ok_or o d ≡ err e → Blames e
unfolding status
ok_or-Blames none d e b h = ground (arith, b, h)
ok_or-Blames (some a) d e b h = cc h

module _ {Key : Type 0} (c : AdminJwksClient Key) (kid : String) (now : ℕ) (e : GuardError) where
  answer_from_cache-Blames : answer_from_cache c kid now ≡ err e → Blames e
  unfolding answer_from_cache status
  answer_from_cache-Blames h = ground (arith, h)

  floor_answer-Blames : floor_answer c kid now ≡ err e → Blames e
  unfolding floor_answer status
  floor_answer-Blames h = ground (arith, h)

  claim-Blames : (claim c kid now).1 ≡ answered (err e) → Blames e
  unfolding claim floor_answer status
  claim-Blames h = ground (arith, h)

  commit-Blames :
      (permit : RequestPermit) (r : GuardResult (KeySet Key × ℕ))
      → ((d : GuardError) → r ≡ err d → status d ≡ 503)
      → (commit c permit kid now r).0 ≡ err e
      → Blames e
  unfolding commit status
  commit-Blames permit (ok (keys, ttl)) u h = ok_or-Blames (get kid keys) _ e (inl refl) h
  commit-Blames permit (err d) u h = ok_or-Blames (stale_key c kid now) d e (inr (u d refl)) h

module _ {Key : Type 0} (crates : KeyCrates Key) {Net : Type 0} (now : Net → ℕ)
    (send : String → ℕ → Net → Option Reply × Net) (settled : World Key Net → World Key Net) where
  proceed-Blames :
      (kid : String) (net : Net) (c : AdminJwksClient Key) (a : Claim Key) (e : GuardError)
      → ((d : GuardError) → a ≡ answered (err d) → Blames d)
      → (proceed crates now send settled kid net (c, a)).0 ≡ err e
      → Blames e
  unfolding lead
  proceed-Blames kid net c (answered r) e b h = b e (ap answered h)
  proceed-Blames kid net c joined e b h =
      let w = settled (record { client = c; net = net }) in
      answer_from_cache-Blames w.client kid (now w.net) e h
  proceed-Blames kid net c (leading permit) e b h =
      let (reply, net') = send c.config.jwks_url c.config.http_timeout net in
      commit-Blames c kid (now net') e permit (read_reply crates c.config reply)
        (read_reply-unavailable crates c.config reply) h

  -- Whatever the state of the client and whatever the other tasks do meanwhile, an error is a 401
  -- or a 503.
  pub resolve_key-Blames :
      (kid : String) (w : World Key Net) (e : GuardError)
      → (resolve_key crates now send settled kid w).0 ≡ err e
      → Blames e
  unfolding resolve_key
  resolve_key-Blames kid w e h = elim (Option-cases (fresh_key w.client kid (now w.net))) [
    | inr (key, f) ↦ cc (rw (resolve_key, f) at h)
    | inl f ↦
        proceed-Blames kid w.net (claim w.client kid (now w.net)).0
          (claim w.client kid (now w.net)).1 e (λ d a. claim-Blames w.client kid (now w.net) d a)
          (rw (resolve_key, f) at h)
  ]
