-- ===== src/Jwks/Client/System/Age.antt =====
-- rust/src/jwks.rs under concurrency: how a call gets a key, and how old that key is.
use maxgame_admin_guard.Base.{ℕ, ◌+◌, ◌≤◌, String, ◌≡◌, refl, ap, some, ok, err, arith}
use maxgame_admin_guard.Error.{GuardResult}
use maxgame_admin_guard.Breaker.{RequestPermit}
use maxgame_admin_guard.Jwks.{AdminJwksClientConfig, KeyCrates, KeySet}
use maxgame_admin_guard.Jwks.Client.{
  AdminJwksClient, answered, new, claim, commit, fresh_key, answer_from_cache,
}
use maxgame_admin_guard.Jwks.Client.Served.{
  IsServed, fresh_key-IsServed, claim-IsServed, answer_from_cache-IsServed, commit-fetched,
  commit-IsServed,
}
use maxgame_admin_guard.Jwks.Client.System.{System, init}
use maxgame_admin_guard.Jwks.Client.System.Progress.{Run}
use maxgame_admin_guard.Jwks.Client.System.Origin.{
  IsFetch, RunFetches, SystemIsDated, Run-IsDated, get-nil,
}

module _ {Key : Type 0} (crates : KeyCrates Key) (Published : ℕ → String → Key → Type 0)
    (config : AdminJwksClientConfig) where
  -- The key was published under the kid at a time no further back than the ceiling on the TTL
  -- and the grace window together.
  abbrev pub IsRecent : ℕ → String → Key → Type 0
  IsRecent now kid key =
      (at : ℕ) × Published at kid key
      × (at ≤ now)
      × (now ≤ at + (config.max_ttl + config.stale_grace))

  cached-IsRecent :
      (t : System Key) (kid : String) (key : Key)
      → SystemIsDated crates Published config t
      → IsServed t.client kid t.now key
      → IsRecent t.now kid key
  cached-IsRecent t kid key h (g, (at, fetched, age)) =
      let (u, l, at', ttl, cap, before, published) = h.1 kid key g in
      (
        u,
        published,
        before,
        ground (
          arith,
          cap,
          age,
          at',
          ttl,
          fetched,
          ap (λ (x : AdminJwksClientConfig). x.stale_grace) h.0,
        ),
      )

  -- The ways in which a call gets a key: the first read, the section under the write lock, the
  -- end of its own fetch, and the read after a notification.
  pub data Gives (c : AdminJwksClient Key) (kid : String) (now : ℕ) (key : Key) : Type 0 where
    first_read : fresh_key c kid now ≡ some key → Gives c kid now key
    at_claim : (claim c kid now).1 ≡ answered (ok key) → Gives c kid now key
    at_commit :
        (permit : RequestPermit) (r : GuardResult (KeySet Key × ℕ))
        → IsFetch crates Published now c.config r
        → (commit c permit kid now r).0 ≡ ok key
        → Gives c kid now key
    woken_read : answer_from_cache c kid now ≡ ok key → Gives c kid now key

  -- Under any interleaving, with futures dropped at any await: a call gets a key for its kid,
  -- fresh or stale, only if some fetch of the run brought that key under that kid, and that
  -- fetch ended no longer ago than the ceiling on the TTL and the grace window together.
  pub answers-IsRecent :
      (start : ℕ) (t : System Key) (r : Run (init config start) t)
      → RunFetches crates Published r
      → (kid : String) (key : Key) → Gives t.client kid t.now key
      → IsRecent t.now kid key
  unfolding new
  answers-IsRecent start t r f kid key gives = recent gives
    where
      dated : SystemIsDated crates Published config t
      dated = Run-IsDated crates Published config r f (refl, λ k v h. cc (h, get-nil k))

      recent : Gives t.client kid t.now key → IsRecent t.now kid key
      recent (first_read h) =
          cached-IsRecent t kid key dated (fresh_key-IsServed t.client kid t.now key h)
      recent (at_claim h) =
          cached-IsRecent t kid key dated (claim-IsServed t.client kid t.now key h)
      recent (at_commit permit (ok (keys, ttl)) (reply, b) h) = (
        t.now,
        b kid key (commit-fetched t.client kid t.now key permit keys ttl h),
        omega arith,
        omega arith,
      )
      recent (at_commit permit (err m) b h) =
          cached-IsRecent t kid key dated (commit-IsServed t.client kid t.now key permit m h)
      recent (woken_read h) =
          cached-IsRecent t kid key dated (answer_from_cache-IsServed t.client kid t.now key h)
