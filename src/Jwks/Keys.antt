-- ===== src/Jwks/Keys.antt =====
-- rust/src/jwks.rs: what the loop over the response's keys builds, and when a cached key is held.
use maxgame_admin_guard.Base.{
  ℕ, ◌*◌, ◌^◌, ◌<◌, String, ◌≡◌, ◌↔◌, refl, Option, none, some, ok, err, List, [], ◌∷◌, arith,
  if◌then◌else◌, ltb,
}
use maxgame_admin_guard.Error.{GuardResult}
use maxgame_admin_guard.Base.Text.{str_eq, eq_iff, filter, parse_u64, unsigned, split}
use maxgame_admin_guard.Introspect.Client.{seconds}
use maxgame_admin_guard.Jwks.{
  KeySet, get, insert, JwksKey, JwksCache, KeyCrates, usable_entry, insert_keys, add_entry, or_else,
  unwrap_or, decode_ed25519_key, cached_and_fresh, cached_within_grace, max_age, age_directive,
  in_seconds, age_of,
}

module _ {Key : Type 0} where
  get-insert :
      (kid k : String) (key : Key) (ks : KeySet Key)
      → get kid (insert k key ks) ≡ (if str_eq k kid then some key else get kid ks)
  unfolding get insert
  get-insert kid k key [] = refl
  get-insert kid k key ((j, old) ∷ ks) =
      ground (arith, eq_iff k kid, eq_iff j k, eq_iff j kid, get-insert kid k key ks)

  -- A key that is still fresh is also held within the grace window, whatever the window.
  pub fresh-within_grace :
      (cache : JwksCache Key) (kid : String) (fallback_ttl grace now : ℕ) (key : Key)
      → unwrap_or cache.ttl fallback_ttl < 2 ^ 64 * 10 ^ 9
      → cached_and_fresh cache kid fallback_ttl now ≡ some key
      → cached_within_grace cache kid fallback_ttl grace now ≡ some key
  unfolding cached_and_fresh cached_within_grace
  fresh-within_grace cache kid fallback_ttl grace now key bound h = ground arith

module _ {Key : Type 0} (crates : KeyCrates Key) where
  -- An entry that the client can use: an Ed25519 key with a `kid` whose `x` decodes.
  pub record IsUsable (k : JwksKey) (kid : String) (key : Key) : Type 0 where
    pub is_okp : k.kty ≡ some "OKP"
    pub is_ed25519 : k.crv ≡ some "Ed25519"
    pub has_kid : k.kid ≡ some kid
    pub x : String
    pub has_x : k.x ≡ some x
    pub decodes : decode_ed25519_key crates x ≡ ok key

  -- The loop keeps an entry exactly if its type is OKP, its curve is Ed25519, its `kid` and `x` are
  -- there, and its `x` decodes to a key.
  usable_entry_iff :
      (k : JwksKey) (kid : String) (key : Key)
      → (usable_entry crates k ≡ some (kid, key)) ↔ IsUsable k kid key
  unfolding usable_entry
  usable_entry_iff k kid key = (to k.kty refl k.kid refl k.x refl k.crv refl, from)
    where
      result :
          (kty j x crv : String)
          → k.kty ≡ some kty
          → k.kid ≡ some j
          → k.x ≡ some x
          → k.crv ≡ some crv
          → (r : GuardResult Key) → decode_ed25519_key crates x ≡ r
          → usable_entry crates k ≡ some (kid, key)
          → IsUsable k kid key
      result kty j x crv a b c d (ok found) e h = record {
        is_okp = ground (arith, eq_iff kty "OKP");
        is_ed25519 = ground (arith, eq_iff crv "Ed25519");
        has_kid = ground arith;
        x = x;
        has_x = c;
        decodes = ground arith;
      }
      result kty j x crv a b c d (err m) e h = ground arith

      to :
          (t : Option String)
          → k.kty ≡ t
          → (j : Option String) → k.kid ≡ j
          → (x : Option String) → k.x ≡ x
          → (crv : Option String) → k.crv ≡ crv
          → usable_entry crates k ≡ some (kid, key)
          → IsUsable k kid key
      to (some t) a (some j) b (some x) c (some crv) d h =
          result t j x crv a b c d (decode_ed25519_key crates x) refl h
      to (some t) a (some j) b (some x) c none d h = ground arith
      to (some t) a (some j) b none c crv d h = ground arith
      to (some t) a none b x c crv d h = ground arith
      to none a j b x c crv d h = ground arith

      from : IsUsable k kid key → usable_entry crates k ≡ some (kid, key)
      from u = ground (arith, u.is_okp, u.has_kid, u.has_x, u.is_ed25519, u.decodes)

  abbrev of_kid : String → Option (String × Key) → Option Key
  of_kid kid none = none
  of_kid kid (some (j, key)) = if str_eq j kid then some key else none

  -- The last usable entry with the `kid`.
  abbrev pub last_key : String → List JwksKey → Option Key
  last_key kid [] = none
  last_key kid (k ∷ ks) = or_else (last_key kid ks) (of_kid kid (usable_entry crates k))

  insert_keys-get :
      (kid : String) (ks : List JwksKey) (acc : KeySet Key)
      → get kid (insert_keys crates ks acc) ≡ or_else (last_key kid ks) (get kid acc)
  unfolding insert_keys
  insert_keys-get kid [] acc = refl
  insert_keys-get kid (k ∷ ks) acc =
      added (usable_entry crates k) refl (λ next. insert_keys-get kid ks next)
    where
      added :
          (e : Option (String × Key))
          → usable_entry crates k ≡ e
          → ((next : KeySet Key)
              → get kid (insert_keys crates ks next) ≡ or_else (last_key kid ks) (get kid next))
          → get kid (insert_keys crates ks (add_entry crates (usable_entry crates k) acc))
            ≡ or_else (or_else (last_key kid ks) (of_kid kid (usable_entry crates k))) (get kid acc)
      added none q rest = rw q (ground (arith, rest acc))
      added (some (j, key)) q rest =
          rw q (ground (arith, rest (insert j key acc), get-insert kid j key acc))

  -- The key that a response gives for a `kid` is that of its last usable entry with the `kid`, and
  -- none if it has no such entry: an unusable entry neither hides nor spoils another.
  pub insert_keys-last :
      (kid : String) (ks : List JwksKey) → get kid (insert_keys crates ks []) ≡ last_key kid ks
  unfolding get
  insert_keys-last kid ks = ground (arith, insert_keys-get kid ks [])

-- An age that a header gives is a positive number of seconds that a `u64` holds.
pub max_age-bounds :
    (header : Option String) (ttl : ℕ)
    → max_age header ≡ some ttl
    → (n : ℕ) × (ttl ≡ seconds n) × (0 < n) × (n < 2 ^ 64)
unfolding max_age parse_u64
max_age-bounds none ttl h = cc
max_age-bounds (some value) ttl h = of_text (age_directive (split b',' value)) h
  where
    of_number :
        (u : Option ℕ)
        → in_seconds (filter (λ n. ltb 0 n) (filter (λ n. ltb n (2 ^ 64)) u)) ≡ some ttl
        → (n : ℕ) × (ttl ≡ seconds n) × (0 < n) × (n < 2 ^ 64)
    of_number none k = cc
    of_number (some n) k = (n, ground arith, ground arith, ground arith)

    of_text :
        (o : Option String)
        → in_seconds (age_of o) ≡ some ttl
        → (n : ℕ) × (ttl ≡ seconds n) × (0 < n) × (n < 2 ^ 64)
    of_text none k = cc
    of_text (some text) k = of_number (unsigned text) k
