-- ===== src/Access/Grants.antt =====
-- rust/src/access.rs: what `normalize_site_access` makes of a claim, told without the code.
use maxgame_admin_guard.Base.{
  String, ◌≡◌, ◌↔◌, refl, sym, ap, subst, ◌∙◌, ◌⊎◌, Bool, true, false, Option, none, some, List,
  map, arith,
}
use maxgame_admin_guard.Json.{
  Value, null, bool, number, string, array, object, Items, nil, cons, Entries, end, entry, Serde,
  get, items, keys,
}
use maxgame_admin_guard.Access.{
  lookup, contains, sort, dedup, grant_text, raw_features, normalize_site_access,
}
use maxgame_admin_guard.Access.Sort.{
  IsStrict, dedup-sort-IsStrict, contains-dedup-sort, IsStrict-eq,
}
use maxgame_admin_guard.Access.Laws.{
  Occurs, contains_iff, IsMap, normal, features_at, normalize-lookup,
}

-- What a claim says of a site: nothing, if it is not an object.
abbrev pub site_value : Value → String → Option Value
site_value (object es) site = get site es
site_value _ site = none

-- The claim's keys are distinct, where it has any.
abbrev pub HasKeys : Value → Type 0
HasKeys (object es) = IsMap es
HasKeys _ = Unit

-- A site is listed by an array or an object, and by nothing else.
abbrev pub is_listing : Option Value → Bool
is_listing none = false
is_listing (some (array vs)) = true
is_listing (some (object es)) = true
is_listing (some _) = false

abbrev pub HasKey : Entries → String → Type 0
HasKey end f = ⊥
HasKey (entry k v es) f = (k ≡ f) ⊎ HasKey es f

module _ (serde : Serde) where
  -- A text is itself, and anything else is as it is printed.
  abbrev pub Says : Value → String → Type 0
  Says (string s) f = s ≡ f
  Says v f = serde.to_string v ≡ f

  abbrev pub HasItem : Items → String → Type 0
  HasItem nil f = ⊥
  HasItem (cons v vs) f = Says v f ⊎ HasItem vs f

  -- The items of an array, or the keys of an object.
  abbrev pub GrantsAt : Option Value → String → Type 0
  GrantsAt (some (array vs)) f = HasItem vs f
  GrantsAt (some (object es)) f = HasKey es f
  GrantsAt _ f = ⊥

  -- What the normalised claim has at a site: an entry exactly if the site is listed, whose features
  -- are strictly ascending and exactly those that are granted there.
  pub data NormalAt (v : Option Value) (o : Option (List String)) : Type 0 where
    unlisted : is_listing v ≡ false → o ≡ none → NormalAt v o
    listed :
        (features : List String)
        → is_listing v ≡ true
        → o ≡ some features
        → IsStrict features
        → ((f : String) → Occurs f features ↔ GrantsAt v f)
        → NormalAt v o

  Says-iff : (v : Value) (f : String) → (grant_text serde v ≡ f) ↔ Says v f
  unfolding grant_text
  Says-iff null f = (λ h. h, λ h. h)
  Says-iff (bool b) f = (λ h. h, λ h. h)
  Says-iff (number n) f = (λ h. h, λ h. h)
  Says-iff (string s) f = (λ h. h, λ h. h)
  Says-iff (array vs) f = (λ h. h, λ h. h)
  Says-iff (object es) f = (λ h. h, λ h. h)

  HasItem-iff :
      (vs : Items) (f : String) → Occurs f (map (grant_text serde) (items vs)) ↔ HasItem vs f
  HasItem-iff nil f = (λ h. h, λ h. h)
  HasItem-iff (cons v vs) f = ground (arith, Says-iff v f, HasItem-iff vs f)

  HasKey-iff : (es : Entries) (f : String) → Occurs f (keys es) ↔ HasKey es f
  HasKey-iff end f = (λ h. h, λ h. h)
  HasKey-iff (entry k v es) f = ground (arith, HasKey-iff es f)

  Occurs-dedup-sort : (xs : List String) (f : String) → Occurs f (dedup (sort xs)) ↔ Occurs f xs
  Occurs-dedup-sort xs f =
      ground (arith, contains_iff f (dedup (sort xs)), contains_iff f xs, contains-dedup-sort f xs)

  raw-listed :
      (v : Option Value) (xs : List String)
      → is_listing v ≡ true
      → ((f : String) → Occurs f xs ↔ GrantsAt v f)
      → NormalAt v (some (dedup (sort xs)))
  raw-listed v xs l h =
      listed (dedup (sort xs)) l refl (dedup-sort-IsStrict xs)
        (λ f. ground (arith, Occurs-dedup-sort xs f, h f))

  normal-NormalAt : (v : Option Value) → NormalAt v (normal (features_at serde v))
  unfolding raw_features
  normal-NormalAt none = unlisted refl refl
  normal-NormalAt (some null) = unlisted refl refl
  normal-NormalAt (some (bool b)) = unlisted refl refl
  normal-NormalAt (some (number n)) = unlisted refl refl
  normal-NormalAt (some (string s)) = unlisted refl refl
  normal-NormalAt (some (array vs)) = raw-listed (some (array vs)) _ refl (HasItem-iff vs)
  normal-NormalAt (some (object es)) = raw-listed (some (object es)) _ refl (HasKey-iff es)

  -- Whatever the claim, its normalised map has an entry at a site exactly if the claim is an object
  -- whose value there is an array or an object. The entry's features are strictly ascending, and are
  -- exactly the array's items, those that are no texts as they are printed, or the object's keys.
  pub normalize-NormalAt :
      (claim : Value) (site : String)
      → HasKeys claim
      → NormalAt (site_value claim site) (lookup site (normalize_site_access serde claim))
  unfolding normalize_site_access lookup
  normalize-NormalAt (object es) site u =
      subst (NormalAt (get site es)) (sym (normalize-lookup serde es site u))
        (normal-NormalAt (get site es))
  normalize-NormalAt null site u = unlisted refl refl
  normalize-NormalAt (bool b) site u = unlisted refl refl
  normalize-NormalAt (number n) site u = unlisted refl refl
  normalize-NormalAt (string s) site u = unlisted refl refl
  normalize-NormalAt (array vs) site u = unlisted refl refl

  -- Both or neither list the site, and they grant the same there.
  pub record SameAt (v w : Option Value) : Type 0 where
    pub listing : is_listing v ≡ is_listing w
    pub grants : (f : String) → GrantsAt v f ↔ GrantsAt w f

  unlisted-grants : (v : Option Value) (f : String) → is_listing v ≡ false → GrantsAt v f → ⊥
  unlisted-grants none f l g = g
  unlisted-grants (some null) f l g = g
  unlisted-grants (some (bool b)) f l g = g
  unlisted-grants (some (number n)) f l g = g
  unlisted-grants (some (string s)) f l g = g
  unlisted-grants (some (array vs)) f l g = cc l
  unlisted-grants (some (object es)) f l g = cc l

  NormalAt-SameAt :
      (v w : Option Value) (o p : Option (List String))
      → NormalAt v o
      → NormalAt w p
      → (o ≡ p) ↔ SameAt v w
  NormalAt-SameAt v w o p (unlisted l e) (unlisted m d) = (
    λ h. record {
      listing = cc (l, m);
      grants = λ f. (λ g. absurd (unlisted-grants v f l g), λ g. absurd (unlisted-grants w f m g));
    },
    λ s. cc (e, d),
  )
  NormalAt-SameAt v w o p (unlisted l e) (listed ys m d t g) =
      (λ h. absurd (cc (e, d, h)), λ s. absurd (cc (l, m, s.listing)))
  NormalAt-SameAt v w o p (listed xs l e t g) (unlisted m d) =
      (λ h. absurd (cc (e, d, h)), λ s. absurd (cc (l, m, s.listing)))
  NormalAt-SameAt v w o p (listed xs l e t g) (listed ys m d u k) = (
    λ h. record {
      listing = cc (l, m);
      grants = λ f.
          let same : xs ≡ ys = cc (e, d, h) in
          ground
            (arith, g f, k f, ap (λ zs. contains f zs) same, contains_iff f xs, contains_iff f ys);
    },
    λ s. e ∙ ap some (IsStrict-eq xs ys t u (λ f. same_test f s)) ∙ sym d,
  )
    where
      same_test : (f : String) → SameAt v w → contains f xs ≡ contains f ys
      same_test f s = ground (arith, g f, k f, s.grants f, contains_iff f xs, contains_iff f ys)

  -- Two claims normalise to the same features at each site exactly if at each site both list
  -- features, and the same, or neither does: in either shape, in any order, with any duplicates.
  pub normalize_same_iff :
      (v w : Value)
      → HasKeys v
      → HasKeys w
      → ((site : String)
          → lookup site (normalize_site_access serde v)
            ≡ lookup site (normalize_site_access serde w))
        ↔ ((site : String) → SameAt (site_value v site) (site_value w site))
  normalize_same_iff v w hv hw = (λ h site. (at site).0 (h site), λ h site. (at site).1 (h site))
    where
      at :
          (site : String)
          → (lookup site (normalize_site_access serde v)
              ≡ lookup site (normalize_site_access serde w))
            ↔ SameAt (site_value v site) (site_value w site)
      at site =
          NormalAt-SameAt _ _ _ _ (normalize-NormalAt v site hv) (normalize-NormalAt w site hw)
