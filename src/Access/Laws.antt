-- ===== src/Access/Laws.antt =====
-- rust/src/access.rs: what the identity's checks decide, and what normalisation promises.
use maxgame_admin_guard.Base.{
  String, ◌≡◌, ◌↔◌, refl, sym, ap, subst, ◌∙◌, ◌⊎◌, inl, inr, true, Option, none, some, List, [],
  ◌∷◌, All, arith, Bool-cases, if◌then◌else◌,
}
use maxgame_admin_guard.Base.Text.{str_eq, eq_iff}
use maxgame_admin_guard.Json.{Value, object, Entries, end, entry, Serde, get}
use maxgame_admin_guard.Access.{
  role_super_admin, SiteAccess, AdminIdentity, lookup, insert, has_site, contains, grants,
  has_feature, has_any_site_access, sort, dedup, raw_features, add_site, normalize_entries,
  normalize_site_access,
}
use maxgame_admin_guard.Access.Sort.{
  IsStrict, dedup-sort-IsStrict, contains-dedup-sort, IsStrict-eq,
}

-- A text stands in a list.
abbrev pub Occurs : String → List String → Type 0
Occurs f [] = ⊥
Occurs f (x ∷ xs) = (x ≡ f) ⊎ Occurs f xs

pub contains_iff : (f : String) (xs : List String) → (contains f xs ≡ true) ↔ Occurs f xs
contains_iff f [] = ground arith
contains_iff f (x ∷ xs) = ground (arith, eq_iff x f, contains_iff f xs)

-- The map lists the feature at the site.
abbrev pub Lists : Option (List String) → String → Type 0
Lists none feature = ⊥
Lists (some granted) feature = Occurs feature granted

grants_iff :
    (feature : String) (o : Option (List String)) → (grants feature o ≡ true) ↔ Lists o feature
grants_iff feature none = ground arith
grants_iff feature (some granted) = contains_iff feature granted

-- A feature is granted exactly to a super admin, and to an admin whose map lists that very text at
-- that very site.
has_feature_iff :
    (a : AdminIdentity) (site feature : String)
    → (has_feature a site feature ≡ true)
      ↔ ((a.role ≡ role_super_admin) ⊎ Lists (lookup site a.site_access) feature)
unfolding has_feature
has_feature_iff a site feature =
    ground (arith, eq_iff a.role role_super_admin, grants_iff feature (lookup site a.site_access))

-- An admin who may use a feature of a site also passes the checks for the site and for any access.
pub has_feature-implies :
    (a : AdminIdentity) (site feature : String)
    → has_feature a site feature ≡ true
    → (has_site a site ≡ true) × (has_any_site_access a ≡ true)
unfolding has_feature has_site has_any_site_access
has_feature-implies a site feature h = implies a.site_access refl
  where
    implies :
        (m : SiteAccess)
        → a.site_access ≡ m
        → (has_site a site ≡ true) × (has_any_site_access a ≡ true)
    implies [] e = ground arith
    implies (x ∷ m) e = ground arith

lookup-insert :
    (site asked : String) (features : List String) (others : SiteAccess)
    → lookup asked (insert site features others)
      ≡ (if str_eq site asked then some features else lookup asked others)
unfolding lookup insert
lookup-insert site asked features [] = refl
lookup-insert site asked features ((here, old) ∷ others) =
    let rest = lookup-insert site asked features others in
    ground (arith, rest, eq_iff here asked, eq_iff here site, eq_iff site asked)

-- The keys of a `Map` are distinct.
abbrev pub IsMap : Entries → Type 0
IsMap end = Unit
IsMap (entry k v es) = (get k es ≡ none) × IsMap es

abbrev or_else : Option (List String) → Option (List String) → Option (List String)
or_else none o = o
or_else (some features) o = some features

abbrev pub normal : Option (List String) → Option (List String)
normal none = none
normal (some features) = some (dedup (sort features))

module _ (serde : Serde) where
  -- The grants that an object lists at a site, before they are sorted.
  abbrev pub features_at : Option Value → Option (List String)
  features_at none = none
  features_at (some v) = raw_features serde v

  add_site-lookup :
      (s k : String) (o : Option (List String)) (out : SiteAccess)
      → lookup s (add_site serde k o out)
        ≡ (if str_eq k s then or_else (normal o) (lookup s out) else lookup s out)
  add_site-lookup s k none out = ground arith
  add_site-lookup s k (some features) out =
      ground (arith, lookup-insert k s (dedup (sort features)) out)

  get-absent : (k s : String) (es : Entries) → get k es ≡ none → str_eq k s ≡ true → get s es ≡ none
  get-absent k s es e h = subst (λ j. get j es ≡ none) ((eq_iff k s).0 h) e

  normalize_entries-lookup :
      (s : String) (es : Entries) (out : SiteAccess)
      → IsMap es
      → lookup s (normalize_entries serde es out)
        ≡ or_else (normal (features_at (get s es))) (lookup s out)
  unfolding normalize_entries get
  normalize_entries-lookup s end out u = refl
  normalize_entries-lookup s (entry k v es) out u = ground (
    arith,
    normalize_entries-lookup s es (add_site serde k (raw_features serde v) out) u.1,
    add_site-lookup s k (raw_features serde v) out,
    get-absent k s es u.0,
  )

  -- The normalised map has an entry at exactly the sites whose value is an array or an object, and
  -- there the sorted grants without duplicates.
  pub normalize-lookup :
      (es : Entries) (s : String)
      → IsMap es
      → lookup s (normalize_site_access serde (object es)) ≡ normal (features_at (get s es))
  unfolding normalize_site_access lookup
  normalize-lookup es s u = normalize_entries-lookup s es [] u ∙ right (normal _)
    where
      right : (o : Option (List String)) → or_else o none ≡ o
      right none = refl
      right (some x) = refl

  -- The same texts, in any order and any number.
  abbrev SameGrants : Option (List String) → Option (List String) → Type 0
  SameGrants none none = Unit
  SameGrants (some xs) (some ys) = (f : String) → contains f xs ≡ contains f ys
  SameGrants _ _ = ⊥

  normal-SameGrants : (o p : Option (List String)) → SameGrants o p → normal o ≡ normal p
  normal-SameGrants none none h = refl
  normal-SameGrants none (some ys) h = absurd h
  normal-SameGrants (some xs) none h = absurd h
  normal-SameGrants (some xs) (some ys) h = ap some (
      IsStrict-eq _ _ (dedup-sort-IsStrict xs) (dedup-sort-IsStrict ys)
        (λ f. contains-dedup-sort f xs ∙ h f ∙ sym (contains-dedup-sort f ys)))

  -- Two claims that grant the same features at each site, in either shape, in any order of sites
  -- and grants and with any duplicates, normalise to the same features at each site.
  normalize_order_free :
      (es fs : Entries)
      → IsMap es
      → IsMap fs
      → ((s : String) → SameGrants (features_at (get s es)) (features_at (get s fs)))
      → (s : String)
      → lookup s (normalize_site_access serde (object es))
        ≡ lookup s (normalize_site_access serde (object fs))
  normalize_order_free es fs u v h s =
      normalize-lookup es s u ∙ normal-SameGrants _ _ (h s) ∙ sym (normalize-lookup fs s v)

  abbrev pub Entry-IsStrict : String × List String → Type 0
  Entry-IsStrict (site, features) = IsStrict features

  insert-IsStrict :
      (k : String) (v : List String) (m : SiteAccess)
      → IsStrict v
      → All Entry-IsStrict m
      → All Entry-IsStrict (insert k v m)
  unfolding insert
  insert-IsStrict k v [] s h = (s, tt)
  insert-IsStrict k v ((j, w) ∷ m) s h = elim (Bool-cases (str_eq j k)) [
    | inl same ↦ rw same (s, h.1)
    | inr other ↦ rw other (h.0, insert-IsStrict k v m s h.1)
  ]

  normalize_entries-IsStrict :
      (es : Entries) (out : SiteAccess)
      → All Entry-IsStrict out
      → All Entry-IsStrict (normalize_entries serde es out)
  unfolding normalize_entries
  normalize_entries-IsStrict end out h = h
  normalize_entries-IsStrict (entry k v es) out h =
      normalize_entries-IsStrict es _ (add (raw_features serde v))
    where
      add : (o : Option (List String)) → All Entry-IsStrict (add_site serde k o out)
      add none = h
      add (some features) = insert-IsStrict k _ out (dedup-sort-IsStrict features) h

  -- Every site's features are strictly ascending: sorted, with no text twice, whatever the claim.
  pub normalize-IsStrict : (v : Value) → All Entry-IsStrict (normalize_site_access serde v)
  unfolding normalize_site_access
  normalize-IsStrict (object es) = normalize_entries-IsStrict es [] tt
  normalize-IsStrict _ = tt
