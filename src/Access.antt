-- ===== src/Access.antt =====
-- rust/src/access.rs: the admin's identity, its site and feature checks, and the normalisation of
-- the `siteAccess` claim. A `HashMap` is an association list with one entry for a key.
pub mod Sort
pub mod Grants
pub mod Laws
use maxgame_admin_guard.Base.{
  ℕ, String, Bool, true, false, not, ◌||◌, Option, none, some, List, [], ◌∷◌, map, any,
  if◌then◌else◌,
}
use maxgame_admin_guard.Base.Text.{str_eq, str_le}
use maxgame_admin_guard.Json.{
  Value, null, bool, number, string, array, object, Entries, end, entry, Serde, items, keys,
}

abbrev pub role_super_admin : String
role_super_admin = "super_admin"

abbrev pub SiteAccess : Type 0
SiteAccess = List (String × List String)

pub record AdminIdentity : Type 0 where
  pub admin_id : String
  pub role : String
  pub site_access : SiteAccess
  pub token : String

-- `HashMap::get` and `HashMap::insert`.
unfoldable pub lookup : String → SiteAccess → Option (List String)
lookup site [] = none
lookup site ((here, features) ∷ others) =
    if str_eq here site then some features else lookup site others

unfoldable pub insert : String → List String → SiteAccess → SiteAccess
insert site features [] = (site, features) ∷ []
insert site features ((here, old) ∷ others) =
    let rest = insert site features others in
    if str_eq here site then (here, features) ∷ others else (here, old) ∷ rest

abbrev pub is_some {ℓ} : {A : Type ℓ} → Option A → Bool
is_some none = false
is_some (some a) = true

unfoldable pub is_super_admin : AdminIdentity → Bool
is_super_admin a = str_eq a.role role_super_admin

-- `contains_key`.
unfoldable pub has_site : AdminIdentity → String → Bool
unfolding is_super_admin lookup
has_site a site = is_super_admin a || is_some (lookup site a.site_access)

abbrev pub contains : String → List String → Bool
contains feature = any (λ key. str_eq key feature)

-- `Option::is_some_and` over the granted features.
abbrev pub grants : String → Option (List String) → Bool
grants feature none = false
grants feature (some granted) = contains feature granted

unfoldable pub has_feature : AdminIdentity → String → String → Bool
unfolding is_super_admin lookup
has_feature a site feature =
    if is_super_admin a then true else grants feature (lookup site a.site_access)

abbrev pub is_nil {ℓ} : {A : Type ℓ} → List A → Bool
is_nil [] = true
is_nil (x ∷ xs) = false

unfoldable pub has_any_site_access : AdminIdentity → Bool
unfolding is_super_admin
has_any_site_access a = is_super_admin a || not (is_nil a.site_access)

-- `Vec::sort` on texts: equal texts cannot be told apart, so any sorting function serves.
unfoldable pub insert_sorted : String → List String → List String
insert_sorted x [] = x ∷ []
insert_sorted x (y ∷ ys) = if str_le x y then x ∷ y ∷ ys else y ∷ insert_sorted x ys

unfoldable pub sort : List String → List String
unfolding insert_sorted
sort [] = []
sort (x ∷ xs) = insert_sorted x (sort xs)

-- `Vec::dedup`: one of each run of equal texts stays.
abbrev pub cons_new : String → List String → List String
cons_new x [] = x ∷ []
cons_new x (y ∷ ys) = if str_eq x y then y ∷ ys else x ∷ y ∷ ys

unfoldable pub dedup : List String → List String
dedup [] = []
dedup (x ∷ xs) = cons_new x (dedup xs)

module _ (serde : Serde) where
  -- A grant in an array: a text as it is, anything else as printed.
  unfoldable pub grant_text : Value → String
  grant_text (string s) = s
  grant_text other = serde.to_string other

  -- The grants that a site's value lists, or `none` where the loop continues without an entry.
  unfoldable pub raw_features : Value → Option (List String)
  unfolding grant_text
  raw_features (array vs) = some (map grant_text (items vs))
  raw_features (object entries) = some (keys entries)
  raw_features _ = none

  abbrev pub add_site : String → Option (List String) → SiteAccess → SiteAccess
  add_site site none out = out
  add_site site (some features) out = insert site (dedup (sort features)) out

  -- The loop over the object's entries.
  unfoldable pub normalize_entries : Entries → SiteAccess → SiteAccess
  unfolding raw_features insert sort dedup
  normalize_entries end out = out
  normalize_entries (entry site value rest) out =
      normalize_entries rest (add_site site (raw_features value) out)

  unfoldable pub normalize_site_access : Value → SiteAccess
  unfolding normalize_entries
  normalize_site_access (object entries) = normalize_entries entries []
  normalize_site_access _ = []
