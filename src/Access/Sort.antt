-- ===== src/Access/Sort.antt =====
-- Sorting and removing duplicates, as rust/src/access.rs does to a site's features.
use maxgame_admin_guard.Base.{
  String, ◌≡◌, ◌≢◌, refl, sym, ap₂, subst, ◌∙◌, inl, inr, true, false, ◌||◌, List, [], ◌∷◌, All,
  arith, Bool-cases,
}
use maxgame_admin_guard.Base.Text.{
  str_eq, eq_iff, str_le, str_le_total, str_le_trans, str_le_antisymm,
}
use maxgame_admin_guard.Access.{contains, insert_sorted, sort, cons_new, dedup}

contains-insert_sorted :
    (f x : String) (xs : List String)
    → contains f (insert_sorted x xs) ≡ (str_eq x f || contains f xs)
unfolding insert_sorted
contains-insert_sorted f x [] = refl
contains-insert_sorted f x (y ∷ ys) = ground (arith, contains-insert_sorted f x ys)

contains-sort : (f : String) (xs : List String) → contains f (sort xs) ≡ contains f xs
unfolding sort
contains-sort f [] = refl
contains-sort f (x ∷ xs) = ground (arith, contains-insert_sorted f x (sort xs), contains-sort f xs)

contains-cons_new :
    (f x : String) (xs : List String) → contains f (cons_new x xs) ≡ (str_eq x f || contains f xs)
contains-cons_new f x [] = refl
contains-cons_new f x (y ∷ ys) = ground (arith, eq_iff x y, eq_iff x f, eq_iff y f)

contains-dedup : (f : String) (xs : List String) → contains f (dedup xs) ≡ contains f xs
unfolding dedup
contains-dedup f [] = refl
contains-dedup f (x ∷ xs) = ground (arith, contains-cons_new f x (dedup xs), contains-dedup f xs)

-- Sorting and removing duplicates keeps exactly the texts that occur.
pub contains-dedup-sort :
    (f : String) (xs : List String) → contains f (dedup (sort xs)) ≡ contains f xs
contains-dedup-sort f xs = contains-dedup f (sort xs) ∙ contains-sort f xs

abbrev Below : String → List String → Type 0
Below x = All (λ y. str_le x y ≡ true)

abbrev IsSorted : List String → Type 0
IsSorted [] = Unit
IsSorted (x ∷ xs) = Below x xs × IsSorted xs

Below-trans : (x y : String) (ys : List String) → str_le x y ≡ true → Below y ys → Below x ys
Below-trans x y [] h b = tt
Below-trans x y (z ∷ zs) h b = (str_le_trans x y z h b.0, Below-trans x y zs h b.1)

Below-insert_sorted :
    (y x : String) (xs : List String)
    → str_le y x ≡ true
    → Below y xs
    → Below y (insert_sorted x xs)
unfolding insert_sorted
Below-insert_sorted y x [] h b = (h, tt)
Below-insert_sorted y x (z ∷ zs) h b = ground (arith, Below-insert_sorted y x zs h b.1)

insert_sorted-IsSorted :
    (x : String) (xs : List String) → IsSorted xs → IsSorted (insert_sorted x xs)
unfolding insert_sorted
insert_sorted-IsSorted x [] s = (tt, tt)
insert_sorted-IsSorted x (y ∷ ys) s = elim (Bool-cases (str_le x y)) [
  | inl le ↦ rw le ((le, Below-trans x y ys le s.0), s)
  | inr gt ↦ rw gt (
    Below-insert_sorted y x ys (ground (arith, str_le_total x y)) s.0,
    insert_sorted-IsSorted x ys s.1,
  )
]

sort-IsSorted : (xs : List String) → IsSorted (sort xs)
unfolding sort
sort-IsSorted [] = tt
sort-IsSorted (x ∷ xs) = insert_sorted-IsSorted x (sort xs) (sort-IsSorted xs)

-- Strictly above `x`.
abbrev pub Above : String → List String → Type 0
Above x = All (λ y. (str_le x y ≡ true) × (x ≢ y))

-- Each text is strictly above those before it.
abbrev pub IsStrict : List String → Type 0
IsStrict [] = Unit
IsStrict (x ∷ xs) = Above x xs × IsStrict xs

Below-cons_new :
    (x y : String) (ys : List String) → str_le x y ≡ true → Below x ys → Below x (cons_new y ys)
Below-cons_new x y [] h b = (h, tt)
Below-cons_new x y (z ∷ zs) h b = ground arith

Below-dedup : (x : String) (xs : List String) → Below x xs → Below x (dedup xs)
unfolding dedup
Below-dedup x [] b = tt
Below-dedup x (y ∷ ys) b = Below-cons_new x y (dedup ys) b.0 (Below-dedup x ys b.1)

Above-of-lt :
    (x y : String) (ys : List String) → str_le x y ≡ true → x ≢ y → Above y ys → Above x ys
Above-of-lt x y [] h n a = tt
Above-of-lt x y (z ∷ zs) h n a = (
  (str_le_trans x y z h a.0.0, λ e. n (str_le_antisymm x y h (rw e a.0.0))),
  Above-of-lt x y zs h n a.1,
)

cons_new-IsStrict :
    (x : String) (xs : List String) → Below x xs → IsStrict xs → IsStrict (cons_new x xs)
cons_new-IsStrict x [] b s = (tt, tt)
cons_new-IsStrict x (y ∷ ys) b s = elim (Bool-cases (str_eq x y)) [
  | inl same ↦ rw same s
  | inr other ↦
      let n : x ≢ y = λ e. cc ((eq_iff x y).1 e) in
      rw other (((b.0, n), Above-of-lt x y ys b.0 n s.0), s)
]

dedup-IsStrict : (xs : List String) → IsSorted xs → IsStrict (dedup xs)
unfolding dedup
dedup-IsStrict [] s = tt
dedup-IsStrict (x ∷ xs) s =
    cons_new-IsStrict x (dedup xs) (Below-dedup x xs s.0) (dedup-IsStrict xs s.1)

pub dedup-sort-IsStrict : (xs : List String) → IsStrict (dedup (sort xs))
dedup-sort-IsStrict xs = dedup-IsStrict (sort xs) (sort-IsSorted xs)

contains-Above : (x : String) (xs : List String) → Above x xs → contains x xs ≡ false
contains-Above x [] a = refl
contains-Above x (y ∷ ys) a = ground (arith, eq_iff y x, contains-Above x ys a.1)

contains-Above_eq : (x f : String) (xs : List String) → Above x xs → x ≡ f → contains f xs ≡ false
contains-Above_eq x f xs a e = subst (λ g. contains g xs ≡ false) e (contains-Above x xs a)

le-of-contains :
    (x f : String) (xs : List String) → Above x xs → contains f (x ∷ xs) ≡ true → str_le x f ≡ true
le-of-contains x f [] a h = ground (arith, eq_iff x f, str_le_total x f)
le-of-contains x f (y ∷ ys) a h =
    ground (arith, eq_iff x f, eq_iff y f, str_le_total x f, le-of-contains x f ys a.1)

self_contained : (x : String) (xs : List String) → contains x (x ∷ xs) ≡ true
self_contained x xs = rw ((eq_iff x x).1 refl)

-- Two strictly sorted lists of the same texts are the same list.
pub IsStrict-eq :
    (xs ys : List String)
    → IsStrict xs
    → IsStrict ys
    → ((f : String) → contains f xs ≡ contains f ys)
    → xs ≡ ys
IsStrict-eq [] [] s t h = refl
IsStrict-eq [] (y ∷ ys) s t h = cc (h y, self_contained y ys)
IsStrict-eq (x ∷ xs) [] s t h = cc (h x, self_contained x xs)
IsStrict-eq (x ∷ xs) (y ∷ ys) s t h = ap₂ ◌∷◌ same (IsStrict-eq xs ys s.1 t.1 tails)
  where
    same : x ≡ y
    same =
        str_le_antisymm x y (le-of-contains x y xs s.0 (h y ∙ self_contained y ys))
          (le-of-contains y x ys t.0 (sym (h x) ∙ self_contained x xs))

    tails : (f : String) → contains f xs ≡ contains f ys
    tails f = ground (
      arith,
      h f,
      same,
      eq_iff x f,
      eq_iff y f,
      contains-Above_eq x f xs s.0,
      contains-Above_eq y f ys t.0,
    )
