-- ===== src/Template/Repo/Order.antt =====
-- Rows in the order of the query: newest first, and only one such order without ties.
use mathlib.Core.List.Permᴰ
use mathlib.Core.List.{Permᴰ}
use maxgame_admin_guard.Base.{
  ◌≤◌, ◌<◌, ◌≡◌, ◌≢◌, ◌⊎◌, inl, inr, refl, sym, ap, ◌∙◌, subst, List, [], ◌∷◌, arith, All,
}
use maxgame_admin_guard.Template.Repo.{ExampleItem}

-- ORDER BY created_at DESC, which leaves open how ties fall.
abbrev pub IsNewestFirst : List ExampleItem → Type 0
IsNewestFirst [] = Unit
IsNewestFirst (x ∷ xs) = All (λ y. y.created_at ≤ x.created_at) xs × IsNewestFirst xs

-- No two rows were created at the same instant.
abbrev pub HasNoTies : List ExampleItem → Type 0
HasNoTies [] = Unit
HasNoTies (x ∷ xs) = All (λ y. x.created_at ≢ y.created_at) xs × HasNoTies xs

module _ (P : ExampleItem → Type 0) where
  pub All-Perm : {xs ys : List ExampleItem} → Permᴰ xs ys → All P xs → All P ys
  All-Perm Permᴰ.nil h = h
  All-Perm (Permᴰ.cons e p) (h, hs) = (subst P e h, All-Perm p hs)
  All-Perm (Permᴰ.swap e f) (h, (k, hs)) = (subst P f k, (subst P e h, hs))
  All-Perm (Permᴰ.trans p q) h = All-Perm q (All-Perm p h)

HasNoTies-Perm : {xs ys : List ExampleItem} → Permᴰ xs ys → HasNoTies xs → HasNoTies ys
HasNoTies-Perm Permᴰ.nil h = h
HasNoTies-Perm (Permᴰ.cons {l₂ = ys} e p) (h, hs) = (
  subst (λ (x : ExampleItem). All (λ y. x.created_at ≢ y.created_at) ys) e (All-Perm _ p h),
  HasNoTies-Perm p hs,
)
HasNoTies-Perm (Permᴰ.swap {l = l} e f) ((n, h), (k, hs)) = (
  (
    λ same. n (
        ap (λ (x : ExampleItem). x.created_at) e
        ∙ sym same
        ∙ ap (λ (x : ExampleItem). x.created_at) (sym f)),
    subst (λ (x : ExampleItem). All (λ y. x.created_at ≢ y.created_at) l) f k,
  ),
  (subst (λ (x : ExampleItem). All (λ y. x.created_at ≢ y.created_at) l) e h, hs),
)
HasNoTies-Perm (Permᴰ.trans p q) h = HasNoTies-Perm q (HasNoTies-Perm p h)

abbrev In : ExampleItem → List ExampleItem → Type 0
In a [] = ⊥
In a (x ∷ xs) = (a ≡ x) ⊎ In a xs

In-Perm : (a : ExampleItem) {xs ys : List ExampleItem} → Permᴰ xs ys → In a xs → In a ys
In-Perm a Permᴰ.nil h = h
In-Perm a (Permᴰ.cons e p) (inl q) = inl (q ∙ e)
In-Perm a (Permᴰ.cons e p) (inr h) = inr (In-Perm a p h)
In-Perm a (Permᴰ.swap e f) (inl q) = inr (inl (q ∙ e))
In-Perm a (Permᴰ.swap e f) (inr (inl q)) = inl (q ∙ f)
In-Perm a (Permᴰ.swap e f) (inr (inr h)) = inr (inr h)
In-Perm a (Permᴰ.trans p q) h = In-Perm a q (In-Perm a p h)

-- Newest first without ties.
abbrev IsDescending : List ExampleItem → Type 0
IsDescending [] = Unit
IsDescending (x ∷ xs) = All (λ y. y.created_at < x.created_at) xs × IsDescending xs

older :
    (x : ExampleItem) (xs : List ExampleItem)
    → All (λ y. y.created_at ≤ x.created_at) xs
    → All (λ y. x.created_at ≢ y.created_at) xs
    → All (λ y. y.created_at < x.created_at) xs
older x [] h k = tt
older x (y ∷ ys) (h, hs) (k, ks) = (omega (arith, h, k), older x ys hs ks)

descending : (xs : List ExampleItem) → IsNewestFirst xs → HasNoTies xs → IsDescending xs
descending [] h k = tt
descending (x ∷ xs) (h, hs) (k, ks) = (older x xs h k, descending xs hs ks)

below :
    (a x : ExampleItem) (xs : List ExampleItem)
    → All (λ y. y.created_at < x.created_at) xs
    → In a xs
    → a.created_at < x.created_at
below a x [] h k = absurd k
below a x (y ∷ ys) (h, hs) (inl e) =
    subst (λ (z : ExampleItem). z.created_at < x.created_at) (sym e) h
below a x (y ∷ ys) (h, hs) (inr k) = below a x ys hs k

same_head :
    {x y : ExampleItem} (xs ys : List ExampleItem)
    → IsDescending (x ∷ xs)
    → IsDescending (y ∷ ys)
    → In x (y ∷ ys)
    → In y (x ∷ xs)
    → x ≡ y
same_head xs ys d d' (inl e) k = e
same_head xs ys d d' (inr h) (inl e) = sym e
same_head {x} {y} xs ys (d, ds) (d', ds') (inr h) (inr k) =
    absurd (omega (arith, below x y ys d' h, below y x xs d k))

into_tail :
    (a : ExampleItem) {x y : ExampleItem} (xs ys : List ExampleItem)
    → IsDescending (x ∷ xs)
    → x ≡ y
    → In a xs
    → In a (y ∷ ys)
    → In a ys
into_tail a {x} {y} xs ys (d, ds) e h (inl q) = absurd (
    let earlier = below a x xs d h in
    let same : a.created_at ≡ x.created_at = ap (λ (z : ExampleItem). z.created_at) (q ∙ sym e) in
    omega (arith, earlier, same))
into_tail a xs ys d e h (inr k) = k

same_rows :
    (xs ys : List ExampleItem)
    → IsDescending xs
    → IsDescending ys
    → ((a : ExampleItem) → In a xs → In a ys)
    → ((a : ExampleItem) → In a ys → In a xs)
    → xs ≡ ys
same_rows [] [] d d' f g = refl
same_rows [] (y ∷ ys) d d' f g = absurd (g y (inl refl))
same_rows (x ∷ xs) [] d d' f g = absurd (f x (inl refl))
same_rows (x ∷ xs) (y ∷ ys) d d' f g =
    let e = same_head xs ys d d' (f x (inl refl)) (g y (inl refl)) in
    let tails =
      same_rows xs ys d.1 d'.1 (λ a h. into_tail a xs ys d e h (f a (inr h)))
        (λ a h. into_tail a ys xs d' (sym e) h (g a (inr h))) in
    ap (λ (z : ExampleItem). z ∷ xs) e ∙ ap (λ (l : List ExampleItem). y ∷ l) tails

-- Without ties the order of the query is the only one.
pub newest_first_unique :
    {xs ys zs : List ExampleItem}
    → Permᴰ xs zs
    → Permᴰ ys zs
    → IsNewestFirst xs
    → IsNewestFirst ys
    → HasNoTies zs
    → xs ≡ ys
newest_first_unique {xs} {ys} {zs} p q n m t =
    same_rows xs ys (descending xs n (HasNoTies-Perm (Permᴰ.symm p) t))
      (descending ys m (HasNoTies-Perm (Permᴰ.symm q) t))
      (λ a h. In-Perm a (Permᴰ.symm q) (In-Perm a p h))
      (λ a h. In-Perm a (Permᴰ.symm p) (In-Perm a q h))
