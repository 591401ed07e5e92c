-- ===== src/Template/Repo/Laws.antt =====
-- template/src/adapters/example_repo.rs: what the list query's rows are, under what SQL says of
-- its clauses, and that the pages of a table tile it.
use mathlib.Core.List.Permᴰ
use mathlib.Core.List.{Permᴰ}
use native.Mathlib.Nat.{mul-le-mul_right}
use maxgame_admin_guard.Base.{
  ℕ, zero, suc, String, ◌+◌, ◌-◌, ◌*◌, ◌^◌, ◌≤◌, ◌<◌, ◌≡◌, refl, sym, ap, ◌∙◌, subst, Bool, true,
  false, Option, List, [], ◌∷◌, ◌++◌, Result, ok, err, arith, length, if◌then◌else◌, All, take,
  drop, take-all, take-append, length-take,
}
use maxgame_admin_guard.Base.Int.{ℤ, pos}
use maxgame_admin_guard.Template.Example.{AdminListQuery, offset}
use maxgame_admin_guard.Template.Example.Laws.{offset_exact_at}
use maxgame_admin_guard.Template.Repo.{ExampleItem, Postgres, visible, or_domain_error, list}
use maxgame_admin_guard.Template.Repo.Order.{
  IsNewestFirst, HasNoTies, newest_first_unique, All-Perm,
}

-- What the statement returns: the rows that WHERE lets through, in some order that ORDER BY allows,
-- without those that OFFSET skips and those past LIMIT.
pub record IsFetched (public_only : Bool) (limit skip : ℕ) (rows items : List ExampleItem)
    : Type 0 where
  pub ordered : List ExampleItem
  pub shuffles : Permᴰ ordered (visible public_only rows)
  pub newest_first : IsNewestFirst ordered
  pub cut : items ≡ take limit (drop skip ordered)

-- What the service relies on of the database, whose rows are `table`.
pub record IsSql {W : Type 0} (db : Postgres W) (table : W → List ExampleItem) : Type 0 where
  pub fetched :
      (public_only : Bool) (limit skip : ℕ) (w w' : W) (items : List ExampleItem)
      → db.fetch_all (record { public_only = public_only; limit = pos limit; offset = pos skip }) w
        ≡ (ok items, w')
      → IsFetched public_only limit skip (table w) items

or_domain_error-eq-ok :
    {W A : Type 0} (r : Result (Option String) A × W) (a : A) (w : W)
    → or_domain_error r ≡ (ok a, w)
    → r ≡ (ok a, w)
unfolding or_domain_error
or_domain_error-eq-ok (ok b, v) a w h = ground (arith, h)
or_domain_error-eq-ok (err e, v) a w h = cc h

module _ {W : Type 0} (db : Postgres W) (table : W → List ExampleItem) (sql : IsSql db table) where
  pub list-IsFetched :
      (public_only : Bool) (limit skip : ℕ) (w w' : W) (items : List ExampleItem)
      → list db public_only (pos limit) (pos skip) w ≡ (ok items, w')
      → IsFetched public_only limit skip (table w) items
  unfolding list
  list-IsFetched public_only limit skip w w' items h =
      sql.fetched public_only limit skip w w' items (or_domain_error-eq-ok _ items w' h)

abbrev pub IsPublic : ExampleItem → Type 0
IsPublic item = item.is_public ≡ true

All-if :
    (P : ExampleItem → Type 0) (b : Bool) (x : ExampleItem) (xs : List ExampleItem)
    → (b ≡ true → P x)
    → All P xs
    → All P (if b then x ∷ xs else xs)
All-if P true x xs h hs = (h refl, hs)
All-if P false x xs h hs = hs

visible-IsPublic : (rows : List ExampleItem) → All IsPublic (visible true rows)
unfolding visible
visible-IsPublic [] = tt
visible-IsPublic (x ∷ xs) =
    All-if IsPublic x.is_public x (visible true xs) (λ e. e) (visible-IsPublic xs)

visible-all : (rows : List ExampleItem) → visible false rows ≡ rows
unfolding visible
visible-all [] = refl
visible-all (x ∷ xs) = ap (λ (l : List ExampleItem). x ∷ l) (visible-all xs)

module _ (P : ExampleItem → Type 0) where
  All-take : (n : ℕ) (xs : List ExampleItem) → All P xs → All P (take n xs)
  All-take zero xs h = tt
  All-take (suc n) [] h = tt
  All-take (suc n) (x ∷ xs) (h, hs) = (h, All-take n xs hs)

  All-drop : (n : ℕ) (xs : List ExampleItem) → All P xs → All P (drop n xs)
  All-drop zero xs h = h
  All-drop (suc n) [] h = tt
  All-drop (suc n) (x ∷ xs) (h, hs) = All-drop n xs hs

pub fetched-IsPublic :
    (limit skip : ℕ) (rows items : List ExampleItem)
    → IsFetched true limit skip rows items
    → All IsPublic items × (length items ≤ limit)
fetched-IsPublic limit skip rows items f = (
  subst (All IsPublic) (sym f.cut) (
      All-take IsPublic limit (drop skip f.ordered) (
        All-drop IsPublic skip f.ordered
          (All-Perm IsPublic (Permᴰ.symm f.shuffles) (visible-IsPublic rows)))),
  rw f.cut (length-take limit (drop skip f.ordered)),
)

length-Perm : {xs ys : List ExampleItem} → Permᴰ xs ys → length xs ≡ length ys
length-Perm Permᴰ.nil = refl
length-Perm (Permᴰ.cons e p) = ap suc (length-Perm p)
length-Perm (Permᴰ.swap e f) = refl
length-Perm (Permᴰ.trans p q) = length-Perm p ∙ length-Perm q

abbrev pub gather : (ℕ → List ExampleItem) → ℕ → List ExampleItem
gather items zero = []
gather items (suc n) = gather items n ++ items n

-- The pages from the first on, each of `size` rows, are the rows from the first on.
gather-cut :
    (items : ℕ → List ExampleItem) (ordered : List ExampleItem) (size n : ℕ)
    → ((k : ℕ) → k < n → items k ≡ take size (drop (k * size) ordered))
    → gather items n ≡ take (n * size) ordered
gather-cut items ordered size zero h = none_cut
  where
    none_cut : [] ≡ take (0 * size) ordered
    none_cut = let e : 0 ≡ 0 * size = omega arith in ap (λ (j : ℕ). take j ordered) e
gather-cut items ordered size (suc n) h =
    ap (λ (l : List ExampleItem). l ++ items n)
      (gather-cut items ordered size n (λ k lt. h k (omega (arith, lt))))
    ∙ ap (λ (l : List ExampleItem). take (n * size) ordered ++ l) (h n (omega arith))
    ∙ take-append (n * size) size (suc n * size) (omega arith) ordered

-- All the pages of one table without ties, given any page to fix the order.
tiled :
    (rows : List ExampleItem) (size n limit skip : ℕ) (some_items : List ExampleItem)
    (items : ℕ → List ExampleItem) (one : IsFetched false limit skip rows some_items)
    → length rows ≤ n * size
    → HasNoTies rows
    → ((k : ℕ) → k < n → IsFetched false size (k * size) rows (items k))
    → Permᴰ (gather items n) rows × IsNewestFirst (gather items n)
tiled rows size n limit skip some_items items one l t pages = (
  subst (λ (r : List ExampleItem). Permᴰ r rows) (sym all) (shuffles limit skip some_items one),
  subst IsNewestFirst (sym all) one.newest_first,
)
  where
    shuffles :
        (limit skip : ℕ) (items : List ExampleItem) (p : IsFetched false limit skip rows items)
        → Permᴰ p.ordered rows
    shuffles limit skip items p =
        subst (λ (r : List ExampleItem). Permᴰ p.ordered r) (visible-all rows) p.shuffles

    cut :
        (k : ℕ)
        → IsFetched false size (k * size) rows (items k)
        → items k ≡ take size (drop (k * size) one.ordered)
    cut k p =
        p.cut
        ∙ ap (λ (r : List ExampleItem). take size (drop (k * size) r))
            (newest_first_unique (shuffles size (k * size) (items k) p)
              (shuffles limit skip some_items one) p.newest_first one.newest_first t)

    all : gather items n ≡ one.ordered
    all =
        gather-cut items one.ordered size n (λ k lt. cut k (pages k lt))
        ∙ take-all (n * size) one.ordered
            (omega (arith, l, length-Perm (shuffles limit skip some_items one)))

-- The query for the page with `k` pages before it.
abbrev pub page_query : ℕ → ℕ → AdminListQuery
page_query size k = record { page = pos (k + 1); take = pos size }

page_query-offset :
    (size n k : ℕ)
    → 1 ≤ size
    → n * size < 2 ^ 63
    → k < n
    → offset (page_query size k) ≡ pos (k * size)
page_query-offset size n k s b lt =
    let le : (k + 1) * size ≤ n * size = mul-le-mul_right size (omega (arith, lt)) in
    let before : k + 1 - 1 ≡ k = omega arith in
    offset_exact_at (k + 1) size (omega arith) s (omega (arith, le, b))
    ∙ ap (λ (j : ℕ). pos (j * size)) before

module _ {W : Type 0} (db : Postgres W) (table : W → List ExampleItem) (sql : IsSql db table) where
  -- Page by page, in whatever states of the world the requests come, as long as the table holds
  -- the same rows at each and no two rows of it the same instant: as many pages as the rows fill,
  -- put together, hold each row of the table exactly once, the newest first.
  pub pages-tile :
      (rows : List ExampleItem) (size n : ℕ) (before after : ℕ → W) (items : ℕ → List ExampleItem)
      → 1 ≤ size
      → n * size < 2 ^ 63
      → length rows ≤ n * size
      → HasNoTies rows
      → ((k : ℕ)
          → k < n
          → (table (before k) ≡ rows)
            × (list db false (page_query size k).take (offset (page_query size k)) (before k)
                ≡ (ok (items k), after k)))
      → Permᴰ (gather items n) rows × IsNewestFirst (gather items n)
  pages-tile [] size zero before after items s b l t h = (Permᴰ.nil, tt)
  pages-tile (x ∷ xs) size zero before after items s b l t h = absurd (omega (arith, l))
  pages-tile rows size (suc n) before after items s b l t h =
      tiled rows size (suc n) size (0 * size) (items 0) items (page 0 (omega arith)) l t page
    where
      page : (k : ℕ) → k < suc n → IsFetched false size (k * size) rows (items k)
      page k lt =
          subst (λ (r : List ExampleItem). IsFetched false size (k * size) r (items k)) (h k lt).0
            (list-IsFetched db table sql false size (k * size) (before k) (after k) (items k) (
              ap (λ (o : ℤ). list db false (pos size) o (before k))
                (sym (page_query-offset size (suc n) k s b lt))
              ∙ (h k lt).1))
