-- ===== src/Template/Example/Laws.antt =====
-- template/src/inbound/example.rs: what a parsed query bounds, and what the metadata says.
use maxgame_admin_guard.Base.{
  ℕ, ◌+◌, ◌-◌, ◌*◌, ◌/◌, ◌%◌, ◌^◌, ◌≤◌, ◌<◌, String, ◌≡◌, ◌↔◌, ap, sym, subst, ◌∙◌, true, Option,
  none, some, ok, >>=-eq-ok, arith,
}
use native.Mathlib.Nat.{mod-eq_of_lt, le-div_iff_mul-le}
use maxgame_admin_guard.Base.Int.{ℤ, pos, negsuc, pos_part, sub_i64, add_i64, mul_i64}
use maxgame_admin_guard.Template.Example.{
  RawAdminListQuery, AdminListQuery, offset, parse_i64, in_bounds, bounded_number, page_of, take_of,
  max_take, try_from, list_meta,
}

-- `i64` arithmetic on small numbers does not wrap.
sub_i64_one : (n : ℕ) → 1 ≤ n → n < 2 ^ 63 → sub_i64 (pos n) (pos 1) ≡ pos (n - 1)
sub_i64_one n p h = ground arith

add_i64_small : (a b : ℕ) → a + b < 2 ^ 63 → add_i64 (pos a) (pos b) ≡ pos (a + b)
add_i64_small a b h = ground arith

mul_i64_small :
    (a b : ℕ) → a < 2 ^ 63 → b < 2 ^ 63 → a * b < 2 ^ 63 → mul_i64 (pos a) (pos b) ≡ pos (a * b)
mul_i64_small a b m n h =
    let first : a % 2 ^ 64 ≡ a = mod-eq_of_lt (omega (arith, m)) in
    let second : b % 2 ^ 64 ≡ b = mod-eq_of_lt (omega (arith, n)) in
    let product : a * b % 2 ^ 64 ≡ a * b = mod-eq_of_lt (omega (arith, h)) in
    rw (first, second, product) (ground (arith, h))

-- A positive `i64`, as a number.
abbrev pub AtLeastOne : ℤ → Type 0
AtLeastOne v = (n : ℕ) × (v ≡ pos n) × (1 ≤ n)

in_bounds-AtLeastOne :
    (field : String) (most : Option (ℤ × String)) (o : Option ℤ) (v : ℤ)
    → in_bounds field (pos 1, "1") most o ≡ ok v
    → AtLeastOne v
in_bounds-AtLeastOne field most none v h = cc h
in_bounds-AtLeastOne field none (some (pos n)) v h = (n, ground arith, ground arith)
in_bounds-AtLeastOne field none (some (negsuc n)) v h = ground arith
in_bounds-AtLeastOne field (some (m, text)) (some (pos n)) v h = (n, ground arith, ground arith)
in_bounds-AtLeastOne field (some (m, text)) (some (negsuc n)) v h = ground arith

page_of-AtLeastOne : (o : Option String) (v : ℤ) → page_of o ≡ ok v → AtLeastOne v
unfolding bounded_number
page_of-AtLeastOne none v h = (1, ground arith, omega arith)
page_of-AtLeastOne (some raw) v h = in_bounds-AtLeastOne "page" none (parse_i64 raw) v h

take_of-AtLeastOne : (o : Option String) (v : ℤ) → take_of o ≡ ok v → AtLeastOne v
unfolding bounded_number
take_of-AtLeastOne none v h = (10, ground arith, omega arith)
take_of-AtLeastOne (some raw) v h =
    in_bounds-AtLeastOne "take" (some (max_take, "100")) (parse_i64 raw) v h

-- A page comes before the last one exactly if items are left after it.
page-lt-count :
    (page take items : ℕ)
    → 1 ≤ take
    → (page + 1 ≤ (items + take - 1) / take) ↔ (page * take < items)
page-lt-count page take items t =
    let (there, back) = le-div_iff_mul-le {k = take} {x = page + 1} {y = items + take - 1} t in
    (λ h. omega (arith, there h, t), λ h. back (omega (arith, h, t)))

in_bounds-AtMost :
    (field text : String) (o : Option ℤ) (v : ℤ)
    → in_bounds field (pos 1, "1") (some (max_take, text)) o ≡ ok v
    → pos_part v ≤ 100
in_bounds-AtMost field text none v h = cc h
in_bounds-AtMost field text (some (pos n)) v h = ground arith
in_bounds-AtMost field text (some (negsuc n)) v h = ground arith

take_of-AtMost : (o : Option String) (v : ℤ) → take_of o ≡ ok v → pos_part v ≤ 100
unfolding bounded_number
take_of-AtMost none v h = ground arith
take_of-AtMost (some raw) v h = in_bounds-AtMost "take" "100" (parse_i64 raw) v h

-- With `k` pages before the one that is asked for, of `j + 1` items each.
offset_small :
    (k j : ℕ)
    → (k + 1) * (j + 1) < 2 ^ 63
    → offset (record { page = pos (k + 1); take = pos (j + 1) }) ≡ pos (k * (j + 1))
unfolding offset
offset_small k j h = rw (sub_i64_one (k + 1) (omega arith) (omega (arith, h))) (
    mul_i64_small (k + 1 - 1) (j + 1) (omega (arith, h)) (omega (arith, h)) fits
    ∙ ap (λ (n : ℕ). pos (n * (j + 1))) before)
  where
    before : k + 1 - 1 ≡ k
    before = omega arith

    fits : (k + 1 - 1) * (j + 1) < 2 ^ 63
    fits = rw before (omega (arith, h))

pub offset_exact_at :
    (page take : ℕ)
    → 1 ≤ page
    → 1 ≤ take
    → page * take < 2 ^ 63
    → offset (record { page = pos page; take = pos take }) ≡ pos ((page - 1) * take)
offset_exact_at page take p t h =
    subst (λ (n : ℕ). offset (record { page = pos n; take = pos take }) ≡ pos ((page - 1) * take))
      up
      (subst
        (λ (m : ℕ).
          offset (record { page = pos (page - 1 + 1); take = pos m }) ≡ pos ((page - 1) * m))
        over (offset_small (page - 1) (take - 1) (rw (up, over) h)))
  where
    up : page - 1 + 1 ≡ page
    up = omega (arith, p)

    over : take - 1 + 1 ≡ take
    over = omega (arith, t)

-- A query that parses has an offset of one page's items for each page before it, as long as the
-- items up to the end of the page are fewer than 2^63.
pub offset-exact :
    (raw : RawAdminListQuery) (q : AdminListQuery)
    → try_from raw ≡ ok q
    → pos_part q.page * pos_part q.take < 2 ^ 63
    → (offset q ≡ pos ((pos_part q.page - 1) * pos_part q.take))
      × (1 ≤ pos_part q.page)
      × (1 ≤ pos_part q.take)
      × (pos_part q.take ≤ 100)
unfolding try_from
offset-exact raw q h b =
    let (page, f, h₁) = >>=-eq-ok (page_of raw.page) _ h in
    let (take, g, h₂) = >>=-eq-ok (take_of raw.take) _ h₁ in
    let (n, e, p) = page_of-AtLeastOne raw.page page f in
    let (m, i, t) = take_of-AtLeastOne raw.take take g in
    let same : record { page = pos n; take = pos m } ≡ q =
      ap (λ (v : ℤ). record { page = v; take = pos m }) (sym e)
      ∙ ap (λ (v : ℤ). record { page = page; take = v }) (sym i)
      ∙ cc h₂ in
    subst Exact same (
      exact n m p t
        (subst (λ (x : AdminListQuery). pos_part x.page * pos_part x.take < 2 ^ 63) (sym same) b)
        (subst (λ (v : ℤ). pos_part v ≤ 100) i (take_of-AtMost raw.take take g)))
  where
    Exact : AdminListQuery → Type 0
    Exact x =
        (offset x ≡ pos ((pos_part x.page - 1) * pos_part x.take))
        × (1 ≤ pos_part x.page)
        × (1 ≤ pos_part x.take)
        × (pos_part x.take ≤ 100)

    exact :
        (n m : ℕ)
        → 1 ≤ n
        → 1 ≤ m
        → n * m < 2 ^ 63
        → m ≤ 100
        → Exact (record { page = pos n; take = pos m })
    exact n m p t h u = (offset_exact_at n m p t h, p, t, u)

-- The metadata of a page, while the counts stay in range: there is a next page exactly if items are
-- left after this one, and a previous one exactly if this is not the first.
list_meta_iff :
    (page take items : ℕ)
    → 1 ≤ page
    → 1 ≤ take
    → items + take < 2 ^ 63
    → let meta = list_meta (record { page = pos page; take = pos take }) (pos items) in
      ((meta.has_next_page ≡ true) ↔ (page * take < items))
      × ((meta.has_previous_page ≡ true) ↔ (1 < page))
unfolding list_meta
list_meta_iff page take items p t m =
    let added = add_i64_small items take m in
    let less = sub_i64_one (items + take) (omega (arith, t)) m in
    let last = page-lt-count page take items t in
    (rw (added, less) (ground (arith, last, p)), ground arith)
