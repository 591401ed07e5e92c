-- ===== src/Template/Example.antt =====
-- template/src/inbound/example.rs: the admin list's query and the page's metadata. An `i64` is an
-- integer whose arithmetic wraps, as in a release build.
pub mod Laws
use Prim.Native.Char.{code}
use Prim.Native.String
use maxgame_admin_guard.Base.{
  ℕ, ◌^◌, String, Bool, true, false, Option, none, some, Result, ok, err, ◌>>=◌, ltb, leb, ◌==◌,
  if◌then◌else◌,
}
use maxgame_admin_guard.Base.Int.{ℤ, pos, neg, ltb_ℤ, add_i64, sub_i64, mul_i64, div_i64, max_ℤ}
use maxgame_admin_guard.Base.Text.{◌<>◌, digits, some_digits}
use maxgame_admin_guard.Template.{DomainError, bad_request, DomainResult}

pub record RawAdminListQuery : Type 0 where
  pub page : Option String
  pub take : Option String

pub record AdminListQuery : Type 0 where
  pub page : ℤ
  pub take : ℤ

abbrev pub default_take : ℤ
default_take = pos 10

abbrev pub max_take : ℤ
max_take = pos 100

-- `AdminListQuery::offset`.
unfoldable pub offset : AdminListQuery → ℤ
offset q = mul_i64 (sub_i64 q.page (pos 1)) q.take

abbrev pub positive : Option ℕ → Option ℤ
positive none = none
positive (some n) = if ltb n (2 ^ 63) then some (pos n) else none

abbrev pub negative : Option ℕ → Option ℤ
negative none = none
negative (some n) = if leb n (2 ^ 63) then some (neg n) else none

-- `str::parse::<i64>`: a sign that may be missing, then digits, in range.
unfoldable pub parse_i64 : String → Option ℤ
unfolding digits
parse_i64 String.[] = none
parse_i64 (String.◌∷◌ c s) =
    if code c == b'-'
    then negative (some_digits s)
    else if code c == b'+'
    then positive (some_digits s)
    else positive (digits 0 (String.◌∷◌ c s))

abbrev pub above : String → ℤ → Option (ℤ × String) → DomainResult ℤ
above field value none = ok value
above field value (some (most, text)) =
    if ltb_ℤ most value
    then err (bad_request (field <> " must not be greater than " <> text))
    else ok value

abbrev pub in_bounds : String → ℤ × String → Option (ℤ × String) → Option ℤ → DomainResult ℤ
in_bounds field least most none = err (bad_request (field <> " must be a number"))
in_bounds field (least, text) most (some value) =
    if ltb_ℤ value least
    then err (bad_request (field <> " must not be less than " <> text))
    else above field value most

-- `bounded_number`; a bound comes with its text.
unfoldable pub bounded_number : String → String → ℤ × String → Option (ℤ × String) → DomainResult ℤ
unfolding parse_i64
bounded_number field raw least most = in_bounds field least most (parse_i64 raw)

abbrev pub page_of : Option String → DomainResult ℤ
page_of none = ok (pos 1)
page_of (some v) = bounded_number "page" v (pos 1, "1") none

abbrev pub take_of : Option String → DomainResult ℤ
take_of none = ok default_take
take_of (some v) = bounded_number "take" v (pos 1, "1") (some (max_take, "100"))

-- `TryFrom<RawAdminListQuery> for AdminListQuery`.
unfoldable pub try_from : RawAdminListQuery → DomainResult AdminListQuery
unfolding bounded_number
try_from raw = do
  page ← page_of raw.page
  take ← take_of raw.take
  ok (record { page = page; take = take })

pub record ListMeta : Type 0 where
  pub page : ℤ
  pub take : ℤ
  pub item_count : ℤ
  pub page_count : ℤ
  pub has_next_page : Bool
  pub has_previous_page : Bool

abbrev pub page_count : AdminListQuery → ℤ → ℤ
page_count q item_count =
    max_ℤ (div_i64 (sub_i64 (add_i64 item_count q.take) (pos 1)) q.take) (pos 1)

-- `ListMeta::new`.
unfoldable pub list_meta : AdminListQuery → ℤ → ListMeta
list_meta q item_count = record {
  page = q.page;
  take = q.take;
  item_count = item_count;
  page_count = page_count q item_count;
  has_next_page = ltb_ℤ q.page (page_count q item_count);
  has_previous_page = ltb_ℤ (pos 1) q.page;
}
