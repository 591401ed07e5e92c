-- ===== src/Template/Service/Table.antt =====
-- template/src/inbound/router.rs: the table of the built router.
use Prim.Native.String.{count}
use text.Mathlib.TextLemmas.{nil-append, length-append, length-eq-zero_iff, append_cancel_left}
use maxgame_admin_guard.Base.{
  ◌<◌, String, ◌≡◌, ◌≢◌, inl, inr, refl, sym, ap, ◌∙◌, Bool, ◌||◌, some-injective, true, false,
  none, some, List, ◌++◌, arith, Bool-cases,
}
use maxgame_admin_guard.Base.Text.{
  ◌<>◌, is_empty, is_empty-eq, starts_with, str_eq, eq_iff, lacks, lacks-append,
}
use maxgame_admin_guard.Template.Config.{Config, no_trailing_slash}
use maxgame_admin_guard.Template.Service.Router.{
  Route, list_public_handler, list_admin_handler, create_admin_handler, build_router, first_match,
  prefixed, route_layer, health_routes, public_routes, admin_routes,
}
use maxgame_admin_guard.Template.Service.Laws.{AllLiteral, is_literal}

differ : (s t : String) → s ≢ t → str_eq s t ≡ false
differ s t n = elim (Bool-cases (str_eq s t)) [ inl e ↦ absurd (n ((eq_iff s t).0 e)) | inr e ↦ e ]

unlike : (s t : String) → str_eq s t ≡ false → s ≢ t
unlike s t h e = cc (h, (eq_iff s t).1 e)

longer : (s base t : String) → count s < count t → str_eq s (base <> t) ≡ false
longer s base t h =
    differ s (base <> t)
      (λ e. omega (arith, ap (λ (x : String). count x) e, length-append base t, h))

-- A text of the same length as another, under a base, is not it.
as_long : (s base t : String) → count s ≡ count t → s ≢ t → str_eq s (base <> t) ≡ false
as_long s base t h n = differ s (base <> t) (λ e.
    let none_there : count base ≡ 0 =
      omega (arith, ap (λ (x : String). count x) e, length-append base t, h) in
    n (e ∙ ap (λ (x : String). x <> t) (length-eq-zero_iff.0 none_there) ∙ nil-append t))

-- A base path that axum takes as it is: no pattern, and empty or rooted without a slash at its end.
pub record IsPlain (base : String) : Type 0 where
  pub literal : is_literal base ≡ true
  pub rooted : (is_empty base || starts_with base "/") ≡ true
  pub open_ended : no_trailing_slash base ≡ base

-- `Router::nest` does not panic at a plain path that is not empty.
abbrev pub Nests : (String → Bool) → Type 0
Nests nestable = (base : String) → IsPlain base → is_empty base ≡ false → nestable base ≡ true

-- The table, with each path but health's under a base that may be empty.
unfoldable pub table_at : String → List Route
unfolding health_routes public_routes admin_routes
table_at base = health_routes ++ prefixed base (public_routes ++ route_layer admin_routes)

module _ (nestable : String → Bool) (config : Config) where
  bare-table :
      (base : String)
      → is_empty base ≡ true
      → health_routes ++ (public_routes ++ route_layer admin_routes) ≡ table_at base
  unfolding table_at health_routes public_routes admin_routes
  bare-table base e =
      ap (λ (b : String). health_routes ++ prefixed b (public_routes ++ route_layer admin_routes))
        (sym (is_empty-eq base e))

  build_router-bare :
      is_empty config.base_path ≡ true
      → build_router nestable config ≡ some (table_at config.base_path)
  unfolding build_router
  build_router-bare e = rw e (ap (λ r. some r) (bare-table config.base_path e))

  build_router-nested :
      is_empty config.base_path ≡ false
      → nestable config.base_path ≡ true
      → build_router nestable config ≡ some (table_at config.base_path)
  unfolding build_router table_at
  build_router-nested e n = rw (e, n) refl

  build_router-panics :
      is_empty config.base_path ≡ false
      → nestable config.base_path ≡ false
      → build_router nestable config ≡ none
  unfolding build_router
  build_router-panics e n = rw (e, n) refl

  -- A router that is built has this table, and one with a plain base path is built.
  pub built-table :
      (routes : List Route)
      → build_router nestable config ≡ some routes
      → routes ≡ table_at config.base_path
  built-table routes h = elim (Bool-cases (is_empty config.base_path)) [
    | inl e ↦ some-injective (sym h ∙ build_router-bare e)
    | inr e ↦ elim (Bool-cases (nestable config.base_path)) [
      | inl n ↦ some-injective (sym h ∙ build_router-nested e n)
      | inr n ↦ cc (h, build_router-panics e n)
    ]
  ]

  pub IsPlain-built :
      Nests nestable
      → IsPlain config.base_path
      → build_router nestable config ≡ some (table_at config.base_path)
  IsPlain-built nests plain = elim (Bool-cases (is_empty config.base_path)) [
    | inl e ↦ build_router-bare e
    | inr e ↦ build_router-nested e (nests config.base_path plain e)
  ]

is_literal-append :
    (s t : String) → is_literal s ≡ true → is_literal t ≡ true → is_literal (s <> t) ≡ true
is_literal-append s t h k = ground (
  arith,
  h,
  k,
  lacks-append b'{' s t,
  lacks-append b'}' s t,
  lacks-append b':' s t,
  lacks-append b'*' s t,
)

pub table-AllLiteral : (base : String) → is_literal base ≡ true → AllLiteral (table_at base)
unfolding table_at health_routes public_routes admin_routes
table-AllLiteral base h =
    let under : (t : String) → is_literal t ≡ true → is_literal (base <> t) ≡ true =
      λ t k. is_literal-append base t h k in
    unfold lacks in
    (
      refl,
      (
        refl,
        (under "/example" refl, (under "/admin/example" refl, (under "/admin/example" refl, tt))),
      ),
    )

pub first_match-public :
    (base : String)
    → first_match (table_at base) (base <> "/example") "GET"
      ≡ some (record {
        path = base <> "/example";
        method = "GET";
        handler = list_public_handler;
        guarded = false;
      })
unfolding first_match table_at health_routes public_routes admin_routes
first_match-public base = ground (
  arith,
  as_long "/healthz" base "/example" refl (unlike "/healthz" "/example" refl),
  longer "/readyz" base "/example" (omega arith),
  (eq_iff (base <> "/example") (base <> "/example")).1 refl,
)

apart : (base : String) → base <> "/example" ≢ base <> "/admin/example"
apart base e =
    unlike "/example" "/admin/example" refl (append_cancel_left base "/example" "/admin/example" e)

pub first_match-list :
    (base : String)
    → first_match (table_at base) (base <> "/admin/example") "GET"
      ≡ some (record {
        path = base <> "/admin/example";
        method = "GET";
        handler = list_admin_handler;
        guarded = true;
      })
unfolding first_match table_at health_routes public_routes admin_routes
first_match-list base = ground (
  arith,
  longer "/healthz" base "/admin/example" (omega arith),
  longer "/readyz" base "/admin/example" (omega arith),
  differ (base <> "/example") (base <> "/admin/example") (apart base),
  (eq_iff (base <> "/admin/example") (base <> "/admin/example")).1 refl,
)

pub first_match-create :
    (base : String)
    → first_match (table_at base) (base <> "/admin/example") "POST"
      ≡ some (record {
        path = base <> "/admin/example";
        method = "POST";
        handler = create_admin_handler;
        guarded = true;
      })
unfolding first_match table_at health_routes public_routes admin_routes
first_match-create base = ground (
  arith,
  longer "/healthz" base "/admin/example" (omega arith),
  longer "/readyz" base "/admin/example" (omega arith),
  differ (base <> "/example") (base <> "/admin/example") (apart base),
  (eq_iff (base <> "/admin/example") (base <> "/admin/example")).1 refl,
)
