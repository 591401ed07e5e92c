-- ===== src/Template/Repo.antt =====
-- template/src/domain/mod.rs and template/src/adapters: the rows and the statements that the
-- service sends. Postgres is a parameter, which takes each statement as the data that the source
-- binds to it; an error is none for a missing row, or the text of another error.
pub mod Order
pub mod Laws
use maxgame_admin_guard.Base.{
  ℕ, suc, String, Bool, true, false, not, ◌||◌, Option, List, [], ◌∷◌, Result, map_err, Call,
  if◌then◌else◌,
}
use maxgame_admin_guard.Base.Int.{ℤ}
use maxgame_admin_guard.Base.Text.{◌<>◌}
use maxgame_admin_guard.Template.{DomainError, internal, DomainResult, from_database_error}

-- `created_at` is the instant in microseconds.
pub record ExampleItem : Type 0 where
  pub id : String
  pub name : String
  pub is_public : Bool
  pub created_at : ℕ

-- SELECT … WHERE (NOT public_only) OR is_public ORDER BY created_at DESC LIMIT limit OFFSET offset.
pub record Select : Type 0 where
  pub public_only : Bool
  pub limit : ℤ
  pub offset : ℤ

-- The statements, over a world that holds the database.
pub record Postgres (W : Type 0) : Type 0 where
  pub fetch_all : Select → W → Result (Option String) (List ExampleItem) × W
  pub fetch_count : Bool → W → Result (Option String) ℤ × W
  pub insert_row : String → Bool → W → Result (Option String) ExampleItem × W
  pub fetch_row : String → W → Result (Option String) (Option ExampleItem) × W
  pub select_one : W → Result (Option String) (Unit {0}) × W

-- The WHERE clause of the two queries.
abbrev pub is_visible : Bool → ExampleItem → Bool
is_visible public_only item = not public_only || item.is_public

unfoldable pub visible : Bool → List ExampleItem → List ExampleItem
visible public_only [] = []
visible public_only (x ∷ xs) =
    if is_visible public_only x then x ∷ visible public_only xs else visible public_only xs

-- `?` on a statement's result, through `From<sqlx::Error>`.
unfoldable pub or_domain_error :
    {W A : Type 0} → Result (Option String) A × W → Result DomainError A × W
unfolding from_database_error
or_domain_error (r, w) = (map_err from_database_error r, w)

module _ {W : Type 0} (db : Postgres W) where
  -- `ExampleRepo::list`.
  unfoldable pub list : Bool → ℤ → ℤ → Call W DomainError (List ExampleItem)
  unfolding or_domain_error
  list public_only limit offset w =
      or_domain_error
        (db.fetch_all (record { public_only = public_only; limit = limit; offset = offset }) w)

  unfoldable pub count : Bool → Call W DomainError ℤ
  unfolding or_domain_error
  count public_only w = or_domain_error (db.fetch_count public_only w)

  unfoldable pub create : String → Bool → Call W DomainError ExampleItem
  unfolding or_domain_error
  create name is_public w = or_domain_error (db.insert_row name is_public w)

  unfoldable pub get : String → Call W DomainError (Option ExampleItem)
  unfolding or_domain_error
  get id w = or_domain_error (db.fetch_row id w)

-- `postgres::connect` and `postgres::migrate`, of the driver's pool and its migrations.
pub record Driver (W Pool : Type 0) : Type 0 where
  pub connect_lazy :
      (database_url : String) (max_connections acquire_timeout : ℕ) → Result String Pool
  pub run_migrations : Pool → W → Result String (Unit {0}) × W

abbrev pub acquire_timeout : ℕ
acquire_timeout = 10

module _ {W Pool : Type 0} (driver : Driver W Pool) where
  unfoldable pub connect : String → ℕ → DomainResult Pool
  connect database_url max_connections =
      map_err (λ e. internal ("cannot configure database pool: " <> e))
        (driver.connect_lazy database_url max_connections acquire_timeout)

  unfoldable pub migrate : Pool → Call W DomainError (Unit {0})
  migrate pool w =
      let (r, w') = driver.run_migrations pool w in
      (map_err (λ e. internal ("migration failed: " <> e)) r, w')
