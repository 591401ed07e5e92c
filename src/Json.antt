-- ===== src/Json.antt =====
-- `serde_json::Value`, as far as the code matches on it, and what the code calls of serde_json.
-- An object's entries are listed in the order in which its map is iterated; a number is kept as
-- its text. Parsing, printing and number conversion are the library's, hence a parameter.
use maxgame_admin_guard.Base.{String, Bool, Option, none, some, List, [], ◌∷◌, if◌then◌else◌}
use maxgame_admin_guard.Base.Int.{ℤ}
use maxgame_admin_guard.Base.Text.{str_eq}

mutual
  pub data Value : Type 0 where
    null : Value
    bool : Bool → Value
    number : String → Value
    string : String → Value
    array : Items → Value
    object : Entries → Value

  pub data Items : Type 0 where
    nil : Items
    cons : Value → Items → Items

  pub data Entries : Type 0 where
    end : Entries
    entry : String → Value → Entries → Entries

abbrev pub items : Items → List Value
items nil = []
items (cons v vs) = v ∷ items vs

abbrev pub keys : Entries → List String
keys end = []
keys (entry k v es) = k ∷ keys es

-- `Map::get`.
unfoldable pub get : String → Entries → Option Value
get k end = none
get k (entry j v es) = if str_eq j k then some v else get k es

-- `Value::to_string` and `Value::as_i64`.
pub record Serde : Type 0 where
  pub to_string : Value → String
  pub as_i64 : Value → Option ℤ
