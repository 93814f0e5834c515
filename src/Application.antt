-- ===== src/Application.antt =====
-- app/src/main.cpp: what the arguments of the program say. The rest of `main` makes the parts and gives
-- them to each other; Persistence.SqliteWriter holds the store that it gives to the writer.
mod Tests
use clear_space.Prelude.{ℕ, ◌%◌, ◌^◌, String, Option, none, some, List, [], ◌∷◌}

pub record Settings : Type 0 where
  pub port : ℕ
  pub db_path : String

-- The arguments behind the program's name. `stoi` gives the 32-bit pattern of an int, or `none` if it
-- throws, which ends `main`.
module _ (stoi : String → Option ℕ) where
  port_of : List String → Option ℕ
  port_of [] = some 5555
  port_of (arg ∷ args) = elim (stoi arg) [ none ↦ none | some n ↦ some (n % 2 ^ 16) ]

  db_path_of : List String → String
  db_path_of [] = "clearspace_snapshots.db"
  db_path_of (port ∷ []) = "clearspace_snapshots.db"
  db_path_of (port ∷ path ∷ args) = path

  pub settings : List String → Option Settings
  unfolding port_of db_path_of
  settings args = elim (port_of args) [
    | none ↦ none
    | some port ↦ some (record { port = port; db_path = db_path_of args })
  ]
