-- ===== src/Application/Tests.antt =====
-- Settings from arguments, with a stoi that knows two numbers.
use text.Mathlib.Text.{◌==◌ as str_eq}
use clear_space.Prelude.{ℕ, ◌≡◌, refl, String, Option, none, some, [], ◌∷◌, if◌then◌else◌}
use clear_space.Application.{settings, port_of, db_path_of}

abbrev small_stoi : String → Option ℕ
small_stoi arg =
    if str_eq arg "8080" then some 8080 else if str_eq arg "70000" then some 70000 else none

defaults :
    settings small_stoi [] ≡ some (record { port = 5555; db_path = "clearspace_snapshots.db" })
unfolding settings port_of db_path_of
defaults = refl

both :
    settings small_stoi ("8080" ∷ "boards.db" ∷ [])
    ≡ some (record { port = 8080; db_path = "boards.db" })
unfolding settings port_of db_path_of
both = refl

-- A number above the ports is taken modulo 2^16.
wrapped :
    settings small_stoi ("70000" ∷ [])
    ≡ some (record { port = 4464; db_path = "clearspace_snapshots.db" })
unfolding settings port_of db_path_of
wrapped = refl

not_a_number : settings small_stoi ("http" ∷ []) ≡ none
unfolding settings port_of db_path_of
not_a_number = refl
