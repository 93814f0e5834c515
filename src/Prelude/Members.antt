-- ===== src/Prelude/Members.antt =====
-- std::unordered_set of 64-bit ids, as a list without repetitions.
use Prim.Native.Nat.{ℕ}
use mathlib.Core.Path.{◌≡◌, refl}
use mathlib.Core.Bool.{Bool, true, false, ◌||◌}
use mathlib.Core.List.{List, [], ◌∷◌}
use native.Mathlib.Omega.{arith}
use clear_space.Prelude.Tests.{◌==◌, if◌then◌else◌}

-- s.find(x) != s.end()
unfoldable pub contains : List ℕ → ℕ → Bool
contains [] x = false
contains (y ∷ ys) x = y == x || contains ys x

-- s.insert(x)
unfoldable pub insert : List ℕ → ℕ → List ℕ
insert [] x = x ∷ []
insert (y ∷ ys) x = if y == x then y ∷ ys else y ∷ insert ys x

-- s.erase(x)
unfoldable pub remove : List ℕ → ℕ → List ℕ
remove [] x = []
remove (y ∷ ys) x = let rest = remove ys x in if y == x then rest else y ∷ rest

-- No id stands twice.
abbrev pub IsUnique : List ℕ → Type 0
IsUnique [] = Unit {0}
IsUnique (x ∷ xs) = (contains xs x ≡ false) × IsUnique xs

pub contains-nil : (x : ℕ) → contains [] x ≡ false
unfolding contains
contains-nil x = refl

pub contains-insert :
    (xs : List ℕ) (x y : ℕ) → contains (insert xs x) y ≡ (if x == y then true else contains xs y)
unfolding contains insert
contains-insert [] x y = ground arith
contains-insert (z ∷ xs) x y = ground (arith, contains-insert xs x y)

pub contains-remove :
    (xs : List ℕ) (x y : ℕ) → contains (remove xs x) y ≡ (if x == y then false else contains xs y)
unfolding contains remove
contains-remove [] x y = ground arith
contains-remove (z ∷ xs) x y = ground (arith, contains-remove xs x y)

pub insert-IsUnique : (xs : List ℕ) (x : ℕ) → IsUnique xs → IsUnique (insert xs x)
unfolding insert
insert-IsUnique [] x u = (contains-nil x, tt)
insert-IsUnique (z ∷ xs) x u = ground (arith, contains-insert xs x z, insert-IsUnique xs x)

pub remove-IsUnique : (xs : List ℕ) (x : ℕ) → IsUnique xs → IsUnique (remove xs x)
unfolding remove
remove-IsUnique [] x u = tt
remove-IsUnique (z ∷ xs) x u = ground (arith, contains-remove xs x z, remove-IsUnique xs x)
