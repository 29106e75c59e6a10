-- ===== src/Prelude/Sort.antt =====
-- Sorting by an order in which two elements are equal only if they are the same, so that every sort
-- gives the one list that `sorted` gives; and the order of Go's strings, that of their code points.
use Prim.Native.Nat.{ℕ}
use mathlib.Core.Bool.{Bool, true, false, ◌&&◌, ◌||◌}
use mathlib.Core.List.{List, [], ◌∷◌}
use lumio_os.Prelude.Tests.{ltb, ◌==◌, if◌then◌else◌}

unfoldable pub before : List ℕ → List ℕ → Bool
before [] [] = false
before [] (_ ∷ _) = true
before (_ ∷ _) [] = false
before (a ∷ xs) (b ∷ ys) = ltb a b || (a == b && before xs ys)

module _ {ℓ} {A : Type ℓ} (less : A → A → Bool) where
  unfoldable pub place : A → List A → List A
  place x [] = x ∷ []
  place x (y ∷ ys) = let rest = place x ys in if less y x then y ∷ rest else x ∷ y ∷ ys

  unfoldable pub sorted : List A → List A
  unfolding place
  sorted [] = []
  sorted (x ∷ xs) = place x (sorted xs)
