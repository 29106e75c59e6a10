-- ===== src/Prelude/Int.antt =====
-- Signed integers, as far as the program compares them with bounds that are not negative.
use Prim.Native.Nat.{ℕ}
use mathlib.Core.Bool.{Bool, true, false}
use mathlib.Core.Path.{◌≡◌, ap}
use mathlib.Core.Logic.{◌↔◌}
use lumio_os.Prelude.Tests.{ltb, ◌==◌, ==_iff, Eq}

-- `negsuc n` is -(n + 1).
pub data ℤ : Type 0 where
  pos : ℕ → ℤ
  negsuc : ℕ → ℤ

-- i < n
abbrev pub below : ℤ → ℕ → Bool
below (pos i) n = ltb i n
below (negsuc i) n = true

-- n < i
abbrev pub above : ℤ → ℕ → Bool
above (pos i) n = ltb n i
above (negsuc i) n = false

abbrev equal : ℤ → ℤ → Bool
equal (pos i) (pos j) = i == j
equal (negsuc i) (negsuc j) = i == j
equal i j = false

pub equal_iff : (i j : ℤ) → (equal i j ≡ true) ↔ (i ≡ j)
equal_iff (pos i) (pos j) = (λ e. ap pos ((==_iff i j).0 e), λ e. (==_iff i j).1 (cc e))
equal_iff (negsuc i) (negsuc j) = (λ e. ap negsuc ((==_iff i j).0 e), λ e. (==_iff i j).1 (cc e))
equal_iff (pos i) (negsuc j) = (λ e. absurd (cc e), λ e. absurd (cc e))
equal_iff (negsuc i) (pos j) = (λ e. absurd (cc e), λ e. absurd (cc e))

instance abbrev pub int_eq : Eq ℤ
int_eq = record { beq = equal; beq_iff = equal_iff }
