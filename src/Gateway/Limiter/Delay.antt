-- ===== src/Gateway/Limiter/Delay.antt =====
-- The delay as a function of the number of failures.
use Prim.Native.Nat.{min}
use native.Mathlib.Nat.{pow-suc}
use lumio_os.Prelude.{
  ℕ, zero, suc, ◌+◌, ◌-◌, ◌*◌, ◌%◌, ◌^◌, ◌<◌, ◌≡◌, refl, Bool, true, ◌&&◌, arith, ◌==◌, ==_iff,
}
use lumio_os.Gateway.Limiter.{second, shift_one, penalty}

abbrev doubling : ℕ → ℕ
doubling k = min (2 ^ (k + 1)) 60 * second

-- The delays of the failures 3, 4, ... up to `limit` of them, compared one by one.
doubles_until : ℕ → Bool
doubles_until zero = true
doubles_until (suc limit) = (penalty (limit + 3) == doubling limit) && doubles_until limit

doubles_below :
    (limit k : ℕ) → doubles_until limit ≡ true → k < limit → penalty (k + 3) ≡ doubling k
unfolding doubles_until
doubles_below zero k table h = absurd (omega arith)
doubles_below (suc limit) k table h =
    ground (arith, ==_iff (penalty (limit + 3)) (doubling limit), doubles_below limit k)

doubling_table : doubles_until 33 ≡ true
unfolding doubles_until penalty
doubling_table = refl

-- From the third to the 35th failure in a row the delay is 2 seconds doubled each time, and at most
-- a minute.
pub penalty_doubles : (k : ℕ) → k < 33 → penalty (k + 3) ≡ min (2 ^ (k + 1)) 60 * second
penalty_doubles k h = doubles_below 33 k doubling_table h

pow_split : (j : ℕ) → 2 ^ (55 + j) ≡ 2 ^ 55 * 2 ^ j
pow_split zero = refl
pow_split (suc j) =
    let e : 55 + suc j ≡ suc (55 + j) = omega arith in
    rw e (rw (pow-suc 2 (55 + j), pow-suc 2 j, pow_split j) (omega arith))

shift_one_second : (x : ℕ) → ((2 ^ 55 * x) % 2 ^ 64 * second) % 2 ^ 64 ≡ 0
shift_one_second x = omega arith

delay_vanishes : (k : ℕ) → (shift_one (k + 57 - 3 + 1) * second) % 2 ^ 64 ≡ 0
delay_vanishes k =
    let e : k + 57 - 3 + 1 ≡ 55 + k = omega arith in rw e (rw pow_split (shift_one_second (2 ^ k)))

-- From the 57th failure in a row on the product wraps to 0, and there is no delay.
pub penalty_vanishes : (k : ℕ) → penalty (k + 57) ≡ 0
unfolding penalty
penalty_vanishes k = rw (delay_vanishes k)
