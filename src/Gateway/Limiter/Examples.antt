-- ===== src/Gateway/Limiter/Examples.antt =====
-- Tests of the limiter, and the theorems at concrete inputs.
use lumio_os.Prelude.{
  ℕ, zero, suc, ◌≡◌, ◌≢◌, refl, String, List, [], ◌∷◌, ◌*◌, ◌-◌, arith, eq_iff, string_eq,
}
use lumio_os.Prelude.Map.{lookup, insert, delete}
use lumio_os.Gateway.Limiter.{second, entry_or_new, penalty, bump, blocked, record_failure, reset}
use lumio_os.Gateway.Limiter.Delay.{penalty_doubles, penalty_vanishes}
use lumio_os.Gateway.Limiter.History.{
  Event, failure, success, run, run_count, lockout, lockout_lost,
}

-- n failures of the key "u|ip" at time 5.
abbrev failed : ℕ → List Event
failed zero = []
failed (suc n) = failure "u|ip" 5 ∷ failed n

third_failure : blocked (run (failed 3)) "u|ip" 5 ≡ 2 * second
unfolding blocked record_failure bump penalty lookup insert
third_failure = refl

-- The 36th failure in a row gives a negative delay.
lost_at_36 : blocked (run (failed 36)) "u|ip" 5 ≡ 0
unfolding blocked record_failure bump penalty lookup insert
lost_at_36 = refl

after_success : blocked (run (failure "u|ip" 5 ∷ success "u|ip" ∷ failed 9)) "u|ip" 6 ≡ 0
unfolding blocked record_failure reset bump penalty lookup insert delete
after_success = refl

lockout_example : blocked (run (failed 3)) "u|ip" 6 ≡ 2 * second - 1
lockout_example = lockout (failed 2) "u|ip" 5 6 (omega arith) (omega arith) (omega arith)

lockout_lost_example : blocked (run (failed 57)) "u|ip" 6 ≡ 0
lockout_lost_example = lockout_lost (failed 56) "u|ip" 5 6 (omega arith) (omega arith)

w_ne_u : ◌≢◌ {A = String} "w|ip" "u|ip"
w_ne_u = ground (arith, eq_iff "w|ip" "u|ip")

penalty_doubles_example : penalty 8 ≡ 60 * second
penalty_doubles_example = penalty_doubles 5 (omega arith)

penalty_vanishes_example : penalty 100 ≡ 0
penalty_vanishes_example = penalty_vanishes 43

run_count_example : (entry_or_new (lookup "u|ip" (run (failed 4)))).count ≡ 4
run_count_example = run_count "u|ip" (failed 4)
