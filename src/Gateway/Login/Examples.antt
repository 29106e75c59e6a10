-- ===== src/Gateway/Login/Examples.antt =====
-- The delay of password guesses at a concrete login.
use lumio_os.Prelude.{ℕ, ◌+◌, ◌-◌, ◌*◌, ◌^◌, ◌≡◌, refl, some, List, [], ◌∷◌, arith, string_eq}
use Prim.Native.Nat.{min}
use lumio_os.Prelude.Map.{lookup, insert}
use lumio_os.Gateway.Limiter.{second, blocked, record_failure, bump}
use lumio_os.Gateway.Session.{rejected, Daemon}
use lumio_os.Gateway.Login.{Credentials, LoginReply, limiter_key, too_many, conclude, handle_login}
use lumio_os.Gateway.Login.Throttle.{
  Attempt, wrong, verdict, answer, attempts, wrong_in_row, guesses_delayed,
}

abbrev guess : Credentials
guess = record { username = "alice"; password = "letmein" }

-- A daemon that rejects every password.
abbrev reject_all : Daemon ℕ Credentials LoginReply
reject_all c n = (
  some (
    401,
    record { token = ""; csrf = ""; user = record { name = ""; uid = 0; gid = 0; home = "" } },
  ),
  n + 1,
)

abbrev at : ℕ → Attempt
at n = record { body = some guess; ip = "::1"; before = n; after = n }

abbrev two : List Attempt
two = at 3 ∷ at 2 ∷ []

two_wrong : wrong_in_row reject_all "alice|::1" two 0 ≡ 2
unfolding handle_login conclude limiter_key blocked record_failure bump lookup insert
two_wrong = refl

third_wrong : verdict (answer reject_all (at 4) two 0) ≡ wrong
unfolding handle_login conclude limiter_key blocked record_failure bump lookup insert
third_wrong = refl

guesses_delayed_example :
    let s = attempts reject_all (at 4 ∷ two) 0 in
    handle_login reject_all (some guess) "::1" 5 6 s.0 s.1 ≡ (
      rejected (
          too_many (4 + min (2 ^ (wrong_in_row reject_all "alice|::1" two 0 - 1)) 60 * second - 5)),
      s.0,
      s.1,
    )
unfolding limiter_key
guesses_delayed_example =
    guesses_delayed reject_all two (at 4) guess guess 5 6 0 refl refl third_wrong
      (omega (arith, two_wrong)) (omega (arith, two_wrong)) (omega arith)
      (rw two_wrong (omega arith))
