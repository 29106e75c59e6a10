-- ===== src/Gateway/Login.antt =====
-- server/internal/gateway/gateway.go: `handleLogin`, which joins the limiter to the session daemon.
pub mod Throttle
mod Examples
use Prim.Native.String
use lumio_os.Prelude.{
  ℕ, ◌/◌, String, Bool, not, Option, none, some, List, [], ◌∷◌, ltb, if◌then◌else◌, ◌==◌,
}
use lumio_os.Http.Envelope.{
  ApiError, new_error, number, code_unauthorized, code_unavailable, code_validation_failed,
  code_busy,
}
use lumio_os.Gateway.Limiter.{Limiter, blocked, record_failure, reset}
use lumio_os.Gateway.Session.{User, Outcome, ok, rejected, Daemon}

pub record Credentials : Type 0 where
  pub username : String
  pub password : String

-- The decoded body of the daemon's reply to /login.
pub record LoginReply : Type 0 where
  pub token : String
  pub csrf : String
  pub user : User

-- The user name and the client's address name one counter of the limiter.
unfoldable pub limiter_key : String → String → String
limiter_key username ip = String.◌++◌ username (String.◌++◌ "|" ip)

-- `err.Details["retryAfterMs"]` is `retryAfter.Milliseconds()`.
pub too_many : ℕ → ApiError
too_many retry_after = record {
  code = code_busy;
  message = "Too many failed attempts; retry later.";
  details = ("retryAfterMs", number (retry_after / 1000000)) ∷ [];
}

-- What `handleLogin` makes of the daemon's reply.
pub conclude : Limiter → String → ℕ → Option (ℕ × LoginReply) → Outcome LoginReply × Limiter
conclude l key now none =
    (rejected (new_error code_unavailable "The session daemon is unavailable."), l)
conclude l key now (some (status, reply)) =
    if status == 401
    then (
      rejected (new_error code_unauthorized "Invalid username or password."),
      record_failure l key now,
    )
    else if not (status == 200)
    then (rejected (new_error code_unavailable "Login is unavailable."), l)
    else (ok reply, reset l key)

module _ {ℓ} {W : Type ℓ} (login : Daemon W Credentials LoginReply) where
  -- The body, `none` if it is no JSON object, and the client's address; the times at which the
  -- limiter reads the clock, before and after the call of the daemon.
  pub handle_login :
      Option Credentials → String → ℕ → ℕ → Limiter → W → Outcome LoginReply × Limiter × W
  unfolding limiter_key too_many conclude
  handle_login none ip before after l w =
      (rejected (new_error code_validation_failed "Body must be a JSON object."), l, w)
  handle_login (some c) ip before after l w =
      let key = limiter_key c.username ip in
      let retry_after = blocked l key before in
      let (reply, w') = login c w in
      let (outcome, l') = conclude l key after reply in
      if ltb 0 retry_after then (rejected (too_many retry_after), l, w) else (outcome, l', w')
