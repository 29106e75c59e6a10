-- ===== src/Gateway/Session.antt =====
-- server/internal/gateway/gateway.go: sessions and CSRF tokens, which stand before every request
-- that is passed on to an agent.
-- The world `W` is all that lies behind the sockets. A call of the session daemon is any function of
-- it that answers `none` for a failed call, and otherwise a status with the decoded body.
pub mod Guard
mod Examples
use lumio_os.Prelude.{
  ℕ, String, Bool, true, false, ◌&&◌, ◌||◌, not, Option, none, some, List, [], ◌∷◌, map,
  if◌then◌else◌, ◌==◌, str_eq, string_eq,
}
use lumio_os.Prelude.Map.{Map, lookup}
use lumio_os.Http.Envelope.{
  ApiError, new_error, code_unauthorized, code_unavailable, code_forbidden, code_validation_failed,
}

pub record User : Type 0 where
  pub name : String
  pub uid : ℕ
  pub gid : ℕ
  pub home : String

pub record SessionInfo : Type 0 where
  pub token : String
  pub csrf : String
  pub user : User
  pub agent_socket : String

-- What the handlers read of a request. `params` are the values of the URL's query.
pub record Request : Type 0 where
  pub method : String
  pub cookies : Map String String
  pub header : Map String String
  pub params : Map String String
  pub secure : Bool

-- r.Header.Get and url.Values.Get answer "" for a missing key.
abbrev pub value_or_empty : Option String → String
value_or_empty none = ""
value_or_empty (some v) = v

pub data Outcome {ℓ} (A : Type ℓ) : Type ℓ where
  ok : A → Outcome A
  rejected : ApiError → Outcome A

infixl 5 ◌>>=◌ ◌>>◌
abbrev pub ◌>>=◌ {ℓ κ} : {A : Type ℓ} {B : Type κ} → Outcome A → (A → Outcome B) → Outcome B
ok a >>= f = f a
rejected e >>= f = rejected e

abbrev pub ◌>>◌ {ℓ} : {B : Type ℓ} → Outcome (Unit {0}) → Outcome B → Outcome B
m >> k = m >>= λ _. k

-- A cookie that a response sets; one with `cleared` has the MaxAge -1, which deletes it.
pub record Cookie : Type 0 where
  pub name : String
  pub value : String
  pub http_only : Bool
  pub secure : Bool
  pub cleared : Bool

pub set_session_cookies : Request → String → String → List Cookie
set_session_cookies r token csrf =
    record {
      name = "lumio_session";
      value = token;
      http_only = true;
      secure = r.secure;
      cleared = false;
    }
    ∷ record {
      name = "lumio_csrf";
      value = csrf;
      http_only = false;
      secure = r.secure;
      cleared = false;
    }
    ∷ []

abbrev clear_cookie : Request → String → Cookie
clear_cookie r name = record {
  name = name;
  value = "";
  http_only = str_eq name "lumio_session";
  secure = r.secure;
  cleared = true;
}

pub clear_session_cookies : Request → List Cookie
clear_session_cookies r = map (clear_cookie r) ("lumio_session" ∷ "lumio_csrf" ∷ [])

-- A call of the session daemon with this path's request `A` and reply `B`.
abbrev pub Daemon {ℓ} : Type ℓ → Type 0 → Type 0 → Type ℓ
Daemon W A B = A → W → Option (ℕ × B) × W

-- The session cookie's value, unless it is missing or empty.
pub session_cookie : Request → Option String
session_cookie r = elim (lookup "lumio_session" r.cookies) [
  | none ↦ none
  | some value ↦ if str_eq value "" then none else some value
]

-- How `requireSession` reads the daemon's reply to /validate.
pub validated : Option (ℕ × SessionInfo) → Outcome SessionInfo
validated none = rejected (new_error code_unavailable "The session daemon is unavailable.")
validated (some (status, sess)) =
    if status == 200
    then ok sess
    else rejected (new_error code_unauthorized "Session expired or unknown.")

module _ {ℓ} {W : Type ℓ} (validate : Daemon W String SessionInfo) where
  pub require_session : Request → W → Outcome SessionInfo × W
  require_session r w = elim (session_cookie r) [
    | none ↦ (rejected (new_error code_unauthorized "No session."), w)
    | some token ↦ let (reply, w') = validate token w in (validated reply, w')
  ]

csrf_failed : ApiError
csrf_failed = new_error code_forbidden "CSRF check failed."

pub check_csrf : Request → SessionInfo → Outcome (Unit {0})
check_csrf r sess =
    let header = value_or_empty (lookup "X-Lumio-CSRF" r.header) in
    if str_eq header "" || not (str_eq header sess.csrf)
    then rejected csrf_failed
    else elim (lookup "lumio_csrf" r.cookies) [
      | none ↦ rejected csrf_failed
      | some value ↦ if not (str_eq value sess.csrf) then rejected csrf_failed else ok tt
    ]

-- r.Method != http.MethodGet && r.Method != http.MethodHead
abbrev pub is_mutating : Request → Bool
is_mutating r = not (str_eq r.method "GET") && not (str_eq r.method "HEAD")

-- The part of `handleAPI` after the session: CSRF, for a request that may change something.
pub guard_api : Request → SessionInfo → Outcome SessionInfo
guard_api r sess = if is_mutating r then (do check_csrf r sess; ok sess) else ok sess

-- The checks of `handleWS` before it dials the agent; `origin_allowed` is the result of
-- `originAllowedWS`.
pub guard_ws : Request → Bool → SessionInfo → Outcome SessionInfo
guard_ws r origin_allowed sess =
    let query = value_or_empty (lookup "csrf" r.params) in
    let header = value_or_empty (lookup "X-Lumio-CSRF" r.header) in
    let csrf = if str_eq query "" then header else query in
    if str_eq csrf "" || not (str_eq csrf sess.csrf)
    then rejected csrf_failed
    else if not origin_allowed
    then rejected (new_error code_forbidden "Origin not allowed.")
    else ok sess

-- How `handleReauth` answers for the daemon's reply to /reauth.
reauth_reply : Option (ℕ × ℕ) → Outcome ℕ
reauth_reply none = rejected (new_error code_unavailable "The session daemon is unavailable.")
reauth_reply (some (status, until)) =
    if status == 401
    then rejected (new_error code_unauthorized "Invalid password.")
    else if not (status == 200)
    then rejected (new_error code_unavailable "Reauthentication is unavailable.")
    else ok until

-- Runs the rest of a handler on a session, in the world that the check left.
abbrev with_session {ℓ κ} :
    {W : Type ℓ} {A : Type κ}
    → Outcome SessionInfo × W
    → (SessionInfo → W → Outcome A × W)
    → Outcome A × W
with_session (ok sess, w) f = f sess w
with_session (rejected e, w) f = (rejected e, w)

module _ {ℓ} {W : Type ℓ} (validate : Daemon W String SessionInfo) where
  -- The agent is any function of the request, with the session's socket and token.
  pub handle_api {κ} :
      {A : Type κ} (agent : SessionInfo → W → Outcome A × W) → Request → W → Outcome A × W
  handle_api agent r w =
      with_session (require_session validate r w)
        λ sess w'. with_session (guard_api r sess, w') agent

  pub handle_session : Request → W → Outcome User × W
  handle_session r w = with_session (require_session validate r w) λ sess w'. (ok sess.user, w')

  -- `password` is `none` if the body is no JSON object.
  pub handle_reauth :
      (reauth : Daemon W (String × String) ℕ) → Option String → Request → W → Outcome ℕ × W
  unfolding reauth_reply
  handle_reauth reauth password r w = with_session (require_session validate r w) λ sess w'.
      elim (check_csrf r sess) [
        | rejected e ↦ (rejected e, w')
        | ok _ ↦ elim password [
          | none ↦ (rejected (new_error code_validation_failed "Body must be a JSON object."), w')
          | some p ↦ let (reply, w'') = reauth (sess.token, p) w' in (reauth_reply reply, w'')
        ]
      ]

  -- The cookies are cleared whatever the daemon answers.
  pub handle_logout : (logout : Daemon W String (Unit {0})) → Request → W → List Cookie × W
  unfolding clear_session_cookies
  handle_logout logout r w = elim (session_cookie r) [
    | none ↦ (clear_session_cookies r, w)
    | some token ↦ (clear_session_cookies r, (logout token w).1)
  ]
