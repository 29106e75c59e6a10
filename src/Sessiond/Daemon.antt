-- ===== src/Sessiond/Daemon.antt =====
-- server/internal/sessiond/sessiond.go, and `ensureAgent` and `stopAgentIfIdle` of agent.go.
-- Times are nanoseconds since the year 1, where Go's zero time lies. Each handler runs in one piece,
-- with what it reads of the clock, of the random source and of other processes as arguments. The
-- mutex `d.mu` is the field `locked`: it stays set only where a handler leaves without unlocking it.
pub mod Access
pub mod Deadlock
pub mod Expiry
pub mod Reauth
mod Examples
use lumio_os.Prelude.{
  ℕ, ◌+◌, ◌-◌, ◌*◌, String, Bool, true, false, ◌&&◌, ◌||◌, not, Option, none, some, List, [], ◌∷◌,
  ltb, leb, if◌then◌else◌, ◌==◌, str_eq, string_eq, nat_eq,
}
use lumio_os.Prelude.Map.{Map, lookup, insert, delete, count_where}
use lumio_os.Prelude.Text.{codes, all_in, is_digit, is_lower, is_upper}
use lumio_os.Gateway.Session.{User}

abbrev pub day : ℕ
day = 24 * 3600 * 1000000000

abbrev pub idle_expiry : ℕ
idle_expiry = 7 * day

abbrev pub absolute_expiry : ℕ
absolute_expiry = 30 * day

abbrev pub reauth_window : ℕ
reauth_window = 5 * 60 * 1000000000

pub record Session : Type 0 where
  pub token : String
  pub csrf : String
  pub user : User
  pub created_at : ℕ
  pub last_seen_at : ℕ
  pub reauth_until : ℕ

pub record AgentProc : Type 0 where
  pub socket_path : String
  pub dead : Bool

pub record Daemon : Type 0 where
  pub insecure_dev_auth : String
  pub locked : Bool
  pub sessions : Map String Session
  pub agents : Map ℕ AgentProc

-- The other parties: PAM, the user database, and the start of an agent process.
pub record Host : Type 0 where
  pub pam_available : Bool
  pub authenticate : String → String → Bool
  pub lookup_user : String → Option User
  pub spawn_agent : ℕ → Option AgentProc

-- How a request ends: with a status and a body, in a panic, or never, at the mutex.
pub data Reply {ℓ} (A : Type ℓ) : Type ℓ where
  answered : A → Reply A
  refused : ℕ → Reply A
  panicked : Reply A
  stuck : Reply A

-- ^[a-zA-Z0-9._-]+$
abbrev is_name_char : ℕ → Bool
is_name_char c = is_lower c || is_upper c || is_digit c || c == b'.' || c == b'_' || c == b'-'

pub valid_username : String → Bool
valid_username name = not (str_eq name "") && all_in is_name_char (codes name)

-- ensureAgent: the running agent of the user, or a new one.
pub ensure_agent : Host → Daemon → ℕ → Reply String × Daemon
ensure_agent host d uid =
    let fresh : Reply String × Daemon = elim (host.spawn_agent uid) [
      | none ↦ (refused 503, d)
      | some proc ↦ (answered proc.socket_path, record d { agents = insert uid proc d.agents })
    ] in
    elim (lookup uid d.agents) [
      | none ↦ fresh
      | some proc ↦ if not proc.dead then (answered proc.socket_path, d) else fresh
    ]

-- The login is let in by the development setting, or by PAM: 0, or the status of the refusal.
pub admit : Host → Daemon → String → String → ℕ
admit host d username password =
    if not (valid_username username)
    then 401
    else if not (str_eq d.insecure_dev_auth "")
    then (if str_eq username d.insecure_dev_auth then 0 else 401)
    else if not host.pam_available
    then 503
    else if host.authenticate username password
    then 0
    else 401

pub record Tokens : Type 0 where
  pub token : String
  pub csrf : String

abbrev new_session : Tokens → User → ℕ → Session
new_session t user now = record {
  token = t.token;
  csrf = t.csrf;
  user = user;
  created_at = now;
  last_seen_at = now;
  reauth_until = 0;
}

-- The session is stored once the agent runs.
store_session : Tokens → User → ℕ → Reply String × Daemon → Reply Session × Daemon
store_session t user now (answered socket, d) =
    let sess = new_session t user now in
    (answered sess, record d { sessions = insert t.token sess d.sessions })
store_session t user now (refused status, d) = (refused status, d)
store_session t user now (panicked, d) = (panicked, d)
store_session t user now (stuck, d) = (stuck, d)

pub handle_login : Host → Tokens → ℕ → String → String → Daemon → Reply Session × Daemon
unfolding store_session
handle_login host t now username password d =
    let status = admit host d username password in
    if not (status == 0) then (refused status, d) else elim (host.lookup_user username) [
      | none ↦ (refused 401, d)
      | some user ↦
          if d.locked then (stuck, d) else store_session t user now (ensure_agent host d user.uid)
    ]

-- The session is past one of its two limits.
pub is_expired : Session → ℕ → Bool
is_expired sess now =
    ltb idle_expiry (now - sess.last_seen_at) || ltb absolute_expiry (now - sess.created_at)

-- lookup(token, touch)
pub find_session : String → Bool → ℕ → Daemon → Reply Session × Daemon
find_session token touch now d = if d.locked then (stuck, d) else elim (lookup token d.sessions) [
  | none ↦ (refused 404, d)
  | some sess ↦
      if is_expired sess now
      then (refused 404, record d { sessions = delete token d.sessions })
      else if touch
      then (let seen = record sess { last_seen_at = now } in
          (answered seen, record d { sessions = insert token seen d.sessions }))
      else (answered sess, d)
]

pub handle_validate : String → ℕ → Daemon → Reply Session × Daemon
handle_validate token now d = find_session token true now d

-- The answer holds the session's uid and `reauthUntil`.
pub handle_session_check : String → ℕ → Daemon → Reply Session × Daemon
handle_session_check token now d = find_session token false now d

-- The password is checked for the session's user, and the window opens when it was accepted.
grant_reauth : Host → String → String → ℕ → Reply Session × Daemon → Reply Session × Daemon
grant_reauth host token password granted (answered sess, d) =
    let until = record sess { reauth_until = granted + reauth_window } in
    let opened : Reply Session × Daemon =
      (answered until, record d { sessions = insert token until d.sessions }) in
    if not (str_eq d.insecure_dev_auth "")
    then opened
    else if not host.pam_available
    then (refused 503, d)
    else if host.authenticate sess.user.name password
    then opened
    else (refused 401, d)
grant_reauth host token password granted (refused status, d) = (refused status, d)
grant_reauth host token password granted (panicked, d) = (panicked, d)
grant_reauth host token password granted (stuck, d) = (stuck, d)

pub handle_reauth : Host → String → String → ℕ → ℕ → Daemon → Reply Session × Daemon
unfolding grant_reauth
handle_reauth host token password now granted d =
    grant_reauth host token password granted (find_session token false now d)

-- stopAgentIfIdle: whether the agent is sent SIGTERM. `state` is what it answers for its numbers of
-- connections and of terminal sessions, `none` if it does not answer.
pub stop_agent_if_idle : Daemon → ℕ → Option (ℕ × ℕ) → Bool
stop_agent_if_idle d uid state = elim (lookup uid d.agents) [
  | none ↦ false
  | some proc ↦ if proc.dead then false else elim state [
    | none ↦ false
    | some (connections, pty_sessions) ↦ connections == 0 && pty_sessions == 0
  ]
]

-- The loop over the sessions reads `sess.User.UID` for each; for an unknown token `sess` is nil, so
-- the first round panics, and `d.mu.Unlock` is not reached. The result says whether the user's agent
-- is sent SIGTERM.
pub handle_logout : Option (ℕ × ℕ) → String → Daemon → Reply Bool × Daemon
handle_logout state token d = if d.locked then (stuck, d) else elim (lookup token d.sessions) [
  | none ↦ elim d.sessions [
    | [] ↦ (answered false, d)
    | _ ∷ _ ↦ (panicked, record d { locked = true })
  ]
  | some sess ↦
      let left = delete token d.sessions in
      let remaining = count_where (λ s. s.user.uid == sess.user.uid) left in
      let d' : Daemon = record d { sessions = left } in
      let stopped = stop_agent_if_idle d' sess.user.uid state in
      (answered (if remaining == 0 then stopped else false), d')
]
