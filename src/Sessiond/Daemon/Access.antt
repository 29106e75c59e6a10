-- ===== src/Sessiond/Daemon/Access.antt =====
-- The daemon over any sequence of requests.
use lumio_os.Prelude.{
  ℕ, ◌+◌, ◌<◌, String, ◌≡◌, ◌≢◌, refl, Bool, true, false, not, Option, none, some, List, [], ◌∷◌,
  arith, if◌then◌else◌, str_eq, string_eq, eq_iff, Bool-cases, if_both, ◌==◌, Option-cases, inl,
  inr,
}
use lumio_os.Prelude.Map.{Map, lookup, lookup-insert, lookup-delete, insert, delete, count_where}
use lumio_os.Gateway.Session.{User}
use lumio_os.Sessiond.Daemon.{
  Daemon, Session, Host, Reply, answered, refused, panicked, stuck, Tokens, is_expired,
  find_session, handle_validate, handle_session_check, handle_reauth, grant_reauth, handle_logout,
  handle_login, store_session, ensure_agent, absolute_expiry, reauth_window, stop_agent_if_idle,
  admit,
}

-- The requests of the daemon's socket, with what each reads of its surroundings.
pub data Call : Type 0 where
  login : Tokens → ℕ → String → String → Call
  validate check : String → ℕ → Call
  reauth : String → String → ℕ → ℕ → Call
  logout : Option (ℕ × ℕ) → String → Call

module _ (host : Host) where
  pub step : Daemon → Call → Daemon
  step d (login t now username password) = (handle_login host t now username password d).1
  step d (validate token now) = (handle_validate token now d).1
  step d (check token now) = (handle_session_check token now d).1
  step d (reauth token password now granted) = (handle_reauth host token password now granted d).1
  step d (logout state token) = (handle_logout state token d).1

  pub run : Daemon → List Call → Daemon
  run d [] = d
  run d (c ∷ cs) = run (step d c) cs

  -- Not a login that is handed this token.
  abbrev pub Tame : String → Call → Type 0
  Tame token (login t now username password) = t.token ≢ token
  Tame token _ = Unit

  abbrev pub AllTame : String → List Call → Type 0
  AllTame token [] = Unit
  AllTame token (c ∷ cs) = Tame token c × AllTame token cs

-- What one request may do to the map of sessions, seen from the owner of a token.
data Change (token : String) (m : Map String Session) : Map String Session → Type 0 where
  keep : Change token m m
  drop : (key : String) → Change token m (delete key m)
  renew :
      (key : String) (old new : Session)
      → lookup key m ≡ some old
      → new.created_at ≡ old.created_at
      → new.user ≡ old.user
      → Change token m (insert key new m)
  begin : (key : String) (new : Session) → key ≢ token → Change token m (insert key new m)

-- The session of a token, if it is still there, is the one created at this time for this user.
abbrev pub Born : String → ℕ → User → Daemon → Type 0
Born token created user d =
    (s : Session) → lookup token d.sessions ≡ some s → (s.created_at ≡ created) × (s.user ≡ user)

Change-Born :
    {token : String} {m m' : Map String Session} (created : ℕ) (user : User)
    → Change token m m'
    → ((s : Session) → lookup token m ≡ some s → (s.created_at ≡ created) × (s.user ≡ user))
    → (s : Session) → lookup token m' ≡ some s
    → (s.created_at ≡ created) × (s.user ≡ user)
Change-Born created user keep b s found = b s found
Change-Born {token} {m} created user (drop key) b s found =
    b s (ground (arith, lookup-delete key token m))
Change-Born {token} {m} created user (renew key old new was c u) b s found =
    ground (arith, lookup-insert key token new m, eq_iff key token, b s, b old)
Change-Born {token} {m} created user (begin key new ne) b s found =
    b s (ground (arith, lookup-insert key token new m, eq_iff key token))

module _ (token : String) where
  find_session-Change :
      (key : String) (touch : Bool) (now : ℕ) (d : Daemon)
      → Change token d.sessions (find_session key touch now d).1.sessions
  unfolding find_session
  find_session-Change key touch now d = elim (Bool-cases d.locked) [
    | inl locked ↦ rw (locked, find_session) keep
    | inr open_ ↦ elim (Option-cases (lookup key d.sessions)) [
      | inl absent ↦ rw (open_, absent, find_session) keep
      | inr (s, found) ↦ elim (Bool-cases (is_expired s now)) [
        | inl old ↦ rw (open_, found, old, find_session) (drop key)
        | inr live ↦ elim (Bool-cases touch) [
          | inl t ↦
              rw (open_, found, live, t, find_session)
                (renew key s (record s { last_seen_at = now }) found refl refl)
          | inr t ↦ rw (open_, found, live, t, find_session) keep
        ]
      ]
    ]
  ]

  -- Without a touch an answered lookup changes nothing.
  find_session-keeps :
      (key : String) (now : ℕ) (d : Daemon) {s : Session}
      → (find_session key false now d).0 ≡ answered s
      → (lookup key d.sessions ≡ some s) × ((find_session key false now d).1 ≡ d)
  unfolding find_session
  find_session-keeps key now d h = ground arith

  grant_reauth-Change :
      (host : Host) (key password : String) (granted : ℕ) (d d' : Daemon) (r : Reply Session)
      → Change token d.sessions d'.sessions
      → ((s : Session) → r ≡ answered s → (lookup key d.sessions ≡ some s) × (d' ≡ d))
      → Change token d.sessions (grant_reauth host key password granted (r, d')).1.sessions
  unfolding grant_reauth
  grant_reauth-Change host key password granted d d' (answered s) change was = rw ((was s refl).1) (
      if_both P (not (str_eq d.insecure_dev_auth "")) _ _ opened (
        if_both P (not host.pam_available) _ _ keep
          (if_both P (host.authenticate s.user.name password) _ _ opened keep)))
    where
      P : Reply Session × Daemon → Type 0
      P x = Change token d.sessions x.1.sessions

      opened :
          Change token d.sessions
            (insert key (record s { reauth_until = granted + reauth_window }) d.sessions)
      opened = renew key s _ (was s refl).0 refl refl
  grant_reauth-Change host key password granted d d' (refused n) change was = change
  grant_reauth-Change host key password granted d d' panicked change was = change
  grant_reauth-Change host key password granted d d' stuck change was = change

  handle_reauth-Change :
      (host : Host) (key password : String) (now granted : ℕ) (d : Daemon)
      → Change token d.sessions (handle_reauth host key password now granted d).1.sessions
  unfolding handle_reauth
  handle_reauth-Change host key password now granted d =
      grant_reauth-Change host key password granted d _ _ (find_session-Change key false now d)
        (λ s. find_session-keeps key now d)

  handle_logout-Change :
      (state : Option (ℕ × ℕ)) (key : String) (d : Daemon)
      → Change token d.sessions (handle_logout state key d).1.sessions
  unfolding handle_logout
  handle_logout-Change state key d = if_both P d.locked _ _ keep (by_entry (lookup key d.sessions))
    where
      P : Reply Bool × Daemon → Type 0
      P x = Change token d.sessions x.1.sessions

      by_list :
          (l : List (String × Session))
          → P (elim l [ [] ↦ (answered false, d) | _ ∷ _ ↦ (panicked, record d { locked = true }) ])
      by_list [] = keep
      by_list (x ∷ r) = keep

      by_entry :
          (o : Option Session)
          → P (elim o [
            | none ↦ elim d.sessions [
              | [] ↦ (answered false, d)
              | _ ∷ _ ↦ (panicked, record d { locked = true })
            ]
            | some sess ↦
                let left = delete key d.sessions in
                let remaining = count_where (λ s. s.user.uid == sess.user.uid) left in
                let d' : Daemon = record d { sessions = left } in
                let stopped = stop_agent_if_idle d' sess.user.uid state in
                (answered (if remaining == 0 then stopped else false), d')
          ])
      by_entry none = by_list d.sessions
      by_entry (some sess) = drop key

  ensure_agent-sessions :
      (host : Host) (d : Daemon) (uid : ℕ) → (ensure_agent host d uid).1.sessions ≡ d.sessions
  unfolding ensure_agent
  ensure_agent-sessions host d uid = ground arith

  store_session-Change :
      (m : Map String Session) (t : Tokens) (user : User) (now : ℕ) (r : Reply String) (d : Daemon)
      → d.sessions ≡ m
      → t.token ≢ token
      → Change token m (store_session t user now (r, d)).1.sessions
  unfolding store_session
  store_session-Change m t user now (answered socket) d e ne = rw e (begin t.token _ ne)
  store_session-Change m t user now (refused n) d e ne = rw e keep
  store_session-Change m t user now panicked d e ne = rw e keep
  store_session-Change m t user now stuck d e ne = rw e keep

  handle_login-Change :
      (host : Host) (t : Tokens) (now : ℕ) (username password : String) (d : Daemon)
      → t.token ≢ token
      → Change token d.sessions (handle_login host t now username password d).1.sessions
  unfolding handle_login
  handle_login-Change host t now username password d ne =
      if_both P (not (admit host d username password == 0)) _ _ keep
        (by_user (host.lookup_user username))
    where
      P : Reply Session × Daemon → Type 0
      P x = Change token d.sessions x.1.sessions

      by_user :
          (o : Option User)
          → P (elim o [
            | none ↦ (refused 401, d)
            | some user ↦
                if d.locked
                then (stuck, d)
                else store_session t user now (ensure_agent host d user.uid)
          ])
      by_user none = keep
      by_user (some user) = if_both P d.locked _ _ keep (
          store_session-Change d.sessions t user now _ _ (ensure_agent-sessions host d user.uid) ne)

  step-Change :
      (host : Host) (d : Daemon) (c : Call)
      → Tame host token c
      → Change token d.sessions (step host d c).sessions
  unfolding step handle_validate handle_session_check
  step-Change host d (login t now username password) h =
      handle_login-Change host t now username password d h
  step-Change host d (validate key now) h = find_session-Change key true now d
  step-Change host d (check key now) h = find_session-Change key false now d
  step-Change host d (reauth key password now granted) h =
      handle_reauth-Change host key password now granted d
  step-Change host d (logout state key) h = handle_logout-Change state key d

-- Whatever requests follow, other than a login that is handed the same token, the session of a token
-- stays that of its user and keeps its time of creation, as long as it is there.
pub run-Born :
    (host : Host) (token : String) (created : ℕ) (user : User) (d : Daemon) (cs : List Call)
    → AllTame host token cs
    → Born token created user d
    → Born token created user (run host d cs)
unfolding run
run-Born host token created user d [] tame b = b
run-Born host token created user d (c ∷ cs) tame b =
    run-Born host token created user (step host d c) cs tame.1
      (Change-Born created user (step-Change token host d c tame.0) b)

-- No session outlives thirty days: whatever requests came in between, other than a login that was
-- handed the same token, a validation more than thirty days after the session's creation is not
-- answered.
pub thirty_days :
    (host : Host) (token : String) (created now : ℕ) (user : User) (d : Daemon) (cs : List Call)
    → AllTame host token cs
    → Born token created user d
    → created + absolute_expiry < now
    → (s : Session) → (handle_validate token now (run host d cs)).0 ≢ answered s
unfolding handle_validate find_session is_expired
thirty_days host token created now user d cs tame b late s e =
    let last = run host d cs in
    elim (Option-cases (lookup token last.sessions)) [
      | inl absent ↦ ground arith
      | inr (x, found) ↦ ground (arith, run-Born host token created user d cs tame b x)
    ]
