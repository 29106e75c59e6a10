-- ===== src/Sessiond/Daemon/Reauth.antt =====
-- The reauthentication window, which the broker's challenges rest on.
use lumio_os.Prelude.{
  ℕ, ◌+◌, String, ◌≡◌, ◌≢◌, refl, ◌∙◌, Bool-cases, inl, inr, Bool, true, false, some, arith,
  if◌then◌else◌, str_eq, string_eq, eq_iff,
}
use lumio_os.Prelude.Map.{lookup, lookup-insert, insert}
use lumio_os.Sessiond.Daemon.{
  Daemon, Session, Host, Reply, answered, refused, panicked, stuck, is_expired, find_session,
  handle_session_check, handle_reauth, grant_reauth, reauth_window,
}
use lumio_os.Sessiond.Daemon.Expiry.{find_session-answer}

grant_reauth_refused :
    (host : Host) (token password : String) (granted : ℕ) (r : Reply Session) (d : Daemon)
    (s : Session)
    → d.insecure_dev_auth ≡ ""
    → ((x : Session) → r ≡ answered x → host.authenticate x.user.name password ≡ false)
    → ((grant_reauth host token password granted (r, d)).1 ≡ d)
      × ((grant_reauth host token password granted (r, d)).0 ≢ answered s)
unfolding grant_reauth
grant_reauth_refused host token password granted (answered x) d s pam wrong =
    elim (Bool-cases host.pam_available) [
      | inl there ↦ rw (pam, wrong x refl, there) (refl, λ e. cc)
      | inr missing ↦ rw (pam, wrong x refl, missing) (refl, λ e. cc)
    ]
grant_reauth_refused host token password granted (refused n) d s pam wrong = (refl, λ e. cc)
grant_reauth_refused host token password granted panicked d s pam wrong = (refl, λ e. cc)
grant_reauth_refused host token password granted stuck d s pam wrong = (refl, λ e. cc)

find_session-mode :
    (token : String) (touch : Bool) (now : ℕ) (d : Daemon)
    → (find_session token touch now d).1.insecure_dev_auth ≡ d.insecure_dev_auth
unfolding find_session
find_session-mode token touch now d = ground arith

-- Outside the development setting, a reauthentication with a password that PAM rejects for the user of
-- the session, if there is one, is not answered, and changes no more than a lookup of the session does.
pub wrong_password :
    (host : Host) (token password : String) (now granted : ℕ) (d : Daemon) (s : Session)
    → d.insecure_dev_auth ≡ ""
    → ((x : Session)
        → (find_session token false now d).0 ≡ answered x
        → host.authenticate x.user.name password ≡ false)
    → ((handle_reauth host token password now granted d).1 ≡ (find_session token false now d).1)
      × ((handle_reauth host token password now granted d).0 ≢ answered s)
unfolding handle_reauth
wrong_password host token password now granted d s pam wrong =
    grant_reauth_refused host token password granted _ _ s
      (find_session-mode token false now d ∙ pam) wrong

found_session :
    (token : String) (now : ℕ) (d : Daemon) (s : Session)
    → d.locked ≡ false
    → lookup token d.sessions ≡ some s
    → is_expired s now ≡ false
    → find_session token false now d ≡ (answered s, d)
unfolding find_session
found_session token now d s h found live = ground arith

accepted :
    (host : Host) (token password : String) (now granted : ℕ) (d : Daemon) (s : Session)
    → d.locked ≡ false
    → lookup token d.sessions ≡ some s
    → is_expired s now ≡ false
    → host.pam_available ≡ true
    → host.authenticate s.user.name password ≡ true
    → (handle_reauth host token password now granted d).1 ≡ record d {
      sessions = insert token (record s { reauth_until = granted + reauth_window }) d.sessions;
    }
unfolding handle_reauth grant_reauth
accepted host token password now granted d s h found live pam ok =
    rw (found_session token now d s h found live)
      (elim (Bool-cases (str_eq d.insecure_dev_auth "")) [
        | inl without ↦ rw (without, pam, ok) refl
        | inr setting ↦ rw setting refl
      ])

-- After a reauthentication that PAM accepts for the session's user, a session check answers that the
-- window is open for five minutes from then, until the session expires.
pub right_password :
    (host : Host) (token password : String) (now granted later : ℕ) (d : Daemon) (s : Session)
    → d.locked ≡ false
    → lookup token d.sessions ≡ some s
    → is_expired s now ≡ false
    → host.pam_available ≡ true
    → host.authenticate s.user.name password ≡ true
    → (handle_session_check token later (handle_reauth host token password now granted d).1).0 ≡ (
        if is_expired s later
        then refused 404
        else answered (record s { reauth_until = granted + reauth_window }))
unfolding handle_session_check is_expired
right_password host token password now granted later d s h found live pam ok =
    let until = record s { reauth_until = granted + reauth_window } in
    let d' : Daemon = record d { sessions = insert token until d.sessions } in
    rw (accepted host token password now granted d s h found live pam ok) (
      find_session-answer token false later d' h
      ∙ ground (arith, lookup-insert token token until d.sessions, eq_iff token token))
