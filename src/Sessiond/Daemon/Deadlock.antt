-- ===== src/Sessiond/Daemon/Deadlock.antt =====
-- A logout with an unknown token.
use lumio_os.Prelude.{
  ℕ, String, ◌≡◌, ◌≢◌, refl, true, false, not, Option, none, [], ◌==◌, string_eq, Bool-cases,
  Option-cases, inl, inr,
}
use lumio_os.Prelude.Lists.{List-cases}
use lumio_os.Prelude.Map.{lookup}
use lumio_os.Sessiond.Daemon.{
  Daemon, Session, Host, answered, panicked, stuck, Tokens, find_session, handle_validate,
  handle_session_check, handle_reauth, handle_logout, handle_login, admit,
}

-- No handler that needs the mutex comes back, or changes anything.
pub record IsStuck (d : Daemon) : Type 0 where
  pub validate : (token : String) (now : ℕ) → handle_validate token now d ≡ (stuck, d)
  pub check : (token : String) (now : ℕ) → handle_session_check token now d ≡ (stuck, d)
  pub reauth :
      (host : Host) (token password : String) (now granted : ℕ)
      → handle_reauth host token password now granted d ≡ (stuck, d)
  pub login :
      (host : Host) (t : Tokens) (now : ℕ) (username password : String) (sess : Session)
      → (handle_login host t now username password d).0 ≢ answered sess
  pub logout : (state : Option (ℕ × ℕ)) (token : String) → handle_logout state token d ≡ (stuck, d)

locked-login :
    (host : Host) (t : Tokens) (now : ℕ) (username password : String) (sess : Session) (d : Daemon)
    → d.locked ≡ true
    → (handle_login host t now username password d).0 ≢ answered sess
unfolding handle_login
locked-login host t now username password sess d h e =
    elim (Bool-cases (not (admit host d username password == 0))) [
      | inl refusal ↦ cc (rw (refusal, handle_login) at e)
      | inr admitted ↦ elim (Option-cases (host.lookup_user username)) [
        | inl nobody ↦ cc (rw (admitted, nobody, handle_login) at e)
        | inr (user, found) ↦ cc (rw (admitted, found, h, handle_login) at e)
      ]
    ]

locked-IsStuck : (d : Daemon) → d.locked ≡ true → IsStuck d
unfolding handle_validate handle_session_check handle_reauth handle_logout find_session
locked-IsStuck d h = record {
  validate = λ token now. rw h;
  check = λ token now. rw h;
  reauth = λ host token password now granted. rw (h, find_session);
  login = λ host t now username password sess. locked-login host t now username password sess d h;
  logout = λ state token. rw h;
}

-- While any session exists, a logout with a token that the daemon does not know panics with the
-- mutex locked. From then on no validation, check, reauthentication or logout, of any token at any
-- time, comes back or changes anything, and no login comes to a session.
pub logout_unknown_deadlocks :
    (state : Option (ℕ × ℕ)) (token : String) (d : Daemon)
    → d.locked ≡ false
    → lookup token d.sessions ≡ none
    → d.sessions ≢ []
    → ((handle_logout state token d).0 ≡ panicked) × IsStuck (handle_logout state token d).1
unfolding handle_logout
logout_unknown_deadlocks state token d h unknown some_session = elim (List-cases d.sessions) [
  | inl empty ↦ absurd (some_session empty)
  | inr (s, rest, full) ↦
      rw (h, unknown, full, handle_logout) (refl, locked-IsStuck (record d { locked = true }) refl)
]
