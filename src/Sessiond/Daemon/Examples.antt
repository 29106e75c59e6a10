-- ===== src/Sessiond/Daemon/Examples.antt =====
-- Tests of the session daemon, and the theorems at concrete requests.
use lumio_os.Prelude.{
  ◌+◌, ◌*◌, ◌≡◌, ◌≢◌, refl, true, false, String, none, some, [], ◌∷◌, arith, str_eq, string_eq,
  nat_eq,
}
use lumio_os.Prelude.Map.{lookup, insert, delete, count_where}
use lumio_os.Prelude.Text.{all_in}
use lumio_os.Gateway.Session.{User}
use lumio_os.Sessiond.Daemon.{
  refused, Daemon, Session, AgentProc, Host, answered, panicked, day, absolute_expiry,
  reauth_window, handle_login, handle_validate, handle_session_check, handle_reauth, handle_logout,
  find_session, is_expired, admit, valid_username, ensure_agent, store_session, stop_agent_if_idle,
}
use lumio_os.Sessiond.Daemon.Access.{validate, check, reauth, run, thirty_days}
use lumio_os.Sessiond.Daemon.Deadlock.{logout_unknown_deadlocks}
use lumio_os.Sessiond.Daemon.Expiry.{validate_again, check_invisible}
use lumio_os.Sessiond.Daemon.Reauth.{wrong_password, right_password}

abbrev alice : User
alice = record { name = "alice"; uid = 1000; gid = 1000; home = "/home/alice" }

abbrev proc : AgentProc
proc = record { socket_path = "/run/lumio/users/1000.sock"; dead = false }

abbrev host : Host
host = record {
  pam_available = true;
  authenticate = λ name password. str_eq password "secret";
  lookup_user = λ name. some alice;
  spawn_agent = λ uid. some proc;
}

abbrev fresh : Daemon
fresh = record { insecure_dev_auth = ""; locked = false; sessions = []; agents = [] }

abbrev session : Session
session = record {
  token = "t1";
  csrf = "c1";
  user = alice;
  created_at = 5;
  last_seen_at = 5;
  reauth_until = 0;
}

abbrev running : Daemon
running = record {
  insecure_dev_auth = "";
  locked = false;
  sessions = ("t1", session) ∷ [];
  agents = (1000, proc) ∷ [];
}

login_starts_session :
    handle_login host (record { token = "t1"; csrf = "c1" }) 5 "alice" "secret" fresh
    ≡ (answered session, running)
unfolding handle_login admit valid_username all_in ensure_agent store_session lookup insert
login_starts_session = refl

logout_ends_session : (handle_logout (some (0, 0)) "t1" running).0 ≡ answered true
unfolding handle_logout stop_agent_if_idle lookup delete count_where
logout_ends_session = refl

running_nonempty : running.sessions ≢ []
running_nonempty = λ e. cc

logout_unknown_deadlocks_example : (handle_logout none "forged" running).0 ≡ panicked
unfolding lookup
logout_unknown_deadlocks_example =
    (logout_unknown_deadlocks none "forged" running refl refl running_nonempty).0

validated :
    (handle_validate "t1" (3 * day) running).0
    ≡ answered (record session { last_seen_at = 3 * day })
unfolding handle_validate find_session is_expired lookup insert
validated = refl

validate_again_example :
    (handle_validate "t1" (11 * day) (handle_validate "t1" (3 * day) running).1).0 ≡ refused 404
validate_again_example = validate_again "t1" (3 * day) (11 * day) running _ refl validated

check_invisible_example :
    (handle_validate "t1" 9 (handle_session_check "t1" 7 running).1).0
    ≡ (handle_validate "t1" 9 running).0
check_invisible_example = check_invisible "t1" 7 9 running refl (omega arith)

born : (s : Session) → lookup "t1" running.sessions ≡ some s → (s.created_at ≡ 5) × (s.user ≡ alice)
unfolding lookup
born s found = ground arith

thirty_days_example :
    (handle_validate "t1" (5 + absolute_expiry + 1) (
      run host running
        (validate "t1" (6 * day) ∷ check "t1" (7 * day) ∷ reauth "t1" "secret" 9 9 ∷ []))).0
    ≢ answered session
thirty_days_example =
    thirty_days host "t1" 5 _ alice running _ (tt, (tt, (tt, tt))) born (omega arith) session

wrong : (name : String) → host.authenticate name "guess" ≡ false
wrong name = refl

wrong_password_example : (handle_reauth host "t1" "guess" 8 8 running).0 ≢ answered session
wrong_password_example =
    (wrong_password host "t1" "guess" 8 8 running session refl (λ x e. wrong x.user.name)).1

right_password_example :
    (handle_session_check "t1" 9 (handle_reauth host "t1" "secret" 8 8 running).1).0
    ≡ answered (record session { reauth_until = 8 + reauth_window })
unfolding lookup is_expired
right_password_example =
    right_password host "t1" "secret" 8 8 9 running session refl refl refl refl refl
