-- ===== src/Gateway/Session/Examples.antt =====
-- Tests of the session checks, and the theorems at concrete requests.
use lumio_os.Prelude.{
  ℕ, ◌+◌, ◌≡◌, ◌≢◌, ◌⊎◌, inr, refl, true, String, some, [], ◌∷◌, arith, eq_iff, string_eq,
}
use lumio_os.Prelude.Map.{lookup}
use lumio_os.Http.Envelope.{ApiError, new_error, code_forbidden}
use lumio_os.Gateway.Session.{
  SessionInfo, Request, Outcome, ok, rejected, Daemon, session_cookie, handle_api, require_session,
  validated, guard_api, check_csrf, csrf_failed,
}
use lumio_os.Gateway.Session.Guard.{Admitted, handle_api_guarded, handle_api-Admitted}

abbrev alice : SessionInfo
alice = record {
  token = "t1";
  csrf = "c1";
  user = record { name = "alice"; uid = 1000; gid = 1000; home = "/home/alice" };
  agent_socket = "/run/lumio/users/1000.sock";
}

-- A daemon that knows one session; the world counts its calls.
abbrev daemon : Daemon ℕ String SessionInfo
daemon token n = (some (200, alice), n + 1)

abbrev agent : SessionInfo → ℕ → Outcome String × ℕ
agent sess n = (ok "done", n + 10)

abbrev post : Request
post = record {
  method = "POST";
  cookies = ("lumio_session", "t1") ∷ ("lumio_csrf", "c1") ∷ [];
  header = ("X-Lumio-CSRF", "c1") ∷ [];
  params = [];
  secure = true;
}

abbrev forged : Request
forged = record post { header = [] }

c1_set : ◌≢◌ {A = String} "c1" ""
c1_set = ground (arith, eq_iff "c1" "")

post-Admitted : Admitted daemon post 0 alice 1
unfolding session_cookie lookup
post-Admitted = record {
  token = "t1";
  cookie = refl;
  valid = refl;
  csrf = inr (record { token_set = c1_set; in_header = refl; in_cookie = refl });
}

answered_by_agent : handle_api daemon agent post 0 ≡ (ok "done", 11)
answered_by_agent = handle_api-Admitted daemon agent post 0 1 alice post-Admitted

handle_api_guarded_example :
    ((sess : SessionInfo) × (w : ℕ) × Admitted daemon forged 0 sess w)
    ⊎ ((e : ApiError) × (w : ℕ) × (handle_api daemon agent forged 0 ≡ (rejected e, w))
        × (handle_api daemon agent forged 0 ≡ (rejected e, w)))
handle_api_guarded_example = handle_api_guarded daemon agent agent forged 0

forged_rejected :
    handle_api daemon agent forged 0 ≡ (rejected (new_error code_forbidden "CSRF check failed."), 1)
unfolding handle_api require_session session_cookie validated guard_api check_csrf lookup
    csrf_failed
forged_rejected = refl
