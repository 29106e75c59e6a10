-- ===== src/Broker/Server/Examples.antt =====
-- Tests of the broker over a small host, and the theorems at concrete requests.
use lumio_os.Prelude.{ℕ, ◌+◌, ◌≡◌, ◌⊎◌, refl, true, none, some, []}
use lumio_os.Prelude.Int.{pos}
use lumio_os.Network.Controller.Defs.{err, err_busy}
use lumio_os.Broker.Request.{ActionRequest}
use lumio_os.Broker.Audit.{stored_data, stored_result}
use lumio_os.Broker.Host.{
  Host, State, Clock, challenge, done, failed, update_busy, plan_missing, scheduled,
}
use lumio_os.Broker.Authorise.{authorize, granted}
use lumio_os.Broker.Handlers.{handle_power_action}
use lumio_os.Broker.Server.{handle_action, dispatch}
use lumio_os.Broker.Server.Audited.{handle_action-Change}
use lumio_os.Broker.Server.Brackets.{Change}
use lumio_os.Broker.Server.Grants.{Grounds, authorize-granted}
use lumio_os.Broker.Server.Repeats.{Answers, Quiet, Starts, action_once}

-- The world counts the reboots. Polkit asks for a password, and the only session, "s", belongs to
-- the user 1000, whose password is fresh until 50.
abbrev host : Host ℕ
host = record {
  lib = record {
    netip = record { parse_prefix = λ s. some s; parse_addr = λ s. true };
    is_abs = λ s. true;
    clean = λ s. s;
    decoded_len = λ s. some 3;
  };
  available = λ w. record {
    worker = true;
    sys = true;
    files = true;
    updates = true;
    power = true;
    network = true;
  };
  name_for_uid = λ uid. "user";
  arguments_hash = λ req. "sha256:";
  encode = λ result. "{}";
  error_text = λ e. "error";
  takes_row = λ row w. true;
  check = λ uid pid id details w. (some challenge, w);
  session_check = λ token w. (some (1000, 50), w);
  unit_state = λ unit w. (done "active", w);
  execute = λ action unit w. (done unit, w);
  schedule = λ action at w. (done (scheduled action at), w + 1);
  apply = λ config revision timeout w. (err err_busy, w);
  confirm = λ token w. (err err_busy, w);
  write = λ path content revision mode id w. (done path, w);
  refresh = λ w. (done 0, w);
  calculate_plan = λ w. (failed update_busy, w);
  start_apply = λ plan expected id w. (failed plan_missing, w);
  progress = λ id w. none;
}

abbrev reboot : ActionRequest
reboot = record {
  request_id = "r1";
  action = "system.reboot";
  arguments = record {
    unit = "";
    plan_id = "";
    path = "";
    content_base64 = "";
    mode = "";
    restart_unit = "";
    config = record { version = pos 0; ethernets = [] };
    confirm_timeout_sec = pos 0;
    token = "";
  };
  expected = none;
  session_token = "s";
}

abbrev clock : Clock
clock = record { checked = 40; scheduled = 5 }

abbrev fresh : State ℕ
fresh = record { audit = []; trace = []; world = 0 }

abbrev after_reboot : State ℕ
after_reboot = (handle_action host 1000 7 (some reboot) clock fresh).1

reboots_once : after_reboot.world ≡ 1
unfolding handle_action stored_result authorize dispatch handle_power_action
reboots_once = refl

answered : Answers "r1" after_reboot.audit
unfolding handle_action stored_result authorize dispatch handle_power_action
answered = ((200, stored_data "{}"), refl)

action_once_example :
    (after_reboot.trace ≡ []) ⊎ Starts host [] after_reboot.trace ⊎ Quiet host "r1" after_reboot
action_once_example = action_once host 1000 7 reboot clock fresh (λ row w. refl)

handle_action-Change_example : Change host "r1" 1000 [] [] after_reboot.trace after_reboot.audit
handle_action-Change_example = handle_action-Change host 1000 7 reboot clock fresh

reboot_granted : authorize host 1000 7 reboot 40 0 ≡ (granted "challenge+reauth", 0)
unfolding authorize
reboot_granted = refl

authorize-granted_example : Grounds host 1000 reboot 40 (some challenge, 0) "challenge+reauth"
authorize-granted_example =
    authorize-granted host 1000 7 reboot 40 0 0 "challenge+reauth" reboot_granted
