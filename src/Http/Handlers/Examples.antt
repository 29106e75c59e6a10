-- ===== src/Http/Handlers/Examples.antt =====
-- Tests of the handlers that call the broker, and the agreement at a concrete request.
use lumio_os.Prelude.{◌*◌, ◌≡◌, refl, String, true, none, some}
use lumio_os.Http.Envelope.{new_error, code_unavailable, code_validation_failed}
use lumio_os.Http.Idempotency.{valid_request_id}
use lumio_os.Network.Config.{valid}
use lumio_os.Broker.Request.{ActionRequest, Library, validate}
use lumio_os.Http.Handlers.{
  forwarded, rejected, guard, with_body, handle, services_action, system_power, handle_system_power,
  handle_services_action, no_arguments, nothing_expected, second, forward_broker_action, failure,
}
use lumio_os.Http.Handlers.Agreement.{forwarded_valid}

abbrev lib : Library
lib = record {
  netip = record { parse_prefix = λ s. some s; parse_addr = λ s. true };
  is_abs = λ s. true;
  clean = λ s. s;
  decoded_len = λ s. some 3;
}

abbrev restart : ActionRequest
restart = record {
  request_id = "r7";
  action = "services.restart";
  arguments = record no_arguments { unit = "ssh.service" };
  expected = some record nothing_expected { active_state = "active" };
  session_token = "s";
}

restarts :
    handle lib true "s" (
      services_action (
        some record {
          request_id = "r7";
          action = "restart";
          unit = "ssh.service";
          expected = some "active";
        }))
    ≡ forwarded restart (30 * second)
unfolding handle with_body guard handle_services_action valid_request_id
restarts = refl

halt_refused :
    handle lib true "s" (system_power (some record { request_id = "r7"; action = "halt" }))
    ≡ rejected (new_error code_validation_failed "action must be reboot or poweroff.")
unfolding handle with_body guard handle_system_power valid_request_id
halt_refused = refl

broker_down :
    forward_broker_action {B = String} true none
    ≡ failure (new_error code_unavailable "The privileged broker is unavailable.")
unfolding forward_broker_action
broker_down = refl

forwarded_valid_example : validate lib restart ≡ valid
forwarded_valid_example =
    forwarded_valid lib true "s"
      (services_action (
        some record {
          request_id = "r7";
          action = "restart";
          unit = "ssh.service";
          expected = some "active";
        }))
      restart (30 * second) restarts refl
