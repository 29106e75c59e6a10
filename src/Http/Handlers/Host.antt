-- ===== src/Http/Handlers/Host.antt =====
-- server/internal/httpapi/handlers.go: the handlers for the power of the machine and for its network.
use Prim.Native.String.{◌++◌}
use lumio_os.Prelude.{◌*◌, String, Bool, ◌&&◌, ◌||◌, not, Option, some, ◌==◌, if◌then◌else◌, str_eq}
use lumio_os.Prelude.Int.{ℤ, pos, negsuc, below, above}
use lumio_os.Http.Envelope.{new_error, code_validation_failed}
use lumio_os.Http.Idempotency.{valid_request_id}
use lumio_os.Network.Config.{Config, Verdict, valid, invalid, validate_config, valid_revision}
use lumio_os.Network.Controller.Defs.{
  default_confirm_timeout, min_confirm_timeout, max_confirm_timeout,
}
use lumio_os.Broker.Request.{Library, network_token_pattern}
use lumio_os.Http.Handlers.Forward.{
  Forwarded, rejected, forwarded, guard, with_body, second, no_arguments, nothing_expected,
}

pub record PowerBody : Type 0 where
  pub request_id : String
  pub action : String

unfoldable pub handle_system_power : Bool → String → Option PowerBody → Forwarded
handle_system_power socket session body = with_body socket body λ req.
    guard (not (valid_request_id req.request_id)) "requestId is required." (
      guard (not (str_eq req.action "reboot") && not (str_eq req.action "poweroff"))
        "action must be reboot or poweroff."
        (forwarded
          record {
            request_id = req.request_id;
            action = "system." ++ req.action;
            arguments = no_arguments;
            expected = some nothing_expected;
            session_token = session;
          }
          (15 * second)))

pub record NetworkBody : Type 0 where
  pub request_id : String
  pub config : Config
  pub expected_revision : String
  pub confirm_timeout : ℤ

abbrev pub or_default : ℤ → ℤ
or_default (pos n) = if n == 0 then pos default_confirm_timeout else pos n
or_default (negsuc n) = negsuc n

unfoldable pub guard_config : Verdict → Forwarded → Forwarded
guard_config valid rest = rest
guard_config (invalid message) rest = rejected (new_error code_validation_failed message)

unfoldable pub handle_network_apply : Library → Bool → String → Option NetworkBody → Forwarded
unfolding valid_revision validate_config
handle_network_apply lib socket session body = with_body socket body λ req.
    let timeout = or_default req.confirm_timeout in
    guard (not (valid_request_id req.request_id)) "requestId is required." (
      guard (not (valid_revision req.expected_revision)) "expectedRevision is required." (
        guard (below timeout min_confirm_timeout || above timeout max_confirm_timeout)
          "confirmTimeoutSec must be between 30 and 300."
          (guard_config (validate_config lib.netip req.config) (
            forwarded
              record {
                request_id = req.request_id;
                action = "network.applyWithRollback";
                arguments = record no_arguments {
                  config = req.config;
                  confirm_timeout_sec = timeout;
                };
                expected = some record nothing_expected { revision = req.expected_revision };
                session_token = session;
              }
              (45 * second)))))

pub record TokenBody : Type 0 where
  pub request_id : String
  pub token : String

unfoldable pub handle_network_confirm : Bool → String → Option TokenBody → Forwarded
unfolding network_token_pattern
handle_network_confirm socket session body = with_body socket body λ req.
    guard (not (valid_request_id req.request_id)) "requestId is required." (
      guard (not (network_token_pattern req.token)) "token must be a network confirmation token." (
        forwarded
          record {
            request_id = req.request_id;
            action = "network.confirm";
            arguments = record no_arguments { token = req.token };
            expected = some nothing_expected;
            session_token = session;
          }
          (15 * second)))
