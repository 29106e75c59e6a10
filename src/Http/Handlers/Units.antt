-- ===== src/Http/Handlers/Units.antt =====
-- server/internal/httpapi/handlers.go: the handlers for protected files and for services.
use Prim.Native.String.{◌++◌}
use lumio_os.Prelude.{
  ◌*◌, String, Bool, true, false, ◌&&◌, ◌||◌, not, Option, none, some, ltb, str_eq,
}
use lumio_os.Prelude.Text.{codes}
use lumio_os.Http.Idempotency.{valid_request_id}
use lumio_os.Network.Config.{valid_revision}
use lumio_os.Broker.Request.{Expected, Library, unit_name_pattern, cut_prefix, max_write_bytes}
use lumio_os.Http.Handlers.Forward.{
  Forwarded, forwarded, guard, with_body, second, no_arguments, nothing_expected,
}

pub record FileBody : Type 0 where
  pub path : String
  pub content : String
  pub expected_revision : String
  pub mode : String
  pub restart_unit : String
  pub request_id : String

abbrev pub below_etc : String → Bool
below_etc path = elim (cut_prefix (codes "/etc/") (codes path)) [ none ↦ false | some rest ↦ true ]

abbrev pub fits : Library → String → Bool
fits lib content = elim (lib.decoded_len content) [
  | none ↦ false
  | some n ↦ not (ltb max_write_bytes n)
]

unfoldable pub handle_files_write_privileged : Library → Bool → String → Option FileBody → Forwarded
unfolding cut_prefix valid_revision unit_name_pattern
handle_files_write_privileged lib socket session body = with_body socket body λ req.
    guard (not (valid_request_id req.request_id)) "requestId is required." (
      guard (str_eq req.path "" || not (below_etc req.path)) "path must be below /etc." (
        guard (not (fits lib req.content)) "content must be base64 and no larger than 1 MiB." (
          guard (not (valid_revision req.expected_revision)) "expectedRevision is required." (
            guard (not (str_eq req.restart_unit "") && not (unit_name_pattern req.restart_unit))
              "invalid restart unit."
              (forwarded
                record {
                  request_id = req.request_id;
                  action = "files.writePrivileged";
                  arguments = record no_arguments {
                    path = req.path;
                    content_base64 = req.content;
                    mode = req.mode;
                    restart_unit = req.restart_unit;
                  };
                  expected = some record nothing_expected { revision = req.expected_revision };
                  session_token = session;
                }
                (45 * second))))))

pub record ServiceBody : Type 0 where
  pub request_id : String
  pub action : String
  pub unit : String
  pub expected : Option String

-- ^(start|stop|restart|reload|enable|disable)$
unfoldable pub action_name_pattern : String → Bool
action_name_pattern action =
    str_eq action "start"
    || str_eq action "stop"
    || str_eq action "restart"
    || str_eq action "reload"
    || str_eq action "enable"
    || str_eq action "disable"

abbrev pub expected_state : Option String → Option Expected
expected_state none = none
expected_state (some state) = some record nothing_expected { active_state = state }

unfoldable pub handle_services_action : Bool → String → Option ServiceBody → Forwarded
unfolding action_name_pattern unit_name_pattern
handle_services_action socket session body = with_body socket body λ req.
    guard (not (valid_request_id req.request_id)) "requestId is required." (
      guard (not (action_name_pattern req.action)) "unknown action." (
        guard (not (unit_name_pattern req.unit)) "invalid unit name." (
          forwarded
            record {
              request_id = req.request_id;
              action = "services." ++ req.action;
              arguments = record no_arguments { unit = req.unit };
              expected = expected_state req.expected;
              session_token = session;
            }
            (30 * second))))
