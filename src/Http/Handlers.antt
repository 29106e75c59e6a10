-- ===== src/Http/Handlers.antt =====
-- The handlers of server/internal/httpapi/handlers.go that hand a request to the broker.
-- A body is the decoded JSON, `none` if it is no object of the right shape; an absent text is empty and
-- an absent number 0. `socket` is that a broker is configured, and `session` the header
-- X-Lumio-Session. The payload is the broker's request, which JSON carries over as it is.
pub mod Agreement
mod Examples
mod Forward
mod Host
mod Packages
mod Passing
mod Units
unfoldable pub use Forward.*
unfoldable pub use Host.*
unfoldable pub use Packages.*
unfoldable pub use Units.*
use Prim.Native.String.{◌++◌}
use lumio_os.Prelude.{
  ℕ, ◌*◌, String, Bool, true, false, ◌&&◌, ◌||◌, not, Option, none, some, List, [], ◌∷◌, ltb, ◌==◌,
  if◌then◌else◌, str_eq,
}
use lumio_os.Prelude.Int.{ℤ, pos, negsuc, below, above}
use lumio_os.Prelude.Lists.{length}
use lumio_os.Prelude.Text.{codes}
use lumio_os.Http.Envelope.{ApiError, new_error, code_validation_failed, code_unavailable}
use lumio_os.Http.Idempotency.{valid_request_id}
use lumio_os.Network.Config.{Config, Verdict, valid, invalid, validate_config, valid_revision}
use lumio_os.Network.Controller.Defs.{
  default_confirm_timeout, min_confirm_timeout, max_confirm_timeout,
}
use lumio_os.Broker.Request.{
  ActionRequest, Arguments, Expected, Library, unit_name_pattern, network_token_pattern,
  valid_plan_id, cut_prefix, max_write_bytes,
}

-- A request to one of these handlers, as `Handler` routes it.
pub data Call : Type 0 where
  system_power : Option PowerBody → Call
  network_apply : Option NetworkBody → Call
  network_confirm : Option TokenBody → Call
  files_write_privileged : Option FileBody → Call
  services_action : Option ServiceBody → Call
  updates_refresh updates_plan : Option String → Call
  updates_apply : Option PlanBody → Call

unfoldable pub handle : Library → Bool → String → Call → Forwarded
handle lib socket session (system_power body) = handle_system_power socket session body
handle lib socket session (network_apply body) = handle_network_apply lib socket session body
handle lib socket session (network_confirm body) = handle_network_confirm socket session body
handle lib socket session (files_write_privileged body) =
    handle_files_write_privileged lib socket session body
handle lib socket session (services_action body) = handle_services_action socket session body
handle lib socket session (updates_refresh body) = handle_updates_refresh socket session body
handle lib socket session (updates_plan body) = handle_updates_plan socket session body
handle lib socket session (updates_apply body) = handle_updates_apply socket session body

-- What `broker.CallAction` gives, or `none` if it fails: the status, the replay header, and the body.
pub record BrokerReply {ℓ} (B : Type ℓ) : Type ℓ where
  pub status : ℕ
  pub replay : String
  pub body : B

pub data Response {ℓ} (B : Type ℓ) : Type ℓ where
  failure : ApiError → Response B
  passed_on : ℕ → List (String × String) → B → Response B

abbrev replay_header : String → List (String × String)
replay_header replay = if str_eq replay "" then [] else ("X-Lumio-Idempotent-Replay", replay) ∷ []

-- forwardBrokerAction
unfoldable pub forward_broker_action {ℓ} : {B : Type ℓ} → Bool → Option (BrokerReply B) → Response B
forward_broker_action false reply =
    failure (new_error code_unavailable "This capability is not available in this build.")
forward_broker_action true none =
    failure (new_error code_unavailable "The privileged broker is unavailable.")
forward_broker_action true (some reply) =
    passed_on reply.status (replay_header reply.replay) reply.body
