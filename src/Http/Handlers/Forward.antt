-- ===== src/Http/Handlers/Forward.antt =====
-- server/internal/httpapi/handlers.go: what the handlers that hand a request to the broker share.
use lumio_os.Prelude.{ℕ, String, Bool, true, false, Option, none, some, [], if◌then◌else◌}
use lumio_os.Prelude.Int.{pos}
use lumio_os.Http.Envelope.{ApiError, new_error, code_validation_failed, code_unavailable}
use lumio_os.Network.Config.{Config}
use lumio_os.Broker.Request.{ActionRequest, Arguments, Expected}

-- What a handler does: it answers with an error, or calls the broker with a timeout.
pub data Forwarded : Type 0 where
  rejected : ApiError → Forwarded
  forwarded : ActionRequest → ℕ → Forwarded

-- if fails { WriteError(w, NewError(CodeValidationFailed, message)); return }
unfoldable pub guard : Bool → String → Forwarded → Forwarded
guard fails message rest =
    if fails then rejected (new_error code_validation_failed message) else rest

-- The first checks: the socket, and the body.
unfoldable pub with_body {ℓ} : {A : Type ℓ} → Bool → Option A → (A → Forwarded) → Forwarded
with_body false body f =
    rejected (new_error code_unavailable "This capability is not available in this build.")
with_body true none f = rejected (new_error code_validation_failed "Body must be a JSON object.")
with_body true (some body) f = f body

abbrev pub second : ℕ
second = 1000000000

abbrev pub no_config : Config
no_config = record { version = pos 0; ethernets = [] }

abbrev pub no_arguments : Arguments
no_arguments = record {
  unit = "";
  plan_id = "";
  path = "";
  content_base64 = "";
  mode = "";
  restart_unit = "";
  config = no_config;
  confirm_timeout_sec = pos 0;
  token = "";
}

abbrev pub nothing_expected : Expected
nothing_expected = record { active_state = ""; plan_id = ""; revision = "" }
