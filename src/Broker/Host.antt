-- ===== src/Broker/Host.antt =====
-- The state of the broker of server/internal/broker/broker.go, and what it calls.
-- Everything that the broker calls (Polkit, systemd, logind, the network controller, the package
-- worker, the writer of protected files, the session daemon) is a function of a world `W`. The trace
-- holds, newest first, the audit rows that were handed to the database, which may refuse one, and the
-- calls that change the system. What the database took is in `audit`.
use lumio_os.Prelude.{ℕ, String, Bool, false, Option, none, some, List, [], ◌∷◌}
use Prim.Native.String.{◌++◌}
use lumio_os.Prelude.Int.{ℤ}
use lumio_os.Http.Envelope.{ApiError, text, new_error}
use lumio_os.Network.Config.{Config}
use lumio_os.Network.Controller.Defs.{
  Result, Error, err_validation, err_busy, err_expired, err_token, stale_error, joined, Pending,
}
use lumio_os.Broker.Request.{ActionRequest, Library}
use lumio_os.Broker.Audit.{Row, Stored}

-- Authorizer.Check
pub data AuthResult : Type 0 where
  deny allow challenge : AuthResult

-- The calls that change the system.
pub data Effect : Type 0 where
  did_execute : String → String → Effect
  did_schedule : String → ℕ → Effect
  did_apply : Config → String → ℤ → Effect
  did_confirm : String → Effect
  did_write : String → String → String → Effect
  did_refresh did_plan : Effect
  did_start_apply : String → Effect

pub data Event : Type 0 where
  handed : Row → Event
  did : Effect → Event

-- The errors of the writer of protected files and of the package worker, as far as the broker
-- tells them apart.
pub data WriteError : Type 0 where
  write_validation : String → WriteError
  write_stale : String → String → WriteError
  write_permission : String → WriteError
  write_other : String → WriteError

pub data UpdateError : Type 0 where
  update_unavailable update_busy plan_missing plan_stale : UpdateError
  update_other : String → UpdateError

pub data Outcome {ℓ κ} (E : Type ℓ) (A : Type κ) : Type (ℓ ⊔ κ) where
  done : A → Outcome E A
  failed : E → Outcome E A

-- The data of a reply; plans, units and files are their JSON.
pub data Data : Type 0 where
  unit_data : String → Data
  network_pending : Pending → Data
  network_confirmed : String → Data
  scheduled : String → ℕ → Data
  file_data : String → Option (Outcome String String) → Data
  refreshed : ℕ → Data
  plan_data : String → Data
  started : String → String → Data
  progress_data : String → Data

pub data Body : Type 0 where
  data_body : Data → Body
  error_body : ApiError → Body
  -- `writeRaw` of a text, which it encodes as one JSON string.
  text_body : Stored → Body

pub record Reply : Type 0 where
  pub replay : Bool
  pub status : ℕ
  pub body : Body

-- A progress of the package worker; `json` is its encoding.
pub record UpdateProgress : Type 0 where
  pub request_id : String
  pub plan_id : String
  pub json : String

-- Which parts are there: `worker` is that the package worker is not nil, and `updates` that it is
-- not nil and has found the package manager.
pub record Available : Type 0 where
  pub worker : Bool
  pub sys : Bool
  pub files : Bool
  pub updates : Bool
  pub power : Bool
  pub network : Bool

-- `session_check` gives the uid and
-- the end of the window, in milliseconds.
pub record Host {ℓ} (W : Type ℓ) : Type ℓ where
  pub lib : Library
  pub available : W → Available
  pub name_for_uid : ℕ → String
  pub arguments_hash : ActionRequest → String
  pub encode : Data → String
  pub error_text : Error → String
  pub takes_row : Row → W → Bool
  pub check : ℕ → ℕ → String → List (String × String) → W → Option AuthResult × W
  pub session_check : String → W → Option (ℕ × ℕ) × W
  pub unit_state : String → W → Outcome String String × W
  pub execute : String → String → W → Outcome String String × W
  pub schedule : String → ℕ → W → Outcome String Data × W
  pub apply : Config → String → ℤ → W → Result Pending × W
  pub confirm : String → W → Result Pending × W
  pub write : String → String → String → String → String → W → Outcome WriteError String × W
  pub refresh : W → Outcome UpdateError ℕ × W
  pub calculate_plan : W → Outcome UpdateError String × W
  pub start_apply : String → String → String → W → Outcome UpdateError (String × String) × W
  pub progress : String → W → Option UpdateProgress

pub record State {ℓ} (W : Type ℓ) : Type ℓ where
  pub audit : List Row
  pub trace : List Event
  pub world : W

-- Who asks for what, once it is authorised.
pub record Caller : Type 0 where
  pub req : ActionRequest
  pub uid : ℕ
  pub polkit_result : String

-- The readings of the clock: for the reauthentication, in milliseconds, and for a power action.
pub record Clock : Type 0 where
  pub checked : ℕ
  pub scheduled : ℕ

-- How an action ends: what the audit row says, and the reply.
pub record Finish : Type 0 where
  pub outcome : String
  pub error : String
  pub result : Option Data
  pub status : ℕ
  pub body : Body

abbrev pub fail : String → ℕ → ApiError → Finish
fail error status api_error = record {
  outcome = "failed";
  error = error;
  result = none;
  status = status;
  body = error_body api_error;
}

abbrev pub succeed : Data → Finish
succeed data' = record {
  outcome = "success";
  error = "";
  result = some data';
  status = 200;
  body = data_body data';
}

abbrev pub write_err : ℕ → ApiError → Reply
write_err status api_error = record { replay = false; status = status; body = error_body api_error }

abbrev unavailable_error : String → ApiError
unavailable_error message = new_error "unavailable" message

unfoldable pub network_error : String → Error → Finish
network_error message (err_validation m) = fail message 400 (new_error "validation_failed" message)
network_error message err_busy =
    fail message 409 (new_error "busy" "Another network change is waiting for confirmation.")
network_error message err_expired = fail message 409 (
    new_error "conflict"
      "The network confirmation window expired and the previous configuration was restored.")
network_error message err_token =
    fail message 400 (new_error "validation_failed" "The network confirmation token is invalid.")
network_error message (stale_error expected actual) = fail message 409 record {
  code = "stale_revision";
  message = "The Netplan configuration changed since it was read.";
  details = ("expectedRevision", text expected) ∷ ("actualRevision", text actual) ∷ [];
}
network_error message (joined cancel_err e) = network_error message e
network_error message _ = fail message 500 (new_error "internal" "The network change failed.")

unfoldable pub file_error : WriteError → Finish
file_error (write_validation m) = fail m 400 (new_error "validation_failed" m)
file_error (write_stale expected actual) =
    fail "the protected file changed on disk since it was read" 409 record {
      code = "stale_revision";
      message = "The file changed on disk since it was read.";
      details = ("expectedRevision", text expected) ∷ ("actualRevision", text actual) ∷ [];
    }
file_error (write_permission m) = fail m 403 (new_error "forbidden" "Permission denied.")
file_error (write_other m) =
    fail m 500 (new_error "internal" "The protected file could not be saved.")

-- writeUpdateError
unfoldable pub update_error : UpdateError → Finish
update_error update_unavailable =
    fail "package manager unavailable" 503 (unavailable_error "The package manager is unavailable.")
update_error update_busy =
    fail "package manager busy" 409 (new_error "busy" "Another package operation is in progress.")
update_error plan_missing =
    fail "update plan not found" 409
      (new_error "conflict" "The saved update plan is missing or expired. Calculate it again.")
update_error plan_stale =
    fail "update plan expired" 409
      (new_error "conflict" "The saved update plan is missing or expired. Calculate it again.")
update_error (update_other m) =
    fail m 500 (new_error "internal" ("The package operation failed: " ++ m))
