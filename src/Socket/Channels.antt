-- ===== src/Socket/Channels.antt =====
-- server/internal/wsapi/channels.go: what a subscription starts, and the input of a terminal.
-- The frame "subscribed" and the goroutine that `startChannel` starts are one value, `Started`. The
-- terminals are functions of a world; their errors are the chains that httpapi.MapError maps.
-- `byte_length` is Go's len. A number of the JSON that is absent is 0, and a text empty.
pub mod Parameters
mod Examples
use lumio_os.Prelude.{
  ℕ, String, Bool, true, false, ◌||◌, not, Option, none, some, List, [], ◌∷◌, ltb, str_eq, ◌==◌,
  ◌⊎◌, inl, inr, if◌then◌else◌,
}
use Prim.Native.String.{◌++◌}
use lumio_os.Prelude.Int.{ℤ, pos, negsuc, below, above}
use lumio_os.Http.Envelope.{
  Error, Cause, api_error, services_unavailable, journal_unavailable, journal_validation, new_error,
  ApiError, code_validation_failed, code_unavailable,
}
use lumio_os.Journal.Query.{Query, Library, validate}

-- The fields that the structs of the five capabilities have.
pub record Params : Type 0 where
  pub interval_ms : ℤ
  pub unit : String
  pub priority : String
  pub since : String
  pub after : String
  pub cols : ℕ
  pub rows : ℕ
  pub shell : String
  pub session : String
  pub request_id : String

-- `params` of the frame: absent, refused by json.Unmarshal with its message, or decoded.
pub data RawParams : Type 0 where
  absent : RawParams
  malformed : String → RawParams
  decoded : Params → RawParams

abbrev pub no_params : Params
no_params = record {
  interval_ms = pos 0;
  unit = "";
  priority = "";
  since = "";
  after = "";
  cols = 0;
  rows = 0;
  shell = "";
  session = "";
  request_id = "";
}

pub record OpenOptions : Type 0 where
  pub cols : ℕ
  pub rows : ℕ
  pub shell : String

-- The parts that the hub was given. `attach` gives the token of the session; `open` that of a new one.
pub record Deps {ℓ} (W : Type ℓ) : Type ℓ where
  pub services_available : Bool
  pub journal_available : Bool
  pub has_terminal : Bool
  pub has_broker : Bool
  pub attach : String → W → (Error ⊎ String) × W
  pub open_terminal : OpenOptions → W → (Error ⊎ String) × W
  pub kill : String → W → W
  pub byte_length : String → ℕ
  pub lib : Library

pub data Started : Type 0 where
  metrics : ℤ → Started
  services : Started
  journal : Query → Started
  terminal : String → Started
  updates : String → Started

abbrev pub err_validation : String → Error
err_validation msg = record {
  causes = api_error (new_error code_validation_failed msg) ∷ [];
  message = msg;
}

abbrev pub err_unavailable : String → Error
err_unavailable msg = record {
  causes = api_error (new_error code_unavailable msg) ∷ [];
  message = msg;
}

abbrev pub Answer {ℓ} : Type ℓ → Type ℓ
Answer W = (Error ⊎ Started) × W

-- The chain of an error of services or of the journal.
abbrev failing : Cause → String → Error
failing cause message = record { causes = cause ∷ []; message = message }

-- if len(params) > 0 { json.Unmarshal(params, &p) }
abbrev pub with_params {ℓ} : {W : Type ℓ} → RawParams → W → (Params → Answer W) → Answer W
with_params absent w f = f no_params
with_params (malformed message) w f = (inl (err_validation ("invalid params: " ++ message)), w)
with_params (decoded p) w f = f p

abbrev pub is_zero : ℤ → Bool
is_zero (pos n) = n == 0
is_zero (negsuc n) = false

abbrev pub interval_of : ℤ → ℤ
interval_of n = if is_zero n then pos 2000 else n

abbrev pub query_of : Params → Query
query_of p = record {
  unit = p.unit;
  priority = p.priority;
  since = p.since;
  boot = "";
  limit = pos 0;
  after_cursor = p.after;
}

module _ {ℓ} {W : Type ℓ} (deps : Deps W) where
  unfoldable pub start_metrics : RawParams → W → Answer W
  start_metrics raw w = with_params raw w λ p.
      let interval = interval_of p.interval_ms in
      if below interval 500 || above interval 60000
      then (inl (err_validation "intervalMs must be between 500 and 60000"), w)
      else (inr (metrics interval), w)

  unfoldable pub start_services : W → Answer W
  start_services w =
      if deps.services_available
      then (inr services, w)
      else (inl (failing services_unavailable "systemd is unavailable"), w)

  unfoldable pub start_journal : RawParams → W → Answer W
  unfolding validate
  start_journal raw w =
      if not deps.journal_available
      then (inl (failing journal_unavailable "journalctl is unavailable"), w)
      else with_params raw w λ p. elim (validate deps.lib (query_of p)) [
        | some message ↦ (inl (failing journal_validation message), w)
        | none ↦ (inr (journal (query_of p)), w)
      ]

  abbrev pub attached : (Error ⊎ String) × W → Answer W
  attached (inl e, w) = (inl e, w)
  attached (inr token, w) = (inr (terminal token), w)

  -- A new session that cannot be attached is killed.
  abbrev pub attached_new : String → (Error ⊎ String) × W → Answer W
  attached_new token (inl e, w) = (inl e, deps.kill token w)
  attached_new token (inr _, w) = (inr (terminal token), w)

  abbrev pub opened : (Error ⊎ String) × W → Answer W
  opened (inl e, w) = (inl e, w)
  opened (inr token, w) = attached_new token (deps.attach token w)

  unfoldable pub start_terminal : RawParams → W → Answer W
  start_terminal raw w = with_params raw w λ p.
      if not deps.has_terminal
      then (inl (err_unavailable "terminal is not available in this build"), w)
      else if not (str_eq p.session "")
      then attached (deps.attach p.session w)
      else opened (deps.open_terminal (record { cols = p.cols; rows = p.rows; shell = p.shell }) w)

  unfoldable pub start_updates : RawParams → W → Answer W
  start_updates raw w = with_params raw w λ p.
      if str_eq p.request_id "" || ltb 128 (deps.byte_length p.request_id)
      then (inl (err_validation "requestId is required"), w)
      else if not deps.has_broker
      then (inl (err_unavailable "update progress is not available in this build"), w)
      else (inr (updates p.request_id), w)

  unfoldable pub start_channel : String → RawParams → W → Answer W
  unfolding start_metrics start_services start_journal start_terminal start_updates
  start_channel capability raw w =
      if str_eq capability "system.metrics"
      then start_metrics raw w
      else if str_eq capability "services.subscribe"
      then start_services w
      else if str_eq capability "journal.stream"
      then start_journal raw w
      else if str_eq capability "terminal.open"
      then start_terminal raw w
      else if str_eq capability "updates.progress"
      then start_updates raw w
      else (inl (err_validation "unknown capability"), w)

-- An input frame of a terminal; `none` is malformed JSON.
pub record TerminalInput : Type 0 where
  pub kind : String
  pub data' : String
  pub cols : ℕ
  pub rows : ℕ

-- terminal.Session, whose Write cannot fail for the client, and the decoder of base64.
pub record Terminals {ℓ} (W : Type ℓ) : Type ℓ where
  pub decode : String → Option (List ℕ)
  pub write : List ℕ → W → W
  pub resize : ℕ → ℕ → W → Bool × W

abbrev invalid_input : String → Option ApiError
invalid_input message = some (new_error code_validation_failed message)

abbrev resized {ℓ} : {W : Type ℓ} → Bool × W → Option ApiError × W
resized (true, w) = (none, w)
resized (false, w) = (invalid_input "invalid terminal size.", w)

-- handleTerminalInput: the error frame that is queued, if there is one.
unfoldable pub handle_terminal_input {ℓ} :
    {W : Type ℓ} → Terminals W → Option TerminalInput → W → Option ApiError × W
handle_terminal_input sess none w = (invalid_input "Malformed input frame.", w)
handle_terminal_input sess (some in') w =
    if str_eq in'.kind "stdin"
    then elim (sess.decode in'.data') [
      | none ↦ (invalid_input "data must be base64.", w)
      | some bytes ↦ (none, sess.write bytes w)
    ]
    else if str_eq in'.kind "resize"
    then resized (sess.resize in'.cols in'.rows w)
    else (invalid_input "Unknown input kind.", w)
