-- ===== src/Http/Envelope.antt =====
-- server/internal/httpapi/envelope.go: how an error becomes a response.
-- An `error` is the chain that `errors.Is` and `errors.As` walk, outermost first, and the text that
-- `Error()` returns.
pub mod Mapping
mod Examples
use lumio_os.Prelude.{
  ℕ, String, Bool, true, false, ◌||◌, Option, none, some, List, [], ◌∷◌, if◌then◌else◌, str_eq,
}

abbrev pub code_unauthorized : String
code_unauthorized = "unauthorized"

abbrev pub code_forbidden : String
code_forbidden = "forbidden"

abbrev pub code_not_found : String
code_not_found = "not_found"

abbrev pub code_conflict : String
code_conflict = "conflict"

abbrev pub code_stale_revision : String
code_stale_revision = "stale_revision"

abbrev pub code_validation_failed : String
code_validation_failed = "validation_failed"

abbrev pub code_busy : String
code_busy = "busy"

abbrev pub code_unavailable : String
code_unavailable = "unavailable"

abbrev pub code_internal : String
code_internal = "internal"

-- The values that stand in an error's details.
pub data Detail : Type 0 where
  text : String → Detail
  number : ℕ → Detail
  flag : Bool → Detail

pub record ApiError : Type 0 where
  pub code : String
  pub message : String
  pub details : List (String × Detail)

abbrev pub new_error : String → String → ApiError
new_error code message = record { code = code; message = message; details = [] }

-- codeStatus and StatusFor
unfoldable pub status_for : String → ℕ
status_for code =
    if str_eq code code_unauthorized
    then 401
    else if str_eq code code_forbidden
    then 403
    else if str_eq code code_not_found
    then 404
    else if str_eq code code_conflict
    then 409
    else if str_eq code code_stale_revision
    then 409
    else if str_eq code code_validation_failed
    then 400
    else if str_eq code code_busy
    then 409
    else if str_eq code code_unavailable
    then 503
    else 500

-- The errors that `MapError` tells apart; `stale_error` is a *files.StaleError, which unwraps to
-- files.ErrStaleRevision, and an errno matches fs.ErrPermission or fs.ErrNotExist as Go's `Errno.Is`
-- has it.
pub data Cause : Type 0 where
  api_error : ApiError → Cause
  path_error link_error : String → Cause
  err_permission eacces eperm ebusy err_not_exist enoent : Cause
  files_validation journal_validation stale_revision : Cause
  stale_error : String → String → Cause
  services_unavailable journal_unavailable : Cause
  terminal_not_found terminal_conflict terminal_validation deadline_exceeded : Cause
  other_cause : String → Cause

pub record Error : Type 0 where
  pub causes : List Cause
  pub message : String

-- errors.As: the first cause that a test takes.
abbrev first {ℓ} : {A : Type ℓ} → (Cause → Option A) → List Cause → Option A
first take [] = none
first take (c ∷ cs) = elim (take c) [ some a ↦ some a | none ↦ first take cs ]

-- errors.Is
abbrev any : (Cause → Bool) → List Cause → Bool
any test [] = false
any test (c ∷ cs) = test c || any test cs

abbrev as_api_error : Cause → Option ApiError
as_api_error (api_error e) = some e
as_api_error _ = none

abbrev as_path_error : Cause → Option String
as_path_error (path_error p) = some p
as_path_error _ = none

abbrev as_link_error : Cause → Option String
as_link_error (link_error p) = some p
as_link_error _ = none

abbrev as_stale : Cause → Option (String × String)
as_stale (stale_error expected actual) = some (expected, actual)
as_stale _ = none

abbrev is_permission : Cause → Bool
is_permission err_permission = true
is_permission eacces = true
is_permission eperm = true
is_permission ebusy = true
is_permission _ = false

abbrev is_not_exist : Cause → Bool
is_not_exist err_not_exist = true
is_not_exist enoent = true
is_not_exist _ = false

abbrev is_validation : Cause → Bool
is_validation files_validation = true
is_validation journal_validation = true
is_validation _ = false

abbrev is_stale : Cause → Bool
is_stale stale_revision = true
is_stale (stale_error expected actual) = true
is_stale _ = false

abbrev is_services_unavailable : Cause → Bool
is_services_unavailable services_unavailable = true
is_services_unavailable _ = false

abbrev is_journal_unavailable : Cause → Bool
is_journal_unavailable journal_unavailable = true
is_journal_unavailable _ = false

abbrev is_terminal_not_found : Cause → Bool
is_terminal_not_found terminal_not_found = true
is_terminal_not_found _ = false

abbrev is_terminal_conflict : Cause → Bool
is_terminal_conflict terminal_conflict = true
is_terminal_conflict _ = false

abbrev is_terminal_validation : Cause → Bool
is_terminal_validation terminal_validation = true
is_terminal_validation _ = false

abbrev is_deadline : Cause → Bool
is_deadline deadline_exceeded = true
is_deadline _ = false

map_stale : Option (String × String) → ApiError
map_stale (some (expected, actual)) = record {
  code = code_stale_revision;
  message = "The file changed on disk since it was read.";
  details = ("expectedRevision", text expected) ∷ ("actualRevision", text actual) ∷ [];
}
map_stale none = new_error code_stale_revision "The file changed on disk since it was read."

-- The second switch of `MapError`.
map_sentinel : Error → ApiError
unfolding map_stale
map_sentinel e =
    if any is_validation e.causes
    then new_error code_validation_failed e.message
    else if any is_stale e.causes
    then map_stale (first as_stale e.causes)
    else if any is_services_unavailable e.causes
    then new_error code_unavailable "The systemd D-Bus connection is unavailable on this host."
    else if any is_journal_unavailable e.causes
    then new_error code_unavailable "journalctl is not available on this host."
    else if any is_terminal_not_found e.causes
    then new_error code_not_found "Unknown or expired terminal session."
    else if any is_terminal_conflict e.causes
    then new_error code_conflict "The terminal session is already attached."
    else if any is_terminal_validation e.causes
    then new_error code_validation_failed e.message
    else if any is_deadline e.causes
    then new_error code_unavailable "The system did not answer in time."
    else new_error code_internal "Internal server error."

-- The path that a file system error names: a PathError goes before a LinkError.
unfoldable pub failed_path : List Cause → Option String
failed_path cs = elim (first as_path_error cs) [ some p ↦ some p | none ↦ first as_link_error cs ]

map_path : Error → String → ApiError
unfolding map_sentinel
map_path e path =
    if any is_permission e.causes
    then record {
      code = code_forbidden;
      message = "Permission denied.";
      details = ("path", text path) ∷ [];
    }
    else if any is_not_exist e.causes
    then record {
      code = code_not_found;
      message = "The path does not exist.";
      details = ("path", text path) ∷ [];
    }
    else map_sentinel e

pub map_error : Error → ApiError
unfolding map_path failed_path
map_error e = elim (first as_api_error e.causes) [
  | some apiErr ↦ apiErr
  | none ↦ elim (failed_path e.causes) [ some path ↦ map_path e path | none ↦ map_sentinel e ]
]

-- {"ok": true, "data": ...} or {"ok": false, "error": ...}
pub data Envelope {ℓ} (D : Type ℓ) : Type ℓ where
  success : D → Envelope D
  failure : ApiError → Envelope D

pub record Response {ℓ} (D : Type ℓ) : Type ℓ where
  pub status : ℕ
  pub retry_after : Option ℕ
  pub body : Envelope D

module _ {ℓ} {D : Type ℓ} where
  pub write_data : D → Response D
  write_data d = record { status = 200; retry_after = none; body = success d }

  pub write_error : Error → Response D
  write_error e =
      let apiErr = map_error e in
      record {
        status = status_for apiErr.code;
        retry_after = if str_eq apiErr.code code_unavailable then some 1 else none;
        body = failure apiErr;
      }
