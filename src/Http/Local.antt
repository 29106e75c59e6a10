-- ===== src/Http/Local.antt =====
-- The handlers of server/internal/httpapi/handlers.go that the agent answers itself: the files of the
-- user, the services and the journal.
-- A body is the decoded JSON, `none` if it is no object of the right shape; an absent text is empty.
-- `decode` is encoding/base64, `atoi` strconv.Atoi.
pub mod Saved
mod Examples
use Prim.Native.String.{String, ◌++◌}
use lumio_os.Prelude.{
  ℕ, ◌*◌, Bool, true, false, not, Option, none, some, List, [], ◌∷◌, ltb, ◌⊎◌, inl, inr, str_eq,
  if◌then◌else◌,
}
use lumio_os.Prelude.Int.{ℤ, pos}
use lumio_os.Prelude.Lists.{length}
use lumio_os.Prelude.Action.{Result, ok, err}
use lumio_os.Http.Envelope.{
  Error, api_error, path_error, err_not_exist, err_permission, files_validation, journal_validation,
  stale_revision, stale_error, services_unavailable, journal_unavailable, other_cause, new_error,
  code_validation_failed, Envelope, Response, write_data, write_error,
}
use lumio_os.Http.Idempotency.{
  IdemStore, Header, Recorder, Reply, Clock, valid_request_id, get, mutate, replay_header,
}
use lumio_os.Files.System.{Bytes, State, System, M}
use lumio_os.Files.System as Disk
use lumio_os.Files.User.List.{ListResult, Directory, list}
use lumio_os.Files.User.Read.{Codec, ReadResult, read_file}
use lumio_os.Files.User.Write.{WriteResult, write}
use lumio_os.Files.User.Trash.{Desk, trash}
use lumio_os.Services.Units.{ServiceUnit, ServiceError, err_unavailable, failure, Bus}
use lumio_os.Services.Watch.{Manager}
use lumio_os.Services.Watch as Watch
use lumio_os.Services.Detail.{Detail, detail}
use lumio_os.Journal.Entry as Entry
use lumio_os.Broker.Request.{unit_name_pattern}
use lumio_os.Journal.Query.{Query, Library, validate}
use lumio_os.Journal.Cli as Cli

-- files.MaxWriteBytes
abbrev pub max_write_bytes : ℕ
max_write_bytes = 8 * 1024 * 1024

pub data LocalData : Type 0 where
  listed : ListResult → LocalData
  file_read : ReadResult → LocalData
  file_written : WriteResult → LocalData
  trashed : Bool → LocalData
  units : List ServiceUnit → LocalData
  unit_detail : Detail → LocalData
  journal_page : Cli.Result → LocalData

abbrev pub Answer : Type 0
Answer = Envelope LocalData

-- The error chains that the packages return.
unfoldable pub file_chain : Disk.Error → Error
file_chain (Disk.err_validation m) = record {
  causes = files_validation ∷ [];
  message = "invalid file request: " ++ m;
}
file_chain (Disk.stale_error expected actual) = record {
  causes = stale_error expected actual ∷ stale_revision ∷ [];
  message = "the file changed on disk since it was read";
}
file_chain (Disk.not_found p) = record {
  causes = path_error p ∷ err_not_exist ∷ [];
  message = p ++ ": no such file or directory";
}
file_chain (Disk.permission p) = record {
  causes = path_error p ∷ err_permission ∷ [];
  message = p ++ ": permission denied";
}
file_chain (Disk.system_error m) = record { causes = other_cause m ∷ []; message = m }

unfoldable pub service_chain : ServiceError → Error
service_chain err_unavailable = record {
  causes = services_unavailable ∷ [];
  message = "systemd is unavailable";
}
service_chain (failure m) = record { causes = other_cause m ∷ []; message = m }

unfoldable pub journal_chain : Cli.Error → Error
journal_chain Cli.err_unavailable = record {
  causes = journal_unavailable ∷ [];
  message = "journalctl is unavailable";
}
journal_chain (Cli.err_validation m) = record { causes = journal_validation ∷ []; message = m }
journal_chain (Cli.journalctl_failed m) = record { causes = other_cause m ∷ []; message = m }
journal_chain Cli.unreadable_output = record { causes = other_cause "" ∷ []; message = "" }

abbrev pub invalid : String → Response LocalData
invalid message =
    write_error record {
      causes = api_error (new_error code_validation_failed message) ∷ [];
      message = message;
    }

abbrev pub respond {ℓ} : {A : Type ℓ} → (A → LocalData) → Disk.Error ⊎ A → Response LocalData
respond f (inl e) = write_error (file_chain e)
respond f (inr a) = write_data (f a)

abbrev pub json_header : Header
json_header = ("Content-Type", "application/json; charset=utf-8") ∷ []

abbrev retry_header : Option ℕ → Header
retry_header none = json_header
retry_header (some seconds) = ("Retry-After", "1") ∷ json_header

-- What a handler writes, as the recorder of `mutate` has it.
abbrev pub recorded : Response LocalData → Recorder Answer
recorded r = record { status = r.status; body = r.body; header = retry_header r.retry_after }

abbrev pub replied : Response LocalData → Reply Answer
replied r = record { header = retry_header r.retry_after; status = r.status; body = r.body }

pub record WriteBody : Type 0 where
  pub path : String
  pub content : String
  pub expected_revision : String
  pub request_id : String

pub record DeleteBody : Type 0 where
  pub path : String
  pub request_id : String

pub record JournalParams : Type 0 where
  pub query : Query
  pub limit : String

abbrev pub finished {ℓ κ} :
    {S : Type ℓ} {A : Type κ} → (A → LocalData) → Result Disk.Error A × S → Recorder Answer × S
finished f (ok a, s) = (recorded (write_data (f a)), s)
finished f (err e, s) = (recorded (write_error (file_chain e)), s)

abbrev answered {ℓ κ} :
    {S : Type ℓ} {A : Type κ} → (A → LocalData) → Result Disk.Error A × S → Response LocalData × S
answered f (ok a, s) = (write_data (f a), s)
answered f (err e, s) = (write_error (file_chain e), s)

-- The checks in front of files.Write: the message of the refusal, or the content.
abbrev pub checked_content : (String → Option Bytes) → WriteBody → Result String Bytes
checked_content decode req =
    if not (valid_request_id req.request_id)
    then err "requestId is required."
    else elim (decode req.content) [
      | none ↦ err "content must be base64."
      | some content ↦
          if ltb max_write_bytes (length content)
          then err "content exceeds the 8 MiB limit for files.write."
          else ok content
    ]

module _ {ℓ} {W : Type ℓ} (sys : System W) where
  module _ (dir : Directory W) (codec : Codec) where
    unfoldable pub handle_files_list : String → State W → Response LocalData × State W
    unfolding list
    handle_files_list path s = answered listed (list sys dir path s)

    unfoldable pub handle_files_read : String → State W → Response LocalData × State W
    unfolding read_file
    handle_files_read path s = answered file_read (read_file codec sys path s)

  abbrev pub run_write : WriteBody → Bytes → State W → Recorder Answer × State W
  run_write req content s =
      finished file_written (write sys req.path content req.expected_revision s)

  abbrev pub write_checked :
      WriteBody
      → Result String Bytes
      → IdemStore Answer
      → Clock
      → State W
      → Reply Answer × IdemStore Answer × State W
  write_checked req (err message) store t s = (replied (invalid message), store, s)
  write_checked req (ok content) store t s = mutate store req.request_id t (run_write req content) s

  unfoldable pub handle_files_write :
      (String → Option Bytes)
      → Option WriteBody
      → IdemStore Answer
      → Clock
      → State W
      → Reply Answer × IdemStore Answer × State W
  unfolding valid_request_id write
  handle_files_write decode none store t s =
      (replied (invalid "Body must be a JSON object."), store, s)
  handle_files_write decode (some req) store t s =
      write_checked req (checked_content decode req) store t s

  abbrev trash_recorded :
      Option (Result Disk.Error Bool × State W) → Option (Recorder Answer × State W)
  trash_recorded none = none
  trash_recorded (some r) = some (finished trashed r)

  -- What `mutate` gives, where `none` is that the loop of files.Trash for a free name ran out of fuel. A
  -- stored answer is given back without it.
  abbrev delete_run :
      IdemStore Answer
      → String
      → Clock
      → State W
      → Option (Recorder Answer × State W)
      → Option (Reply Answer × IdemStore Answer × State W)
  delete_run store id t s (some r) = some (mutate store id t (λ _. r) s)
  delete_run store id t s none = elim (get store id t.looked_up).0 [
    | none ↦ none
    | some entry ↦ some (
      record { header = replay_header; status = entry.status; body = entry.body },
      (get store id t.looked_up).1,
      s,
    )
  ]

  unfoldable pub handle_files_delete :
      Desk W
      → ℕ
      → Option DeleteBody
      → IdemStore Answer
      → Clock
      → State W
      → Option (Reply Answer × IdemStore Answer × State W)
  unfolding valid_request_id trash
  handle_files_delete desk fuel none store t s =
      some (replied (invalid "Body must be a JSON object."), store, s)
  handle_files_delete desk fuel (some req) store t s =
      if valid_request_id req.request_id
      then delete_run store req.request_id t s (trash_recorded (trash sys desk fuel req.path s))
      else some (replied (invalid "requestId is required."), store, s)

abbrev service_response {ℓ} :
    {S : Type ℓ} {A : Type 0} → (A → LocalData) → Result ServiceError A × S → Response LocalData × S
service_response f (ok a, s) = (write_data (f a), s)
service_response f (err e, s) = (write_error (service_chain e), s)

abbrev detail_response {ℓ} :
    {W : Type ℓ} → Result ServiceError Detail × Manager × W → Response LocalData × Manager × W
detail_response (ok d, m, w) = (write_data (unit_detail d), m, w)
detail_response (err e, m, w) = (write_error (service_chain e), m, w)

module _ {ℓ} {W : Type ℓ} (bus : Bus W) where
  unfoldable pub handle_services : Manager → W → Response LocalData × W
  unfolding service_chain Watch.list
  handle_services m w =
      if m.connected
      then service_response units (Watch.list bus m w)
      else (write_error (service_chain err_unavailable), w)

  unfoldable pub handle_service_detail :
      (ℕ → String → Option Bytes) → String → Manager → W → Response LocalData × Manager × W
  unfolding service_chain detail unit_name_pattern
  handle_service_detail open_read name m w =
      if not m.connected
      then (write_error (service_chain err_unavailable), m, w)
      else if unit_name_pattern name
      then detail_response (detail bus open_read name m w)
      else (invalid "invalid unit name.", m, w)

abbrev with_limit : (String → Option ℤ) → JournalParams → Option Query
with_limit atoi p =
    if str_eq p.limit ""
    then some p.query
    else elim (atoi p.limit) [ none ↦ none | some n ↦ some (record p.query { limit = n }) ]

abbrev journal_response : Cli.Error ⊎ Cli.Result → Response LocalData
journal_response (inl e) = write_error (journal_chain e)
journal_response (inr r) = write_data (journal_page r)

module _ (lib : Library) (codec : Entry.Codec) (journalctl : List String → Cli.Output)
    (atoi : String → Option ℤ) where
  -- The query of the parameters has no limit of its own, which is then 0.
  unfoldable pub handle_journal : Bool → JournalParams → Response LocalData
  unfolding journal_chain Cli.query validate
  handle_journal available p =
      if not available
      then write_error (journal_chain Cli.err_unavailable)
      else elim (with_limit atoi p) [
        | none ↦ invalid "limit must be an integer"
        | some q ↦ elim (validate lib q) [
          | some message ↦ write_error (journal_chain (Cli.err_validation message))
          | none ↦ journal_response (Cli.query lib codec journalctl true q)
        ]
      ]
