-- ===== src/Broker/Server.antt =====
-- server/internal/broker/broker.go: `handleAction` and `handleUpdateProgress`.
-- A handler is one step. The mutex that `lockUnit` takes keeps two actions on one unit apart; the
-- log, the network controller and the package worker have mutexes of their own.
pub mod Repeats
pub mod Brackets
pub mod Grants
pub mod Audited
mod Examples
use Prim.Native.String.{len}
use lumio_os.Prelude.{
  ℕ, String, Bool, true, false, ◌||◌, not, Option, none, some, ltb, if◌then◌else◌, str_eq,
}
use lumio_os.Http.Envelope.{ApiError, new_error}
use lumio_os.Network.Config.{valid, invalid}
use lumio_os.Broker.Request.{
  ActionRequest, validate, with_timeout, service_actions, update_actions, power_actions,
  network_actions,
}
use lumio_os.Broker.Audit.{Stored, stored_result, request_owned}
use lumio_os.Broker.Host.{
  Reply, Host, State, Caller, Clock, UpdateProgress, Available, write_err, data_body, error_body,
  text_body, started, progress_data,
}
use lumio_os.Broker.Authorise.{granted, refused, Authorisation, authorize}
use lumio_os.Broker.Handlers.{
  check_available, deny_action, handle_service_action, handle_update_action, handle_power_action,
  handle_network_action, handle_privileged_file_action,
}

module _ {ℓ} {W : Type ℓ} (host : Host W) where
  -- The end of `handleAction`.
  unfoldable pub dispatch : Caller → ℕ → State W → Reply × State W
  unfolding service_actions update_actions power_actions network_actions
  dispatch c at s =
      let action = c.req.action in
      if service_actions action
      then handle_service_action host c s
      else if update_actions action
      then handle_update_action host c s
      else if power_actions action
      then handle_power_action host c at s
      else if network_actions action
      then handle_network_action host c s
      else handle_privileged_file_action host c s

  -- What follows `authorize`.
  unfoldable pub authorised : ActionRequest → ℕ → ℕ → State W → Authorisation × W → Reply × State W
  authorised req uid at s (granted result, w) =
      dispatch record { req = req; uid = uid; polkit_result = result } at record s { world = w }
  authorised req uid at s (refused result e, w) =
      if str_eq e.code "unavailable" then (write_err 503 e, record s { world = w }) else (
        write_err 403 e,
        deny_action host record { req = req; uid = uid; polkit_result = result } e
            record s { world = w },
      )

  abbrev replayed : ℕ × Stored → Reply
  replayed (status, body) = record { replay = true; status = status; body = text_body body }

  -- The second look for an earlier request, in the package worker.
  unfoldable pub check_progress : ActionRequest → W → Option UpdateProgress
  check_progress req w =
      if str_eq req.action "packages.applyPlan" then host.progress req.request_id w else none

  -- `handleAction` from the log on.
  unfoldable pub serve : ActionRequest → ℕ → ℕ → Clock → State W → Reply × State W
  unfolding check_progress authorised
  serve req uid pid clock s = elim (stored_result req.request_id s.audit) [
    | some found ↦ (replayed found, s)
    | none ↦ elim (check_progress req s.world) [
      | some progress ↦ (
        record {
          replay = true;
          status = 200;
          body = data_body (started progress.request_id progress.plan_id);
        },
        s,
      )
      | none ↦
          authorised req uid clock.scheduled s (authorize host uid pid req clock.checked s.world)
    ]
  ]

  unfoldable pub if_available :
      Option ApiError → ActionRequest → ℕ → ℕ → Clock → State W → Reply × State W
  unfolding serve
  if_available (some e) req uid pid clock s = (write_err 503 e, s)
  if_available none req uid pid clock s = serve req uid pid clock s

  -- The peer's uid and pid, and the body, `none` if it is no JSON object of the right shape.
  unfoldable pub handle_action : ℕ → ℕ → Option ActionRequest → Clock → State W → Reply × State W
  unfolding validate check_available if_available
  handle_action uid pid none clock s =
      (write_err 400 (new_error "validation_failed" "Body must be a JSON object."), s)
  handle_action uid pid (some req) clock s = elim (validate host.lib req) [
    | invalid message ↦ (write_err 400 (new_error "validation_failed" message), s)
    | valid ↦
        if_available (check_available (host.available s.world) req) (with_timeout req) uid pid clock
          s
  ]

  unfoldable pub handle_update_progress : ℕ → String → State W → Reply
  unfolding request_owned
  handle_update_progress uid id s =
      if str_eq id "" || ltb 128 (len id)
      then write_err 400 (new_error "validation_failed" "requestId is required.")
      else if not (request_owned id uid s.audit)
      then write_err 404 (new_error "not_found" "update progress was not found")
      else if not (host.available s.world).worker
      then write_err 503 (new_error "unavailable" "the package manager is unavailable")
      else elim (host.progress id s.world) [
        | none ↦ write_err 404 (new_error "not_found" "update progress was not found")
        | some progress ↦ record {
          replay = false;
          status = 200;
          body = data_body (progress_data progress.json);
        }
      ]
