-- ===== src/Broker/Handlers.antt =====
-- The handlers of the actions in server/internal/broker/broker.go.
-- A handler is one step. The mutex that `lockUnit` takes for the unit of a service keeps two actions
-- on one unit apart, and the log, the network controller and the package worker have their own.
use Prim.Native.String.{◌++◌}
use lumio_os.Prelude.{
  ℕ, String, Bool, true, false, ◌&&◌, not, Option, none, some, [], ◌∷◌, if◌then◌else◌, str_eq,
}
use mathlib.Core.List as Core
use lumio_os.Http.Envelope.{ApiError, text, new_error}
use lumio_os.Network.Controller.Defs.{Result, ok, err, Pending, Error}
use lumio_os.Broker.Request.{
  ActionRequest, Expected, service_actions, update_actions, file_actions, power_actions,
  network_actions,
}
use lumio_os.Broker.Audit.{Kind, begin_row, end_row, deny_row, Row}
use lumio_os.Broker.Host.{
  Effect, did_execute, did_schedule, did_apply, did_confirm, did_write, did_refresh, did_plan,
  did_start_apply, handed, did, WriteError, UpdateError, Outcome, done, failed, Data, unit_data,
  network_pending, network_confirmed, file_data, refreshed, plan_data, started, data_body, Reply,
  Available, Host, State, Caller, Finish, fail, succeed, write_err, network_error, file_error,
  update_error,
}

-- The availability checks of `handleAction`; `none` if all pass.
unfoldable pub check_available : Available → ActionRequest → Option ApiError
unfolding service_actions update_actions file_actions power_actions network_actions
check_available has req =
    if service_actions req.action && not has.sys
    then some (new_error "unavailable" "systemd is unavailable")
    else if file_actions req.action && not has.files
    then some (new_error "unavailable" "protected file editing is unavailable")
    else if file_actions req.action && not (str_eq req.arguments.restart_unit "") && not has.sys
    then some (new_error "unavailable" "systemd is unavailable")
    else if update_actions req.action && not has.updates
    then some (new_error "unavailable" "the package manager is unavailable")
    else if power_actions req.action && not has.power
    then some (new_error "unavailable" "system power control is unavailable")
    else if network_actions req.action && not has.network
    then some (new_error "unavailable" "network configuration is unavailable")
    else none

abbrev pub expected_of : (Expected → String) → Option Expected → String
expected_of field none = ""
expected_of field (some expected) = field expected

unfoldable pub conclude_network : Bool → (Error → String) → Result Pending → Finish
unfolding network_error
conclude_network applies error_text (err e) = network_error (error_text e) e
conclude_network applies error_text (ok pending) =
    succeed (if applies then network_pending pending else network_confirmed pending.token)

unfoldable pub conclude_power : Outcome String Data → Finish
conclude_power (failed e) =
    fail e 500 (new_error "internal" "The power action could not be scheduled.")
conclude_power (done scheduled_data) = succeed scheduled_data

unfoldable pub conclude_service : Outcome String String → Finish
conclude_service (failed e) = fail e 500 (new_error "internal" ("The action failed: " ++ e))
conclude_service (done unit) = succeed (unit_data unit)

unfoldable pub conclude_file : Outcome WriteError Data → Finish
unfolding file_error
conclude_file (failed e) = file_error e
conclude_file (done written) = succeed written

unfoldable pub conclude_update : Outcome UpdateError Data → Finish
unfolding update_error
conclude_update (failed e) = update_error e
conclude_update (done result) = succeed result

abbrev map_done {ℓ κ μ} :
    {E : Type ℓ} {A : Type κ} {B : Type μ} → (A → B) → Outcome E A → Outcome E B
map_done f (done a) = done (f a)
map_done f (failed e) = failed e

module _ {ℓ} {W : Type ℓ} (host : Host W) where
  unfoldable pub insert : Caller → Kind → String → String → String → State W → State W
  insert c kind outcome error result_json s =
      let row : Row = record {
        kind = kind;
        request_id = c.req.request_id;
        uid = c.uid;
        user_name = host.name_for_uid c.uid;
        action = c.req.action;
        arguments_hash = host.arguments_hash c.req;
        polkit_result = c.polkit_result;
        outcome = outcome;
        error = error;
        result_json = result_json;
      } in
      record s {
        audit = if host.takes_row row s.world then Core.◌++◌ s.audit (row ∷ []) else s.audit;
        trace = handed row ∷ s.trace;
      }

  unfoldable pub begin : Caller → State W → State W
  unfolding insert
  begin c s = insert c begin_row "pending" "" "" s

  abbrev encoded : Option Data → String
  encoded none = ""
  encoded (some result) = host.encode result

  unfoldable pub end : Caller → Finish → State W → State W
  unfolding insert
  end c f s = insert c end_row f.outcome f.error (encoded f.result) s

  unfoldable pub deny_action : Caller → ApiError → State W → State W
  unfolding insert
  deny_action c api_error s = insert c deny_row "denied" api_error.message "" s

  -- One call that changes the system.
  unfoldable pub perform {κ} : {A : Type κ} → Effect → (W → A × W) → State W → A × State W
  perform e call s =
      let (a, w) = call s.world in (a, record s { trace = did e ∷ s.trace; world = w })

  -- A call that only reads.
  abbrev ask {κ} : {A : Type κ} → (W → A × W) → State W → A × State W
  ask call s = let (a, w) = call s.world in (a, record s { world = w })

  -- The common shape of the handlers: the "begin" row, the calls, the "end" row, the reply.
  unfoldable pub bracket {κ} :
      {A : Type κ} → Caller → (State W → A × State W) → (A → Finish) → State W → Reply × State W
  unfolding begin end
  bracket c run conclude s =
      let (a, s') = run (begin c s) in
      let f = conclude a in
      (record { replay = false; status = f.status; body = f.body }, end c f s')

  unfoldable pub handle_network_action : Caller → State W → Reply × State W
  unfolding bracket perform conclude_network
  handle_network_action c s =
      let args = c.req.arguments in
      let revision = expected_of (λ e. e.revision) c.req.expected in
      if str_eq c.req.action "network.applyWithRollback"
      then bracket c
          (perform (did_apply args.config revision args.confirm_timeout_sec)
            (host.apply args.config revision args.confirm_timeout_sec))
          (conclude_network true host.error_text) s
      else bracket c (perform (did_confirm args.token) (host.confirm args.token))
          (conclude_network false host.error_text) s

  unfoldable pub handle_power_action : Caller → ℕ → State W → Reply × State W
  unfolding bracket perform conclude_power
  handle_power_action c at s =
      bracket c (perform (did_schedule c.req.action at) (host.schedule c.req.action at))
        conclude_power s

  -- `files.Write`, and then the restart of a unit, if one is named.
  unfoldable pub write_and_restart : Caller → State W → Outcome WriteError Data × State W
  unfolding perform
  write_and_restart c s =
      let args = c.req.arguments in
      let revision = expected_of (λ e. e.revision) c.req.expected in
      let (written, s') =
        perform (did_write args.path args.content_base64 args.mode)
          (host.write args.path args.content_base64 revision args.mode c.req.request_id) s in
      let (restarted, s'') =
        perform (did_execute "services.restart" args.restart_unit)
          (host.execute "services.restart" args.restart_unit) s' in
      elim written [
        | failed e ↦ (failed e, s')
        | done file ↦
            if str_eq args.restart_unit ""
            then (done (file_data file none), s')
            else (done (file_data file (some restarted)), s'')
      ]

  unfoldable pub handle_privileged_file_action : Caller → State W → Reply × State W
  unfolding bracket write_and_restart conclude_file
  handle_privileged_file_action c s = elim (host.lib.decoded_len c.req.arguments.content_base64) [
    | none ↦
        (write_err 400 (new_error "validation_failed" "contentBase64 must be valid base64."), s)
    | some n ↦ bracket c (write_and_restart c) conclude_file s
  ]

  unfoldable pub execute_service : Caller → State W → Reply × State W
  unfolding bracket perform conclude_service
  execute_service c s =
      let unit = c.req.arguments.unit in
      bracket c (perform (did_execute c.req.action unit) (host.execute c.req.action unit))
        conclude_service s

  -- The test of the expected state, on what `unitState` answered.
  unfoldable pub expect_state : Caller → String → Outcome String String × State W → Reply × State W
  unfolding execute_service
  expect_state c expected (failed e, s) =
      (write_err 500 (new_error "internal" "reading unit state failed"), s)
  expect_state c expected (done actual, s) =
      if not (str_eq actual expected)
      then (
        write_err 409 record {
          code = "conflict";
          message = "The unit state does not match the expected state.";
          details =
              ("expectedActiveState", text expected) ∷ ("actualActiveState", text actual) ∷ [];
        },
        s,
      )
      else execute_service c s

  unfoldable pub handle_service_action : Caller → State W → Reply × State W
  unfolding expect_state execute_service
  handle_service_action c s =
      let expected = expected_of (λ e. e.active_state) c.req.expected in
      if str_eq expected ""
      then execute_service c s
      else expect_state c expected (ask (host.unit_state c.req.arguments.unit) s)

  -- The end of "packages.applyPlan": a started update has its "end" row written when it is done.
  unfoldable pub conclude_apply :
      Caller → Outcome UpdateError (String × String) × State W → Reply × State W
  unfolding end update_error
  conclude_apply c (failed e, s) =
      let f = update_error e in
      (record { replay = false; status = f.status; body = f.body }, end c f s)
  conclude_apply c (done (id, plan), s) =
      (record { replay = false; status = 200; body = data_body (started id plan) }, s)

  unfoldable pub handle_update_action : Caller → State W → Reply × State W
  unfolding bracket begin perform conclude_update conclude_apply
  handle_update_action c s =
      if str_eq c.req.action "updates.refresh"
      then bracket c
          (perform did_refresh (λ w. let (r, w') = host.refresh w in (map_done refreshed r, w')))
          conclude_update s
      else if str_eq c.req.action "updates.plan"
      then bracket c
          (perform did_plan
            (λ w. let (r, w') = host.calculate_plan w in (map_done plan_data r, w')))
          conclude_update s
      else conclude_apply c (
          perform (did_start_apply c.req.arguments.plan_id)
            (host.start_apply c.req.arguments.plan_id (expected_of (λ e. e.plan_id) c.req.expected)
              c.req.request_id)
            (begin c s))
