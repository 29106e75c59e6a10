-- ===== src/Http/Handlers/Agreement.antt =====
-- What the agent forwards, the broker takes: the handlers of server/internal/httpapi/handlers.go against
-- `validate` of server/internal/broker/broker.go.
use lumio_os.Prelude.{
  ℕ, ◌≡◌, refl, String, Bool, true, false, ◌&&◌, ◌||◌, not, Option, none, some, str_eq, eq_iff,
  arith, Bool-cases, inl, inr,
}
use lumio_os.Prelude.Text.{codes}
use lumio_os.Network.Config.{valid}
use lumio_os.Broker.Request.{
  ActionRequest, Library, validate, is_active_state, mode_pattern, validate_state, is_etc_path,
}
use lumio_os.Http.Handlers.{
  Forwarded, forwarded, with_body, PowerBody, TokenBody, handle_system_power,
  handle_network_confirm, handle_updates_plan, handle_network_apply, handle_updates_apply, FileBody,
  handle_files_write_privileged, handle_updates_refresh, handle_services_action, NetworkBody,
  ServiceBody, PlanBody, expected_state, handle, Call, services_action, system_power,
  files_write_privileged, network_apply, network_confirm, updates_refresh, updates_plan,
  updates_apply,
}
use lumio_os.Http.Handlers.Passing.{
  guard-passes, request_id-fits, guard_config-passes, default_idem, action-known, payload,
}

module _ (lib : Library) where
  confirm-valid :
      (session : String) (b : TokenBody) (req : ActionRequest) (t : ℕ)
      → handle_network_confirm true session (some b) ≡ forwarded req t
      → validate lib req ≡ valid
  unfolding with_body handle_network_confirm validate
  confirm-valid session b req t h =
      let (id, h1) = guard-passes _ _ _ req t h in
      let (token, h2) = guard-passes _ _ _ req t h1 in
      rw (← payload _ req _ t h2, request_id-fits b.request_id id, token) refl

  power-valid :
      (session : String) (b : PowerBody) (req : ActionRequest) (t : ℕ)
      → handle_system_power true session (some b) ≡ forwarded req t
      → validate lib req ≡ valid
  unfolding with_body handle_system_power validate
  power-valid session b req t h =
      let (id, h1) = guard-passes _ _ _ req t h in
      let (action, h2) = guard-passes _ _ _ req t h1 in
      let same = payload _ req _ t h2 in
      let fits = request_id-fits b.request_id id in
      elim (Bool-cases (str_eq b.action "reboot")) [
        | inl e ↦ rw (← same, fits, (eq_iff b.action "reboot").0 e) refl
        | inr e ↦
            let other : str_eq b.action "poweroff" ≡ true = ground arith in
            rw (← same, fits, (eq_iff b.action "poweroff").0 other) refl
      ]

  apply-valid :
      (session : String) (b : NetworkBody) (req : ActionRequest) (t : ℕ)
      → handle_network_apply lib true session (some b) ≡ forwarded req t
      → validate lib req ≡ valid
  unfolding with_body handle_network_apply validate
  apply-valid session b req t h =
      let (id, h1) = guard-passes _ _ _ req t h in
      let (revision, h2) = guard-passes _ _ _ req t h1 in
      let (timeout, h3) = guard-passes _ _ _ req t h2 in
      let (config, h4) = guard_config-passes _ _ req t h3 in
      let same = payload _ req _ t h4 in
      rw
        (
          ← same,
          request_id-fits b.request_id id,
          default_idem b.confirm_timeout,
          revision,
          config,
          timeout,
        )
        refl

  plan-valid :
      (session : String) (b : PlanBody) (req : ActionRequest) (t : ℕ)
      → handle_updates_apply true session (some b) ≡ forwarded req t
      → validate lib req ≡ valid
  unfolding with_body handle_updates_apply validate
  plan-valid session b req t h =
      let (id, h1) = guard-passes _ _ _ req t h in
      let (plan, h2) = guard-passes _ _ _ req t h1 in
      let same = payload _ req _ t h2 in
      rw (← same, request_id-fits b.request_id id, plan, (eq_iff b.plan_id b.plan_id).1 refl) refl

  refresh-valid :
      (session id : String) (req : ActionRequest) (t : ℕ)
      → handle_updates_refresh true session (some id) ≡ forwarded req t
      → validate lib req ≡ valid
  unfolding with_body handle_updates_refresh validate
  refresh-valid session id req t h =
      let (ok, h1) = guard-passes _ _ _ req t h in
      rw (← payload _ req _ t h1, request_id-fits id ok) refl

  calculate-valid :
      (session id : String) (req : ActionRequest) (t : ℕ)
      → handle_updates_plan true session (some id) ≡ forwarded req t
      → validate lib req ≡ valid
  unfolding with_body handle_updates_plan validate
  calculate-valid session id req t h =
      let (ok, h1) = guard-passes _ _ _ req t h in
      rw (← payload _ req _ t h1, request_id-fits id ok) refl

  -- The broker's test of the expected state, which the agent leaves to it.
  abbrev pub state_fits : Option String → Bool
  state_fits none = true
  state_fits (some state) = str_eq state "" || is_active_state state

  state-valid :
      (expected : Option String)
      → state_fits expected ≡ true
      → validate_state (expected_state expected) valid ≡ valid
  unfolding validate_state
  state-valid none h = refl
  state-valid (some state) h = ground arith

  service-valid :
      (session : String) (b : ServiceBody) (req : ActionRequest) (t : ℕ)
      → handle_services_action true session (some b) ≡ forwarded req t
      → state_fits b.expected ≡ true
      → validate lib req ≡ valid
  unfolding with_body handle_services_action validate
  service-valid session b req t h state =
      let (id, h1) = guard-passes _ _ _ req t h in
      let (action, h2) = guard-passes _ _ _ req t h1 in
      let (unit, h3) = guard-passes _ _ _ req t h2 in
      let same = payload _ req _ t h3 in
      let fits = request_id-fits b.request_id id in
      let (known, plan, file, apply, confirm) = action-known b.action (ground arith) in
      rw (← same, fits, known, plan, file, apply, confirm, unit) (state-valid b.expected state)

  -- The tests of a protected file that the agent leaves to the broker.
  abbrev pub path_fits : FileBody → Bool
  path_fits b =
      lib.is_abs b.path
      && str_eq (lib.clean b.path) b.path
      && (str_eq b.mode "" || mode_pattern (codes b.mode))

  file-valid :
      (session : String) (b : FileBody) (req : ActionRequest) (t : ℕ)
      → handle_files_write_privileged lib true session (some b) ≡ forwarded req t
      → path_fits b ≡ true
      → validate lib req ≡ valid
  unfolding with_body handle_files_write_privileged validate
  file-valid session b req t h rest =
      let (id, h1) = guard-passes _ _ _ req t h in
      let (path, h2) = guard-passes _ _ _ req t h1 in
      let (content, h3) = guard-passes _ _ _ req t h2 in
      let (revision, h4) = guard-passes _ _ _ req t h3 in
      let (unit, h5) = guard-passes _ _ _ req t h4 in
      let same = payload _ req _ t h5 in
      let fits = request_id-fits b.request_id id in
      let etc : not (is_etc_path lib b.path) ≡ false = ground arith in
      let mode : not (str_eq b.mode "") && not (mode_pattern (codes b.mode)) ≡ false =
        ground arith in
      rw (← same, fits, etc, revision, content, mode, unit) refl

with_body-passes {ℓ} :
    {A : Type ℓ} (socket : Bool) (body : Option A) (f : A → Forwarded) (req : ActionRequest) (t : ℕ)
    → with_body socket body f ≡ forwarded req t
    → (b : A) × ((body ≡ some b) × (f b ≡ forwarded req t))
unfolding with_body
with_body-passes false body f req t h = absurd (cc h)
with_body-passes true none f req t h = absurd (cc h)
with_body-passes true (some b) f req t h = (b, (refl, h))

-- What the broker tests and the agent does not: an expected state, and the path and the mode of a
-- file.
abbrev pub leaves : Library → Call → Bool
leaves lib (services_action (some b)) = state_fits lib b.expected
leaves lib (files_write_privileged (some b)) = path_fits lib b
leaves lib call = true

-- Whatever the agent hands to the broker passes the broker's validation, provided that a service's
-- expected state is a known one, and that a protected file's path is absolute and canonical and its mode
-- allowed.
pub forwarded_valid :
    (lib : Library) (socket : Bool) (session : String) (call : Call) (req : ActionRequest) (t : ℕ)
    → handle lib socket session call ≡ forwarded req t
    → leaves lib call ≡ true
    → validate lib req ≡ valid
unfolding handle with_body handle_system_power handle_network_apply handle_network_confirm
    handle_files_write_privileged handle_services_action handle_updates_refresh handle_updates_plan
    handle_updates_apply
forwarded_valid lib socket session (system_power body) req t h ok =
    let (b, (_, k)) = with_body-passes socket body _ req t h in power-valid lib session b req t k
forwarded_valid lib socket session (network_apply body) req t h ok =
    let (b, (_, k)) = with_body-passes socket body _ req t h in apply-valid lib session b req t k
forwarded_valid lib socket session (network_confirm body) req t h ok =
    let (b, (_, k)) = with_body-passes socket body _ req t h in confirm-valid lib session b req t k
forwarded_valid lib socket session (files_write_privileged body) req t h ok =
    let (b, (e, k)) = with_body-passes socket body _ req t h in
    file-valid lib session b req t k (rw e at ok)
forwarded_valid lib socket session (services_action body) req t h ok =
    let (b, (e, k)) = with_body-passes socket body _ req t h in
    service-valid lib session b req t k (rw e at ok)
forwarded_valid lib socket session (updates_refresh body) req t h ok =
    let (b, (_, k)) = with_body-passes socket body _ req t h in refresh-valid lib session b req t k
forwarded_valid lib socket session (updates_plan body) req t h ok =
    let (b, (_, k)) = with_body-passes socket body _ req t h in
    calculate-valid lib session b req t k
forwarded_valid lib socket session (updates_apply body) req t h ok =
    let (b, (_, k)) = with_body-passes socket body _ req t h in plan-valid lib session b req t k
