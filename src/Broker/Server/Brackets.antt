-- ===== src/Broker/Server/Brackets.antt =====
-- What each handler of server/internal/broker/broker.go leaves in the trace and in the log.
use lumio_os.Prelude.{
  ◌++◌, ℕ, String, ◌≡◌, ◌⊎◌, inl, inr, refl, List, [], ◌∷◌, str_eq, Bool-cases, Option-cases,
  if◌then◌else◌,
}
use lumio_os.Broker.Request.{service_actions, update_actions, power_actions, network_actions}
use lumio_os.Broker.Audit.{Row, Kind, begin_row, end_row, deny_row}
use lumio_os.Broker.Host.{
  WriteError, UpdateError, Event, handed, did, Effect, did_execute, did_start_apply, did_write,
  State, Host, Caller, Outcome, done, failed, Reply,
}
use lumio_os.Broker.Handlers.{
  expected_of, conclude_file, begin, bracket, write_and_restart, handle_service_action,
  expect_state, execute_service, handle_update_action, conclude_apply, handle_power_action,
  handle_network_action, handle_privileged_file_action,
}
use lumio_os.Broker.Server.{dispatch}

-- A row of this kind for this request.
abbrev pub IsRow : Kind → String → ℕ → Row → Type 0
IsRow kind id uid row = (row.kind ≡ kind) × (row.request_id ≡ id) × (row.uid ≡ uid)

abbrev pub IsGrant : String → Type 0
IsGrant result = (result ≡ "allow") ⊎ (result ≡ "challenge+reauth")

-- A "begin" row of an action that was let through.
abbrev pub Begins : String → ℕ → Row → Type 0
Begins id uid row = IsRow begin_row id uid row × IsGrant row.polkit_result

module _ {ℓ} {W : Type ℓ} (host : Host W) where
  -- The log after an attempt to write a row, which SQLite may fail to take.
  abbrev pub Logged : Row → List Row → List Row → Type ℓ
  Logged row a a' = (w : W) × (a' ≡ (if host.takes_row row w then a ++ (row ∷ []) else a))

  -- How the trace and the log may change in one request.
  pub data Change (id : String) (uid : ℕ) (t : List Event) (a : List Row)
      : List Event → List Row → Type ℓ where
    unchanged : Change id uid t a t a
    recorded_denial :
        (row : Row) (a' : List Row)
        → IsRow deny_row id uid row
        → Logged row a a'
        → Change id uid t a (handed row ∷ t) a'
    carried_out :
        (b e : Row) (x : Effect) (m a' : List Row)
        → Begins id uid b
        → IsRow end_row id uid e
        → Logged b a m
        → Logged e m a'
        → Change id uid t a (handed e ∷ did x ∷ handed b ∷ t) a'
    saved_and_restarted :
        (b e : Row) (path content mode unit : String) (m a' : List Row)
        → Begins id uid b
        → IsRow end_row id uid e
        → Logged b a m
        → Logged e m a'
        → Change id uid t a
            (handed e
              ∷ did (did_execute "services.restart" unit)
              ∷ did (did_write path content mode)
              ∷ handed b
              ∷ t)
            a'
    started_update :
        (b : Row) (plan : String) (a' : List Row)
        → Begins id uid b
        → Logged b a a'
        → Change id uid t a (did (did_start_apply plan) ∷ handed b ∷ t) a'

  abbrev Fits : Caller → State W → Reply × State W → Type ℓ
  Fits c s r = Change c.req.request_id c.uid s.trace s.audit r.1.trace r.1.audit

  network-Fits :
      (c : Caller) (s : State W)
      → IsGrant c.polkit_result
      → Fits c s (handle_network_action host c s)
  unfolding handle_network_action
  network-Fits c s g = elim (Bool-cases (str_eq c.req.action "network.applyWithRollback")) [
    | inl e ↦
        rw (e, handle_network_action)
          (carried_out _ _ _ _ _ ((refl, refl, refl), g) (refl, refl, refl) (_, refl) (_, refl))
    | inr e ↦
        rw (e, handle_network_action)
          (carried_out _ _ _ _ _ ((refl, refl, refl), g) (refl, refl, refl) (_, refl) (_, refl))
  ]

  power-Fits :
      (c : Caller) (at : ℕ) (s : State W)
      → IsGrant c.polkit_result
      → Fits c s (handle_power_action host c at s)
  unfolding handle_power_action
  power-Fits c at s g =
      carried_out _ _ _ _ _ ((refl, refl, refl), g) (refl, refl, refl) (_, refl) (_, refl)

  execute-Fits :
      (c : Caller) (s : State W) → IsGrant c.polkit_result → Fits c s (execute_service host c s)
  unfolding execute_service
  execute-Fits c s g =
      carried_out _ _ _ _ _ ((refl, refl, refl), g) (refl, refl, refl) (_, refl) (_, refl)

  expect_state-Fits :
      (c : Caller) (expected : String) (r : Outcome String String) (s : State W)
      → IsGrant c.polkit_result
      → Fits c s (expect_state host c expected (r, s))
  unfolding expect_state
  expect_state-Fits c expected (failed e) s g = unchanged
  expect_state-Fits c expected (done actual) s g = elim (Bool-cases (str_eq actual expected)) [
    | inl e ↦ rw (e, expect_state) (execute-Fits c s g)
    | inr e ↦ rw (e, expect_state) unchanged
  ]

  service-Fits :
      (c : Caller) (s : State W)
      → IsGrant c.polkit_result
      → Fits c s (handle_service_action host c s)
  unfolding handle_service_action
  service-Fits c s g =
      elim (Bool-cases (str_eq (expected_of (λ e. e.active_state) c.req.expected) "")) [
        | inl e ↦ rw (e, handle_service_action) (execute-Fits c s g)
        | inr e ↦
            rw (e, handle_service_action)
              (expect_state-Fits c (expected_of (λ x. x.active_state) c.req.expected)
                (host.unit_state c.req.arguments.unit s.world).0
                record s { world = (host.unit_state c.req.arguments.unit s.world).1 } g)
      ]

  write-Fits :
      (c : Caller) (s : State W) (r : Outcome WriteError String)
      → IsGrant c.polkit_result
      → (host.write c.req.arguments.path c.req.arguments.content_base64
          (expected_of (λ e. e.revision) c.req.expected)
          c.req.arguments.mode
          c.req.request_id
          (begin host c s).world).0
        ≡ r
      → Fits c s (bracket host c (write_and_restart host c) conclude_file s)
  unfolding bracket begin write_and_restart
  write-Fits c s (failed e) g h =
      rw (h, bracket, write_and_restart)
        (carried_out _ _ _ _ _ ((refl, refl, refl), g) (refl, refl, refl) (_, refl) (_, refl))
  write-Fits c s (done file) g h = elim (Bool-cases (str_eq c.req.arguments.restart_unit "")) [
    | inl e ↦
        rw (h, e, bracket, write_and_restart)
          (carried_out _ _ _ _ _ ((refl, refl, refl), g) (refl, refl, refl) (_, refl) (_, refl))
    | inr e ↦
        rw (h, e, bracket, write_and_restart)
          (saved_and_restarted _ _ _ _ _ _ _ _ ((refl, refl, refl), g) (refl, refl, refl) (_, refl)
            (_, refl))
  ]

  file-Fits :
      (c : Caller) (s : State W)
      → IsGrant c.polkit_result
      → Fits c s (handle_privileged_file_action host c s)
  unfolding handle_privileged_file_action
  file-Fits c s g = elim (Option-cases (host.lib.decoded_len c.req.arguments.content_base64)) [
    | inl e ↦ rw (e, handle_privileged_file_action) unchanged
    | inr (n, e) ↦ rw (e, handle_privileged_file_action) (write-Fits c s _ g refl)
  ]

  apply-Fits :
      (c : Caller) (s : State W) (t : List Event) (a : List Row) (plan : String) (b : Row)
      (r : Outcome UpdateError (String × String))
      → Begins c.req.request_id c.uid b
      → s.trace ≡ did (did_start_apply plan) ∷ handed b ∷ t
      → Logged b a s.audit
      → Change c.req.request_id c.uid t a
          (conclude_apply host c (r, s)).1.trace
          (conclude_apply host c (r, s)).1.audit
  unfolding conclude_apply
  apply-Fits c s t a plan b (failed e) g h k =
      rw h (carried_out _ _ _ _ _ g (refl, refl, refl) k (_, refl))
  apply-Fits c s t a plan b (done x) g h k = rw h (started_update _ _ _ g k)

  update-Fits :
      (c : Caller) (s : State W)
      → IsGrant c.polkit_result
      → Fits c s (handle_update_action host c s)
  unfolding handle_update_action
  update-Fits c s g = elim (Bool-cases (str_eq c.req.action "updates.refresh")) [
    | inl e ↦
        rw (e, handle_update_action)
          (carried_out _ _ _ _ _ ((refl, refl, refl), g) (refl, refl, refl) (_, refl) (_, refl))
    | inr e ↦ elim (Bool-cases (str_eq c.req.action "updates.plan")) [
      | inl f ↦
          rw (e, f, handle_update_action)
            (carried_out _ _ _ _ _ ((refl, refl, refl), g) (refl, refl, refl) (_, refl) (_, refl))
      | inr f ↦
          rw (e, f, handle_update_action)
            (apply-Fits c _ s.trace s.audit _ _ _ ((refl, refl, refl), g) refl (_, refl))
    ]
  ]

  pub dispatch-Fits :
      (c : Caller) (at : ℕ) (s : State W)
      → IsGrant c.polkit_result
      → Fits c s (dispatch host c at s)
  unfolding dispatch
  dispatch-Fits c at s g = elim (Bool-cases (service_actions c.req.action)) [
    | inl e ↦ rw (e, dispatch) (service-Fits c s g)
    | inr e ↦ elim (Bool-cases (update_actions c.req.action)) [
      | inl f ↦ rw (e, f, dispatch) (update-Fits c s g)
      | inr f ↦ elim (Bool-cases (power_actions c.req.action)) [
        | inl h ↦ rw (e, f, h, dispatch) (power-Fits c at s g)
        | inr h ↦ elim (Bool-cases (network_actions c.req.action)) [
          | inl k ↦ rw (e, f, h, k, dispatch) (network-Fits c s g)
          | inr k ↦ rw (e, f, h, k, dispatch) (file-Fits c s g)
        ]
      ]
    ]
  ]
