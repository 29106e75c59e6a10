-- ===== src/Broker/Server/Audited.antt =====
-- What a request leaves in the log, and what it may do: `handleAction` as a whole.
use lumio_os.Prelude.{
  ℕ, String, ◌≡◌, inl, inr, refl, Option, none, some, str_eq, Bool-cases, Option-cases,
}
use lumio_os.Http.Envelope.{ApiError}
use lumio_os.Network.Config.{Verdict, valid, invalid}
use lumio_os.Broker.Request.{ActionRequest, validate, with_timeout}
use lumio_os.Broker.Audit.{stored_result}
use lumio_os.Broker.Host.{State, Host, Clock, AuthResult}
use lumio_os.Broker.Authorise.{Authorisation, granted, refused, authorize}
use lumio_os.Broker.Handlers.{deny_action}
use lumio_os.Broker.Server.{check_progress, authorised, serve, if_available, handle_action}
use lumio_os.Broker.Server.Brackets.{Change, unchanged, recorded_denial, IsGrant, dispatch-Fits}
use lumio_os.Broker.Server.Grants.{Grounds, authorize-granted}

module _ {ℓ} {W : Type ℓ} (host : Host W) where
  Grounds-IsGrant :
      (uid : ℕ) (req : ActionRequest) (now : ℕ) (answer : Option AuthResult × W) (result : String)
      → Grounds host uid req now answer result
      → IsGrant result
  Grounds-IsGrant uid req now answer result (inl (e, _)) = inl e
  Grounds-IsGrant uid req now answer result (inr (e, _, _, _)) = inr e

  authorised-Fits :
      (uid pid at now : ℕ) (req : ActionRequest) (s : State W) (a : Authorisation) (w : W)
      → authorize host uid pid req now s.world ≡ (a, w)
      → Change host req.request_id uid s.trace s.audit
          (authorised host req uid at s (a, w)).1.trace
          (authorised host req uid at s (a, w)).1.audit
  unfolding authorised deny_action
  authorised-Fits uid pid at now req s (granted result) w h = dispatch-Fits host _ at _ (
      Grounds-IsGrant uid req now _ result
        (authorize-granted host uid pid req now s.world w result h))
  authorised-Fits uid pid at now req s (refused result e) w h =
      elim (Bool-cases (str_eq e.code "unavailable")) [
        | inl k ↦ rw (k, authorised) unchanged
        | inr k ↦ rw (k, authorised) (recorded_denial _ _ (refl, refl, refl) (_, refl))
      ]

  serve-Fits :
      (req : ActionRequest) (uid pid : ℕ) (clock : Clock) (s : State W)
      → Change host req.request_id uid s.trace s.audit
          (serve host req uid pid clock s).1.trace
          (serve host req uid pid clock s).1.audit
  unfolding serve
  serve-Fits req uid pid clock s = elim (Option-cases (stored_result req.request_id s.audit)) [
    | inr (found, e) ↦ rw (e, serve) unchanged
    | inl e ↦ elim (Option-cases (check_progress host req s.world)) [
      | inr (found, f) ↦ rw (e, f, serve) unchanged
      | inl f ↦
          rw (e, f, serve) (authorised-Fits uid pid clock.scheduled clock.checked req s _ _ refl)
    ]
  ]

  if_available-Fits :
      (e : Option ApiError) (req : ActionRequest) (uid pid : ℕ) (clock : Clock) (s : State W)
      → Change host req.request_id uid s.trace s.audit
          (if_available host e req uid pid clock s).1.trace
          (if_available host e req uid pid clock s).1.audit
  unfolding if_available
  if_available-Fits (some e) req uid pid clock s = unchanged
  if_available-Fits none req uid pid clock s = serve-Fits req uid pid clock s

  -- Whatever a request asks, and whatever the system answers, the request does nothing; or it hands a
  -- row that says that it is denied to the database and does nothing else; or it does one thing, or saves
  -- a file and restarts a unit, after it handed a row that says that it begins to the database, with a
  -- granted authorisation, and before it hands over a row that says how it ended; or it starts an update
  -- after it handed over a row that says that it begins. The rows are the request's and the caller's. The
  -- log grows by just those of them that the database takes; the request goes on when it refuses one.
  pub handle_action-Change :
      (uid pid : ℕ) (req : ActionRequest) (clock : Clock) (s : State W)
      → Change host req.request_id uid s.trace s.audit
          (handle_action host uid pid (some req) clock s).1.trace
          (handle_action host uid pid (some req) clock s).1.audit
  unfolding handle_action with_timeout
  handle_action-Change uid pid req clock s = go (validate host.lib req) refl
    where
      go :
          (v : Verdict)
          → validate host.lib req ≡ v
          → Change host req.request_id uid s.trace s.audit
              (handle_action host uid pid (some req) clock s).1.trace
              (handle_action host uid pid (some req) clock s).1.audit
      go (invalid message) e = rw (e, handle_action) unchanged
      go valid e = rw (e, handle_action) (if_available-Fits _ (with_timeout req) uid pid clock s)
