-- ===== src/Broker/Server/Repeats.antt =====
-- Repeated requests, of `handleAction` and `StoredResult`.
use lumio_os.Prelude.{
  ℕ, String, true, ◌≡◌, ◌⊎◌, inl, inr, refl, ◌∙◌, ap, Option, none, some, List, [], ◌∷◌, ◌++◌,
  str_eq, eq_iff, Option-cases, Bool-cases, if◌then◌else◌,
}
use lumio_os.Http.Envelope.{ApiError}
use lumio_os.Network.Config.{Verdict, valid, invalid}
use lumio_os.Broker.Request.{ActionRequest, validate, with_timeout}
use lumio_os.Broker.Audit.{
  stored_data, stored_error, Row, end_row, deny_row, Stored, stored_result, stored_result-append,
  replay_row,
}
use lumio_os.Broker.Host.{Event, handed, did, did_start_apply, State, Host, Clock}
use lumio_os.Broker.Server.{serve, if_available, handle_action}
use lumio_os.Broker.Server.Audited.{handle_action-Change}
use lumio_os.Broker.Server.Brackets.{
  Change, unchanged, recorded_denial, carried_out, saved_and_restarted, started_update, Logged,
  IsRow,
}

-- The log has an answer for this id.
abbrev pub Answers : String → List Row → Type 0
Answers id audit = (x : ℕ × Stored) × (stored_result id audit ≡ some x)

Answers-append :
    (id : String) (audit : List Row) (row : Row) (x : ℕ × Stored)
    → row.request_id ≡ id
    → replay_row row ≡ some x
    → Answers id (audit ++ (row ∷ []))
Answers-append id audit row x h k = elim (Option-cases (stored_result id audit)) [
  | inl e ↦ (x, rw (stored_result-append id audit row, e, (eq_iff row.request_id id).1 h) k)
  | inr (y, e) ↦ (y, rw (stored_result-append id audit row, e) refl)
]

Answers-append_end :
    (id : String) (uid : ℕ) (audit : List Row) (row : Row)
    → IsRow end_row id uid row
    → Answers id (audit ++ (row ∷ []))
unfolding replay_row
Answers-append_end id uid audit row (kind, same, _) =
    elim (Bool-cases (str_eq row.outcome "success")) [
      | inl e ↦
          Answers-append id audit row (200, stored_data row.result_json) same
            (rw (kind, e, replay_row) refl)
      | inr e ↦
          Answers-append id audit row (500, stored_error "internal" row.error) same
            (rw (kind, e, replay_row) refl)
    ]

Answers-append_deny :
    (id : String) (uid : ℕ) (audit : List Row) (row : Row)
    → IsRow deny_row id uid row
    → Answers id (audit ++ (row ∷ []))
unfolding replay_row
Answers-append_deny id uid audit row (kind, same, _) =
    Answers-append id audit row (403, stored_error "forbidden" row.error) same
      (rw (kind, replay_row) refl)

module _ {ℓ} {W : Type ℓ} (host : Host W) where
  if_available-repeat :
      (e : Option ApiError) (req : ActionRequest) (uid pid : ℕ) (clock : Clock) (s : State W)
      → Answers req.request_id s.audit
      → (if_available host e req uid pid clock s).1 ≡ s
  unfolding if_available
  if_available-repeat (some e) req uid pid clock s h = refl
  if_available-repeat none req uid pid clock s (x, h) = rw (h, serve) refl

  -- A request whose id has an answer in the log changes nothing, and asks nobody, whoever sends it
  -- and whatever it asks for.
  pub repeat_quiet :
      (uid pid : ℕ) (req : ActionRequest) (clock : Clock) (s : State W)
      → Answers req.request_id s.audit
      → (handle_action host uid pid (some req) clock s).1 ≡ s
  unfolding handle_action with_timeout
  repeat_quiet uid pid req clock s h = go (validate host.lib req) refl
    where
      go :
          (v : Verdict)
          → validate host.lib req ≡ v
          → (handle_action host uid pid (some req) clock s).1 ≡ s
      go (invalid message) e = rw (e, handle_action) refl
      go valid e =
          rw (e, handle_action) (if_available-repeat _ (with_timeout req) uid pid clock s h)

  -- SQLite takes every row.
  abbrev pub TakesAll : Type ℓ
  TakesAll = (row : Row) (w : W) → host.takes_row row w ≡ true

  Logged-taken :
      (row : Row) (a a' : List Row) → TakesAll → Logged host row a a' → a' ≡ a ++ (row ∷ [])
  Logged-taken row a a' all (w, h) = h ∙ ap (λ b. if b then a ++ (row ∷ []) else a) (all row w)

  -- What a repetition of the id changes: nothing.
  abbrev pub Quiet : String → State W → Type ℓ
  Quiet id s =
      (uid pid : ℕ) (req : ActionRequest) (clock : Clock)
      → req.request_id ≡ id
      → (handle_action host uid pid (some req) clock s).1 ≡ s

  abbrev pub Starts : List Event → List Event → Type 0
  Starts t t' = (plan : String) × ((b : Row) × (t' ≡ did (did_start_apply plan) ∷ handed b ∷ t))

  Change-Answers :
      (id : String) (uid : ℕ) (t t' : List Event) (a a' : List Row)
      → TakesAll
      → Change host id uid t a t' a'
      → (t' ≡ t) ⊎ Starts t t' ⊎ Answers id a'
  Change-Answers id uid t t' a a' all unchanged = inl refl
  Change-Answers id uid t t' a a' all (recorded_denial row _ h l) =
      inr (inr (rw (Logged-taken row a a' all l) (Answers-append_deny id uid a row h)))
  Change-Answers id uid t t' a a' all (carried_out b e x m _ g h k l) =
      inr (inr (rw (Logged-taken e m a' all l) (Answers-append_end id uid m e h)))
  Change-Answers id uid t t' a a' all (saved_and_restarted b e p c o n m _ g h k l) =
      inr (inr (rw (Logged-taken e m a' all l) (Answers-append_end id uid m e h)))
  Change-Answers id uid t t' a a' all (started_update b plan _ g l) = inr (inl (plan, (b, refl)))

  -- If the database takes every row, a request that leaves anything in the trace, other than the
  -- start of an update, is done once: no later request with its id changes anything, as long as the
  -- state is as it was left.
  pub action_once :
      (uid pid : ℕ) (req : ActionRequest) (clock : Clock) (s : State W)
      → TakesAll
      → ((handle_action host uid pid (some req) clock s).1.trace ≡ s.trace)
        ⊎ Starts s.trace (handle_action host uid pid (some req) clock s).1.trace
        ⊎ Quiet req.request_id (handle_action host uid pid (some req) clock s).1
  action_once uid pid req clock s all =
      elim (Change-Answers req.request_id uid _ _ _ _ all
        (handle_action-Change host uid pid req clock s)) [
          | inl same ↦ inl same
          | inr (inl starts) ↦ inr (inl starts)
          | inr (inr answers) ↦
              inr
                (inr λ uid' pid' req' clock' e. repeat_quiet uid' pid' req' clock' _ (rw e answers))
        ]
