-- ===== src/Socket/Channels/Parameters.antt =====
-- What every subscription that starts has been checked for.
use lumio_os.Prelude.{
  ℕ, ◌≤◌, ◌≡◌, ◌≢◌, refl, String, Bool, true, false, not, ◌||◌, none, ◌⊎◌, inl, inr, ltb, str_eq,
  eq_iff, arith, if◌then◌else◌, Option-cases, refuted, Bool-cases,
}
use lumio_os.Prelude.Int.{ℤ, pos, negsuc, below, above}
use lumio_os.Http.Envelope.{Error}
use lumio_os.Journal.Query.{validate}
use lumio_os.Socket.Channels.{
  Params, RawParams, absent, malformed, decoded, no_params, Deps, Started, metrics, services,
  journal, terminal, updates, Answer, with_params, interval_of, query_of, attached, attached_new,
  opened, start_metrics, start_services, start_journal, start_terminal, start_updates,
  start_channel,
}

module _ {ℓ} {W : Type ℓ} (deps : Deps W) (capability : String) where
  -- What a goroutine is started with, for this capability.
  abbrev pub Fits : Started → Type 0
  Fits (metrics interval) =
      (capability ≡ "system.metrics") × ((n : ℕ) × (interval ≡ pos n) × (500 ≤ n) × (n ≤ 60000))
  Fits services = (capability ≡ "services.subscribe") × (deps.services_available ≡ true)
  Fits (journal q) =
      (capability ≡ "journal.stream")
      × (deps.journal_available ≡ true)
      × (validate deps.lib q ≡ none)
  Fits (terminal token) = (capability ≡ "terminal.open") × (deps.has_terminal ≡ true)
  Fits (updates id) =
      (capability ≡ "updates.progress")
      × (deps.has_broker ≡ true)
      × (id ≢ "")
      × (deps.byte_length id ≤ 128)

  abbrev pub Checked : Answer W → Type 0
  Checked (inl e, w) = Unit
  Checked (inr started, w) = Fits started

  with_params-Checked :
      (raw : RawParams) (w : W) (f : Params → Answer W)
      → ((p : Params) → Checked (f p))
      → Checked (with_params raw w f)
  with_params-Checked absent w f h = h no_params
  with_params-Checked (malformed message) w f h = tt
  with_params-Checked (decoded p) w f h = h p

  if_Checked :
      (b : Bool) (x y : Answer W)
      → (b ≡ true → Checked x)
      → (b ≡ false → Checked y)
      → Checked (if b then x else y)
  if_Checked true x y f g = f refl
  if_Checked false x y f g = g refl

  in_range :
      (interval : ℤ)
      → (below interval 500 || above interval 60000) ≡ false
      → (n : ℕ) × (interval ≡ pos n) × (500 ≤ n) × (n ≤ 60000)
  in_range (pos n) h = (n, refl, ground arith, ground arith)
  in_range (negsuc n) h = absurd (ground arith)

  attached-Checked :
      (r : (Error ⊎ String) × W)
      → (capability ≡ "terminal.open") × (deps.has_terminal ≡ true)
      → Checked (attached deps r)
  attached-Checked (inl e, w) h = tt
  attached-Checked (inr token, w) h = h

  attached_new-Checked :
      (token : String) (r : (Error ⊎ String) × W)
      → (capability ≡ "terminal.open") × (deps.has_terminal ≡ true)
      → Checked (attached_new deps token r)
  attached_new-Checked token (inl e, w) h = tt
  attached_new-Checked token (inr t, w) h = h

  opened-Checked :
      (r : (Error ⊎ String) × W)
      → (capability ≡ "terminal.open") × (deps.has_terminal ≡ true)
      → Checked (opened deps r)
  opened-Checked (inl e, w) h = tt
  opened-Checked (inr token, w) h = attached_new-Checked token (deps.attach token w) h

  metrics_Checked :
      capability ≡ "system.metrics" → (raw : RawParams) (w : W) → Checked (start_metrics deps raw w)
  unfolding start_metrics
  metrics_Checked is raw w = with_params-Checked raw w _ λ p.
      let interval = interval_of p.interval_ms in
      elim (Bool-cases (below interval 500 || above interval 60000)) [
        | inl e ↦ rw e tt
        | inr e ↦ rw e (is, in_range interval e)
      ]

  services_Checked : capability ≡ "services.subscribe" → (w : W) → Checked (start_services deps w)
  unfolding start_services
  services_Checked is w = elim (Bool-cases deps.services_available) [
    | inl e ↦ rw e (is, refl)
    | inr e ↦ rw e tt
  ]

  start_journal-Checked :
      capability ≡ "journal.stream" → (raw : RawParams) (w : W) → Checked (start_journal deps raw w)
  unfolding start_journal
  start_journal-Checked is raw w =
      if_Checked (not deps.journal_available) _ _ (λ _. tt)
        λ there. with_params-Checked raw w _ λ p.
          elim (Option-cases (validate deps.lib (query_of p))) [
            | inl e ↦ rw e (is, refuted deps.journal_available there, e)
            | inr (m, e) ↦ rw e tt
          ]

  terminal_Checked :
      capability ≡ "terminal.open" → (raw : RawParams) (w : W) → Checked (start_terminal deps raw w)
  unfolding start_terminal
  terminal_Checked is raw w = with_params-Checked raw w _ λ p.
      if_Checked (not deps.has_terminal) _ _ (λ _. tt)
        λ there.
          let has : (capability ≡ "terminal.open") × (deps.has_terminal ≡ true) =
            (is, refuted deps.has_terminal there) in
          if_Checked (not (str_eq p.session "")) _ _
            (λ _. attached-Checked (deps.attach p.session w) has)
            (λ _.
              opened-Checked
                (deps.open_terminal (record { cols = p.cols; rows = p.rows; shell = p.shell }) w)
                has)

  updates_Checked :
      capability ≡ "updates.progress"
      → (raw : RawParams) (w : W) → Checked (start_updates deps raw w)
  unfolding start_updates
  updates_Checked is raw w = with_params-Checked raw w _ λ p.
      if_Checked (str_eq p.request_id "" || ltb 128 (deps.byte_length p.request_id)) _ _ (λ _. tt)
        λ fits.
          if_Checked (not deps.has_broker) _ _ (λ _. tt)
            λ there. (
              is,
              refuted deps.has_broker there,
              ground (arith, eq_iff p.request_id ""),
              ground arith,
            )

  -- Whatever a client asks for, a channel is started only by its own capability and with checked
  -- parameters: metrics at an interval of 500 to 60000 ms, services if systemd is there, the journal if
  -- it is there with a query that is valid, a terminal if there are any, and the progress of an update
  -- if there is a broker, for a request id that is not empty and has at most 128 bytes.
  pub start_channel-Checked :
      (raw : RawParams) (w : W) → Checked (start_channel deps capability raw w)
  unfolding start_channel
  start_channel-Checked raw w =
      if_Checked (str_eq capability "system.metrics") _ _
        (λ e. metrics_Checked ((eq_iff capability "system.metrics").0 e) raw w)
        λ _.
          if_Checked (str_eq capability "services.subscribe") _ _
            (λ e. services_Checked ((eq_iff capability "services.subscribe").0 e) w)
            λ _.
              if_Checked (str_eq capability "journal.stream") _ _
                (λ e. start_journal-Checked ((eq_iff capability "journal.stream").0 e) raw w)
                λ _.
                  if_Checked (str_eq capability "terminal.open") _ _
                    (λ e. terminal_Checked ((eq_iff capability "terminal.open").0 e) raw w)
                    λ _.
                      if_Checked (str_eq capability "updates.progress") _ _
                        (λ e. updates_Checked ((eq_iff capability "updates.progress").0 e) raw w)
                        (λ _. tt)
