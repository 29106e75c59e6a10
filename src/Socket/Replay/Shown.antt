-- ===== src/Socket/Replay/Shown.antt =====
-- What a connection is shown of a terminal: server/internal/wsapi/channels.go over
-- server/internal/terminal/terminal.go.
use lumio_os.Prelude.{
  ℕ, zero, suc, ◌+◌, ◌-◌, ◌≤◌, ◌≡◌, refl, ap, ◌∙◌, sym, true, false, none, some, List, [], ◌∷◌,
  ◌++◌, Bool-cases, inl, inr, arith, if◌then◌else◌,
}
use lumio_os.Prelude.Lists.{
  length, take, drop, take-append_drop, length-drop, length-take, append_assoc, append-nil,
}
use lumio_os.Terminal.Session.{
  err_not_found, err_conflict, Session, Attachment, Attached, granted, refused, attach, read_chunk,
  read_all, deliver, max_scrollback,
}
use lumio_os.Terminal.Session.Scrollback.{output, scrollback_tail}
use lumio_os.Socket.Replay.{chunks_of, replay_chunks, replay_chunk_bytes}

pub data Small (n : ℕ) : List (List ℕ) → Type 0 where
  none_sent : Small n []
  one_sent :
      (chunk : List ℕ) {chunks : List (List ℕ)}
      → length chunk ≤ n
      → Small n chunks
      → Small n (chunk ∷ chunks)

output-append : (xs ys : List (List ℕ)) → output (xs ++ ys) ≡ output xs ++ output ys
output-append [] ys = refl
output-append (x ∷ xs) ys =
    ap (λ r. x ++ r) (output-append xs ys) ∙ sym (append_assoc x (output xs) (output ys))

chunks_of-Small : (n fuel : ℕ) (bytes : List ℕ) → Small n (chunks_of n fuel bytes)
unfolding chunks_of
chunks_of-Small n zero bytes = none_sent
chunks_of-Small n (suc fuel) [] = none_sent
chunks_of-Small n (suc fuel) (b ∷ bytes) =
    one_sent (take n (b ∷ bytes)) (length-take n (b ∷ bytes))
      (chunks_of-Small n fuel (drop n (b ∷ bytes)))

-- The fuel is enough.
output-chunks_of :
    (n fuel : ℕ) (bytes : List ℕ)
    → length bytes ≤ fuel
    → output (chunks_of (suc n) fuel bytes) ≡ bytes
unfolding chunks_of
output-chunks_of n zero [] h = refl
output-chunks_of n zero (b ∷ bytes) h = absurd (omega arith)
output-chunks_of n (suc fuel) [] h = refl
output-chunks_of n (suc fuel) (b ∷ bytes) h =
    let short : length (drop n bytes) ≤ fuel = omega (arith, length-drop n bytes) in
    ap (λ r. b ∷ (take n bytes ++ r)) (output-chunks_of n fuel (drop n bytes) short)
    ∙ ap (λ r. b ∷ r) (take-append_drop n bytes)

events-read_all :
    (chunks waiting : List (List ℕ)) (s : Session)
    → s.events ≡ some waiting
    → (read_all chunks s).events ≡ some (waiting ++ chunks)
unfolding read_all
events-read_all [] waiting s h = h ∙ ap some (sym (append-nil waiting))
events-read_all (chunk ∷ chunks) waiting s h =
    events-read_all chunks (waiting ++ (chunk ∷ [])) (read_chunk chunk s)
      (ap (λ e. deliver e chunk) h)
    ∙ ap some (append_assoc waiting (chunk ∷ []) chunks)

abbrev replay_of : Attached → List ℕ
replay_of (refused e) = []
replay_of (granted a) = a.replay

attach-free :
    (s : Session)
    → s.exited ≡ false
    → s.attached ≡ false
    → attach s ≡ (
      granted record { replay = s.scrollback; gen = s.gen + 1 },
      record s { attached = true; events = some []; gen = s.gen + 1; grace_timer = none },
    )
unfolding attach
attach-free s runs free =
    ap
      (λ b.
        if b
        then (refused err_not_found, s)
        else if s.attached
        then (refused err_conflict, s)
        else (
          granted record { replay = s.scrollback; gen = s.gen + 1 },
          record s { attached = true; events = some []; gen = s.gen + 1; grace_timer = none },
        ))
      runs
    ∙ ap
        (λ b. if b then (refused err_conflict, s) else (
          granted record { replay = s.scrollback; gen = s.gen + 1 },
          record s { attached = true; events = some []; gen = s.gen + 1; grace_timer = none },
        ))
        free

attach_grants :
    (s t : Session) (a : Attachment)
    → attach s ≡ (granted a, t)
    → (a.replay ≡ s.scrollback) × (t.events ≡ some [])
unfolding attach
attach_grants s t a h = elim (Bool-cases s.exited) [
  | inl ended ↦ absurd (cc (rw (ended, attach) at h))
  | inr runs ↦ elim (Bool-cases s.attached) [
    | inl taken ↦ absurd (cc (rw (runs, taken, attach) at h))
    | inr free ↦
        let e = sym (attach-free s runs free) ∙ h in
        (sym (ap (λ r. replay_of r.0) e), sym (ap (λ r. r.1.events) e))
  ]
]

-- A connection that attaches to a terminal is shown what it printed, as long as the process runs: the
-- chunks of the replay hold at most 16 KiB each, and joined with the chunks that are read afterwards,
-- all of which wait for the connection, they are the last 64 KiB of the output until then, and all
-- output since.
pub shown :
    (before after : List (List ℕ)) (s t : Session) (a : Attachment)
    → length s.scrollback ≤ max_scrollback
    → attach (read_all before s) ≡ (granted a, t)
    → ((read_all after t).events ≡ some after)
      × Small replay_chunk_bytes (replay_chunks a.replay)
      × (output (replay_chunks a.replay ++ after)
          ≡ drop
              (length (s.scrollback ++ output before) - max_scrollback)
              (s.scrollback ++ output before)
            ++ output after)
unfolding replay_chunks
shown before after s t a short h =
    let (same, fresh) = attach_grants (read_all before s) t a h in
    let (tail, _) = scrollback_tail before s short in
    (
      events-read_all after [] t fresh,
      chunks_of-Small replay_chunk_bytes (length a.replay) a.replay,
      output-append (replay_chunks a.replay) after
          ∙ ap (λ r. r ++ output after)
              (output-chunks_of 16383 (length a.replay) a.replay (omega arith) ∙ same ∙ tail),
    )
