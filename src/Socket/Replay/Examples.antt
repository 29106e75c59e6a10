-- ===== src/Socket/Replay/Examples.antt =====
-- A terminal that printed three bytes before a connection attached, and one after.
use lumio_os.Prelude.{ℕ, ◌-◌, ◌≡◌, refl, false, none, some, List, [], ◌∷◌, ◌++◌, arith}
use lumio_os.Prelude.Lists.{length, drop}
use lumio_os.Terminal.Session.{Session, Attachment, attach, read_all, max_scrollback}
use lumio_os.Terminal.Session.Scrollback.{output}
use lumio_os.Socket.Replay.{chunks_of, replay_chunks, replay_chunk_bytes}
use lumio_os.Socket.Replay.Shown.{Small, shown}

abbrev quiet : Session
quiet = record {
  grace = 5;
  scrollback = [];
  attached = false;
  gen = 0;
  events = none;
  exited = false;
  exit_code = 0;
  grace_timer = none;
  signalled = false;
  closed = false;
}

abbrev printed : List ℕ
printed = 1 ∷ 2 ∷ 3 ∷ []

abbrev held : Session
held = (attach (read_all (printed ∷ []) quiet)).1

abbrev attachment : Attachment
attachment = record { replay = printed; gen = 1 }

cuts_in_two : chunks_of 2 3 printed ≡ (1 ∷ 2 ∷ []) ∷ (3 ∷ []) ∷ []
unfolding chunks_of
cuts_in_two = refl

shown_example :
    ((read_all ((4 ∷ []) ∷ []) held).events ≡ some ((4 ∷ []) ∷ []))
    × Small replay_chunk_bytes (replay_chunks printed)
    × (output (replay_chunks printed ++ ((4 ∷ []) ∷ []))
        ≡ drop (length printed - max_scrollback) printed ++ (4 ∷ []))
unfolding attach read_all
shown_example = shown (printed ∷ []) ((4 ∷ []) ∷ []) quiet held attachment (omega arith) refl
