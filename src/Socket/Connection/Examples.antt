-- ===== src/Socket/Connection/Examples.antt =====
-- A connection whose client subscribes to the journal.
use lumio_os.Prelude.{ℕ, ◌≡◌, refl, true, Option, none, some, [], ◌∷◌, inr, ◌⊎◌, nat_eq}
use lumio_os.Prelude.Int.{pos, int_eq}
use lumio_os.Prelude.Map.{lookup, insert, delete}
use lumio_os.Http.Envelope.{ApiError, new_error, code_not_found}
use lumio_os.Socket.Connection.{
  Connection, InFrame, error_frame, event_frame, closed_frame, subscribed_frame, enqueue,
  handle_subscribe, handle_unsubscribe, handle_input, close_channel, register_channel, send_event,
  read_frame,
}
use lumio_os.Socket.Connection.Stale.{stale_close}

-- The data of a frame is a number.
abbrev fresh : Connection ℕ
fresh = record { is_open = true; missed = 0; next = 0; channels = []; store = []; frames = [] }

abbrev journal : InFrame ℕ
journal = record { kind = "subscribe"; channel = pos 4; capability = "journal.stream"; params = 0 }

abbrev start : InFrame ℕ → ApiError ⊎ Option ℕ
start f = inr none

abbrev input : ℕ → Connection ℕ → Connection ℕ
input key c = c

abbrev streaming : Connection ℕ
streaming = (send_event true 0 9 (read_frame start input journal fresh)).1

frames_in_order :
    (handle_unsubscribe (pos 4) streaming).frames
    ≡ closed_frame (pos 4) none ∷ event_frame (pos 4) 1 9 ∷ subscribed_frame (pos 4) none ∷ []
unfolding read_frame handle_subscribe register_channel send_event handle_unsubscribe lookup insert
    delete
frames_in_order = refl

stale_close_example :
    (lookup
        (pos 4)
        (handle_subscribe start journal
          (handle_unsubscribe (pos 4) (handle_subscribe start journal fresh))).channels
      ≡ some 1)
    × (handle_input input (pos 4) (
          close_channel 0 (pos 4) none (
            handle_subscribe start journal
              (handle_unsubscribe (pos 4) (handle_subscribe start journal fresh))))
        ≡ enqueue (error_frame (pos 4) (new_error code_not_found "No such channel.")) (
            close_channel 0 (pos 4) none (
              handle_subscribe start journal
                (handle_unsubscribe (pos 4) (handle_subscribe start journal fresh)))))
unfolding lookup
stale_close_example = stale_close start journal none refl refl refl input fresh refl
