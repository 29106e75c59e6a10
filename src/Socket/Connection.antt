-- ===== src/Socket/Connection.antt =====
-- server/internal/wsapi/conn.go: one connection, its channels and the frames that it queues.
-- A channel object is its number in `store`, since the goroutine of a channel keeps the object when the
-- map `channels` has it no longer. `frames` are the queued frames, newest first; what is queued after
-- the connection was closed is never written and is left out. `start` is `startChannel`, which gives an
-- error, mapped by `httpapi.MapError`, or the data of the frame "subscribed".
pub mod Stale
mod Examples
use lumio_os.Prelude.{
  ℕ, suc, ◌+◌, String, Bool, true, false, ◌&&◌, ◌||◌, not, Option, none, some, List, [], ◌∷◌,
  str_eq, if◌then◌else◌, nat_eq, ◌⊎◌, inr, inl,
}
use lumio_os.Prelude.Int.{ℤ, pos, negsuc, below, int_eq}
use lumio_os.Prelude.Map.{Map, lookup, insert, delete}
use lumio_os.Http.Envelope.{ApiError, new_error, code_validation_failed, code_not_found}

pub record Channel : Type 0 where
  pub id : ℤ
  pub capability : String
  pub seq : ℕ
  pub killed : Bool
  pub cancelled : Bool
  pub accepts_input : Bool

pub data Frame {ℓ} (D : Type ℓ) : Type ℓ where
  subscribed_frame : ℤ → Option D → Frame D
  error_frame : ℤ → ApiError → Frame D
  closed_frame : ℤ → Option ApiError → Frame D
  event_frame : ℤ → ℕ → D → Frame D

pub record Connection {ℓ} (D : Type ℓ) : Type ℓ where
  pub is_open : Bool
  pub missed : ℕ
  pub next : ℕ
  pub channels : Map ℤ ℕ
  pub store : Map ℕ Channel
  pub frames : List (Frame D)

pub record InFrame {ℓ} (P : Type ℓ) : Type ℓ where
  pub kind : String
  pub channel : ℤ
  pub capability : String
  pub params : P

abbrev pub capabilities : String → Bool
capabilities c =
    str_eq c "system.metrics"
    || str_eq c "services.subscribe"
    || str_eq c "journal.stream"
    || str_eq c "terminal.open"
    || str_eq c "updates.progress"

abbrev pub invalid_frame : String → ApiError
invalid_frame = new_error code_validation_failed

abbrev pub cancelled : Channel → Channel
cancelled ch = record ch { cancelled = true }

abbrev pub killed : Channel → Channel
killed ch = record ch { killed = true; cancelled = true }

-- setInput, by `runTerminal`
abbrev pub accepting : Channel → Channel
accepting ch = record ch { accepts_input = true }

abbrev pub new_channel {κ} : {P : Type κ} → InFrame P → Channel
new_channel f = record {
  id = f.channel;
  capability = f.capability;
  seq = 0;
  killed = false;
  cancelled = false;
  accepts_input = false;
}

module _ {ℓ} {D : Type ℓ} where
  abbrev pub enqueue : Frame D → Connection D → Connection D
  enqueue frame c = if c.is_open then record c { frames = frame ∷ c.frames } else c

  -- registerChannel, of an object that is new
  unfoldable pub register_channel : Channel → Connection D → Bool × Connection D
  register_channel ch c = elim (lookup ch.id c.channels) [
    | some key ↦ (false, c)
    | none ↦ (
      true,
      record c {
        next = suc c.next;
        channels = insert ch.id c.next c.channels;
        store = insert c.next ch c.store;
      },
    )
  ]

  abbrev pub remove_channel : ℤ → Connection D → Connection D
  remove_channel id c = record c { channels = delete id c.channels }

  abbrev pub update : ℕ → (Channel → Channel) → Connection D → Connection D
  update key f c = elim (lookup key c.store) [
    | none ↦ c
    | some ch ↦ record c { store = insert key (f ch) c.store }
  ]

  unfoldable pub handle_unsubscribe : ℤ → Connection D → Connection D
  handle_unsubscribe id c = elim (lookup id c.channels) [
    | none ↦ enqueue (error_frame id (new_error code_not_found "No such channel.")) c
    | some key ↦ enqueue (closed_frame id none) (update key killed (remove_channel id c))
  ]

  -- sendEvent by the goroutine of the channel `key`. When the channel is cancelled, or the connection
  -- closed, the `select` may still take the queue: `wins` says whether it does.
  abbrev pub send : Bool → ℕ → D → Connection D → Option Channel → Bool × Connection D
  send wins key body c none = (false, c)
  send wins key body c (some ch) =
      if (ch.cancelled || not c.is_open) && not wins then (false, c) else (
        true,
        enqueue (event_frame ch.id (ch.seq + 1) body)
            (record c { store = insert key (record ch { seq = ch.seq + 1 }) c.store }),
      )

  unfoldable pub send_event : Bool → ℕ → D → Connection D → Bool × Connection D
  send_event wins key body c = send wins key body c (lookup key c.store)

  -- closeChannel by the goroutine of the channel `key`, of this id
  unfoldable pub close_channel : ℕ → ℤ → Option ApiError → Connection D → Connection D
  close_channel key id e c =
      update key cancelled (remove_channel id (enqueue (closed_frame id e) c))

  abbrev pub set_input : ℕ → Connection D → Connection D
  set_input key c = update key accepting c

  abbrev input_to :
      (ℕ → Connection D → Connection D) → ℤ → ℕ → Connection D → Option Channel → Connection D
  input_to input id key c none = c
  input_to input id key c (some ch) =
      if ch.accepts_input
      then input key c
      else enqueue (error_frame id (invalid_frame "This capability does not accept input.")) c

  -- `input` is the function that `runTerminal` sets.
  unfoldable pub handle_input : (ℕ → Connection D → Connection D) → ℤ → Connection D → Connection D
  handle_input input id c = elim (lookup id c.channels) [
    | none ↦ enqueue (error_frame id (new_error code_not_found "No such channel.")) c
    | some key ↦ input_to input id key c (lookup key c.store)
  ]

  abbrev unknown_type : ℤ → Connection D → Connection D
  unknown_type id c = enqueue (error_frame id (invalid_frame "Unknown frame type.")) c

module _ {ℓ κ} {D : Type ℓ} {P : Type κ} where
  abbrev pub started : InFrame P → ℕ → ApiError ⊎ Option D → Connection D → Connection D
  started f key (inr body) c = enqueue (subscribed_frame f.channel body) c
  started f key (inl e) c =
      enqueue (error_frame f.channel e) (update key cancelled (remove_channel f.channel c))

  abbrev pub registered :
      (InFrame P → ApiError ⊎ Option D) → InFrame P → ℕ → Bool × Connection D → Connection D
  registered start f key (false, c) =
      enqueue (error_frame f.channel (invalid_frame "Channel id is already in use.")) c
  registered start f key (true, c) = started f key (start f) c

  unfoldable pub handle_subscribe :
      (InFrame P → ApiError ⊎ Option D) → InFrame P → Connection D → Connection D
  unfolding register_channel
  handle_subscribe start f c =
      if below f.channel 1
      then enqueue (error_frame (pos 0) (invalid_frame "channel must be a positive integer.")) c
      else if not (capabilities f.capability)
      then enqueue (error_frame f.channel (invalid_frame "Unknown capability.")) c
      else registered start f c.next (register_channel (new_channel f) c)

  -- One round of `readLoop`, on a frame that was decoded.
  unfoldable pub read_frame :
      (InFrame P → ApiError ⊎ Option D)
      → (ℕ → Connection D → Connection D)
      → InFrame P
      → Connection D
      → Connection D
  unfolding handle_subscribe handle_unsubscribe handle_input
  read_frame start input f c =
      if str_eq f.kind "pong"
      then record c { missed = 0 }
      else if str_eq f.kind "subscribe"
      then handle_subscribe start f c
      else if str_eq f.kind "unsubscribe"
      then handle_unsubscribe f.channel c
      else if str_eq f.kind "input"
      then handle_input input f.channel c
      else unknown_type f.channel c
