-- ===== src/Terminal/Session.antt =====
-- `Session` of server/internal/terminal/terminal.go.
-- A channel is its number, which stands for its identity, with the chunks that wait in it; `events`
-- are those of the attachment. `signalled` says that the process was sent SIGKILL, and `closed` that
-- the terminal device was closed. `detach` and `waitLoop` take the mutex more than once: what they
-- still have to do when they leave it is a `Todo`, since any other step may come in between.
pub mod Scrollback
mod Examples
use lumio_os.Prelude.{
  ℕ, ◌+◌, ◌*◌, ◌-◌, Bool, true, false, ◌||◌, not, Option, none, some, List, [], ◌∷◌, ◌++◌, ltb,
  ◌==◌, if◌then◌else◌,
}
use lumio_os.Prelude.Lists.{length, drop}

abbrev pub max_dimension : ℕ
max_dimension = 500

abbrev pub max_scrollback : ℕ
max_scrollback = 64 * 1024

abbrev pub default_grace : ℕ
default_grace = 120 * 1000000000

pub data Error : Type 0 where
  err_not_found err_conflict err_validation : Error

pub record Session : Type 0 where
  pub grace : ℕ
  pub scrollback : List ℕ
  pub attached : Bool
  pub gen : ℕ
  pub events : Option (List (List ℕ))
  pub exited : Bool
  pub exit_code : ℕ
  pub grace_timer : Option ℕ
  pub signalled : Bool
  pub closed : Bool

-- s.onGone(s.token), and the timer at the end of `detach`.
pub data Todo : Type 0 where
  gone start_timer : Todo

pub record Attachment : Type 0 where
  pub replay : List ℕ
  pub gen : ℕ

pub data Attached : Type 0 where
  refused : Error → Attached
  granted : Attachment → Attached

unfoldable pub attach : Session → Attached × Session
attach s =
    if s.exited
    then (refused err_not_found, s)
    else if s.attached
    then (refused err_conflict, s)
    else (
      granted record { replay = s.scrollback; gen = s.gen + 1 },
      record s { attached = true; events = some []; gen = s.gen + 1; grace_timer = none },
    )

-- The first part of `detach`, up to the test of `exited`.
unfoldable pub detach : ℕ → Session → Todo × Session
detach gen s =
    let s' = if s.gen == gen then record s { attached = false; events = none } else s in
    (if s.exited then gone else start_timer, s')

-- The second part: time.AfterFunc, from `now` on.
unfoldable pub arm_timer : ℕ → Session → Session
arm_timer now s = record s { grace_timer = some (now + s.grace) }

unfoldable pub kill : Session → Session
kill s = record s { grace_timer = none; signalled = s.signalled || not s.exited; closed = true }

-- What `readLoop` keeps of the output.
abbrev pub keep_last : ℕ → List ℕ → List ℕ
keep_last n bytes = if ltb n (length bytes) then drop (length bytes - n) bytes else bytes

abbrev pub deliver : Option (List (List ℕ)) → List ℕ → Option (List (List ℕ))
deliver none chunk = none
deliver (some waiting) chunk = some (waiting ++ (chunk ∷ []))

-- One round of `readLoop` that read something while the process runs. Once `done` is closed, the
-- `select` may also drop the chunk instead of handing it to the attachment.
unfoldable pub read_chunk : List ℕ → Session → Session
read_chunk chunk s = record s {
  scrollback = keep_last max_scrollback (s.scrollback ++ chunk);
  events = deliver s.events chunk;
}

unfoldable pub read_all : List (List ℕ) → Session → Session
unfolding read_chunk
read_all [] s = s
read_all (chunk ∷ chunks) s = read_all chunks (read_chunk chunk s)

-- `waitLoop`, once the process has ended.
unfoldable pub wait : ℕ → Session → Option Todo × Session
wait code s = (if s.attached then none else some gone, record s { exited = true; exit_code = code })

-- Whether `Write` reaches the device.
unfoldable pub can_write : Session → Bool
can_write s = not s.exited

unfoldable pub resize : ℕ → ℕ → Option Error
resize cols rows =
    if ltb cols 1 || ltb rows 1 || ltb max_dimension cols || ltb max_dimension rows
    then some err_validation
    else none
