-- ===== src/Files/User/Trash.antt =====
-- server/internal/files/trash.go: a file is moved into its user's trash.
-- The loop of uniqueTrashName takes one fuel for each name that it tries, and `none` is that the fuel
-- ran out. `free` is that os.Lstat says that the name does not exist.
pub mod Moves
use Prim.Native.String.{String, ◌++◌}
use text.Mathlib.Text.{starts_with}
use lumio_os.Prelude.{
  ℕ, zero, suc, ◌+◌, Bool, true, false, ◌||◌, Option, none, some, str_eq, if◌then◌else◌,
}
use lumio_os.Prelude.Text.{codes}
use lumio_os.Prelude.Action.{Action, Result, ok, err, ◌>>=◌, ◌>>◌, next, pure, lift, guard}
use lumio_os.Files.System.{
  Error, err_validation, stale_error, not_found, system_error, Info, made_dir, moved, wrote, State,
  System, M, call, read,
}
use lumio_os.Files.User.{clean_path}

-- What the process and the standard library say: $XDG_DATA_HOME and the home directory, os.MkdirAll,
-- os.WriteFile, the text of an error, EXDEV, fmt.Sprintf("%s.%d"), the escaped path, and the time.
pub record Desk {ℓ} (W : Type ℓ) : Type ℓ where
  pub xdg_data_home : String
  pub home : String
  pub make_all : String → W → Option Error × W
  pub write_file : String → String → W → Option Error × W
  pub text : Error → String
  pub is_exdev : Error → Bool
  pub numbered : String → ℕ → String
  pub escape : String → String
  pub now : W → String

pub record Trashing : Type 0 where
  pub real : String
  pub trash : String

module _ {ℓ} {W : Type ℓ} (sys : System W) (desk : Desk W) where
  unfoldable pub trash_dir : Result Error String
  trash_dir =
      if str_eq desk.xdg_data_home ""
      then (if str_eq desk.home ""
          then err (err_validation "no home directory available for trash")
          else ok (sys.join (sys.join (sys.join desk.home ".local") "share") "Trash"))
      else ok (sys.join desk.xdg_data_home "Trash")

  abbrev pub is_missing : Result Error Info → Bool
  is_missing (err (not_found p)) = true
  is_missing _ = false

  abbrev pub free : String → W → Bool
  free path w = is_missing (sys.lstat path w)

  -- The name that the loop tries in its round `i`.
  abbrev pub candidate : String → String → ℕ → String
  candidate files_dir name zero = sys.join files_dir name
  candidate files_dir name (suc i) = sys.join files_dir (desk.numbered name (suc i))

  unfoldable pub unique_trash_name : ℕ → String → String → ℕ → W → Option String
  unique_trash_name zero files_dir name i w = none
  unique_trash_name (suc fuel) files_dir name i w =
      let rest = unique_trash_name fuel files_dir name (suc i) w in
      if free (candidate files_dir name i) w then some (candidate files_dir name i) else rest

  -- The directory, or something in it.
  abbrev pub in_trash : String → Result Error String → Bool
  in_trash real (err e) = false
  in_trash real (ok trash) = str_eq real trash || starts_with real (trash ++ "/")

  abbrev pub wrapped : Option Error × W → Option Error × W
  wrapped (none, w) = (none, w)
  wrapped (some e, w) = (some (err_validation ("trash is not writable: " ++ desk.text e)), w)

  abbrev pub make_all : String → M W (Unit {0})
  make_all d = call (made_dir d) (λ w. wrapped (desk.make_all d w))

  -- A path that is the trash, or in it, is refused.
  unfoldable pub refuse_trash : String → String → M W Trashing
  refuse_trash real trash = do
    inside ← read (λ w. ok (in_trash real (sys.eval_symlinks trash w)))
    guard inside (err_validation "path is already in the trash")
    pure record { real = real; trash = trash }

  -- `Trash` up to the lock.
  unfoldable pub prepare : String → M W Trashing
  unfolding clean_path trash_dir refuse_trash
  prepare p = do
    clean ← clean_path sys p
    real ← read (sys.eval_symlinks clean)
    guard (str_eq real "/") (err_validation "cannot trash the root directory")
    trash ← lift trash_dir
    make_all (sys.join trash "files")
    make_all (sys.join trash "info")
    refuse_trash real trash

  abbrev pub renamed : Option Error × W → Option Error × W
  renamed (none, w) = (none, w)
  renamed (some e, w) =
      (some (if desk.is_exdev e then err_validation "cannot trash across filesystems" else e), w)

  abbrev info_text : String → String → String
  info_text real now = "[Trash Info]\nPath=" ++ desk.escape real ++ "\nDeletionDate=" ++ now ++ "\n"

  abbrev pub note_info : Trashing → String → M W Bool
  note_info t dest = do
    info ← read (λ w. ok (info_text t.real (desk.now w)))
    call (wrote (sys.join (sys.join t.trash "info") (sys.base dest ++ ".trashinfo")) (codes info))
        (desk.write_file (sys.join (sys.join t.trash "info") (sys.base dest ++ ".trashinfo")) info)
    pure true

  -- `Trash` from the rename on.
  unfoldable pub move_to : Trashing → String → M W Bool
  move_to t dest =
      call (moved t.real dest) (λ w. renamed (sys.rename t.real dest w)) >> note_info t dest

  abbrev pub move_into : Trashing → State W → Option String → Option (Result Error Bool × State W)
  move_into t s none = none
  move_into t s (some dest) = some (move_to t dest s)

  abbrev pub move_found : ℕ → Result Error Trashing × State W → Option (Result Error Bool × State W)
  move_found fuel (err e, s) = some (err e, s)
  move_found fuel (ok t, s) =
      move_into t s (unique_trash_name fuel (sys.join t.trash "files") (sys.base t.real) 0 s.world)

  unfoldable pub trash : ℕ → String → State W → Option (Result Error Bool × State W)
  unfolding prepare unique_trash_name move_to
  trash fuel p s = move_found fuel (prepare p s)
