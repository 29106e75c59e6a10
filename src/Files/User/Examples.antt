-- ===== src/Files/User/Examples.antt =====
-- A file of the user is read and written.
use lumio_os.Prelude.{◌≡◌, ◌⊎◌, refl, String, Bool, true, false, none, some, [], ◌∷◌}
use lumio_os.Prelude.Action.{Result, ok, err, guard, Post}
use lumio_os.Files.System.{
  Bytes, Info, State, System, removed, replaced, closed, chowned, chmoded, synced, wrote, created,
  create_temp, with_removal, or_close, sync_dir, not_found, Error,
}
use lumio_os.Files.System.Quiet.{On}
use lumio_os.Files.User.{clean_path, str_eq}
use lumio_os.Files.User.Read.{Codec, ReadResult, read_file, detect_encoding, has_zero}
use lumio_os.Files.User.Read.Whole.{FileOf}
use lumio_os.Files.User.Write.{write, check_revision, hash_file, own, save}
use lumio_os.Files.User.Write.Safe.{Written, Untouched, write_saved}
use lumio_os.Files.User.Edit.{Refused, edit_checked}
use lumio_os.Files.User.Trash.{Desk, trash, trash_dir, refuse_trash}
use lumio_os.Files.User.Trash.Moves.{moves}

-- The world is the content of the one file, /home/ann/notes.
abbrev notes : String
notes = "/home/ann/notes"

abbrev info : Info
info = record {
  is_dir = false;
  is_symlink = false;
  is_regular = true;
  size = 1;
  mode = 384;
  uid = 7;
  gid = 8;
}

abbrev codec : Codec
codec = record { valid = λ b. true; encode = λ b. "YQ==" }

abbrev hash : Bytes → String
hash [] = "sha256:0"
hash (b ∷ bs) = "sha256:1"

abbrev system : System Bytes
system = record {
  is_abs = λ p. true;
  clean = λ p. p;
  dir = λ p. "/home/ann";
  base = λ p. "notes";
  join = λ p q. notes;
  revision = hash;
  eval_symlinks = λ p w. ok p;
  lstat = λ p w. ok info;
  stat = λ p w. ok (some info);
  read_file = λ p w. ok w;
  create_temp = λ d p w. (ok "tmp", w);
  write = λ p b w. (none, w);
  sync = λ p w. (none, w);
  chmod = λ p m w. (none, w);
  chown = λ p u g w. (none, w);
  close = λ p w. (none, w);
  rename = λ p q w. (none, w);
  remove = λ p w. (none, w);
  make_dir = λ p w. (none, w);
  sync_dir = λ p w. w;
}

abbrev first_state : State Bytes
first_state = record { calls = []; world = b'a' ∷ [] }

abbrev second_state : State Bytes
second_state = record { calls = []; world = [] }

abbrev answer : ReadResult
answer = record {
  path = notes;
  size_bytes = 1;
  revision = "sha256:1";
  encoding = "utf-8";
  content = some "YQ==";
  is_truncated = false;
}

read_notes : read_file codec system notes first_state ≡ (ok answer, first_state)
unfolding read_file clean_path guard detect_encoding has_zero
read_notes = refl

write_notes :
    (write system notes (b'b' ∷ []) "sha256:1" first_state).1.calls
    ≡ removed "tmp"
      ∷ replaced "tmp" notes
      ∷ closed "tmp"
      ∷ chowned "tmp" 7 8
      ∷ chmoded "tmp" 384
      ∷ synced "tmp"
      ∷ wrote "tmp" (b'b' ∷ [])
      ∷ created "tmp"
      ∷ []
unfolding write clean_path check_revision hash_file guard save own create_temp with_removal or_close
    sync_dir
write_notes = refl

write_saved_example :
    Post
      (λ _. On (Written system first_state notes (b'b' ∷ []) "sha256:1"))
      (On (Untouched system first_state))
      (write system notes (b'b' ∷ []) "sha256:1" first_state)
write_saved_example = write_saved system first_state notes (b'b' ∷ []) "sha256:1"

edit_checked_example :
    (old : Bytes) × FileOf codec system first_state notes old
    × ((str_eq "sha256:0" (hash old) ≡ true)
        ⊎ Refused codec system second_state
            (write system notes (b'c' ∷ []) "sha256:1" second_state))
edit_checked_example =
    edit_checked codec system notes (system.dir notes) answer (b'c' ∷ []) [] first_state first_state
      second_state read_notes refl refl refl

-- No name in the trash is taken.
abbrev empty_trash : System Bytes
empty_trash = record system {
  lstat = λ p w. err (not_found p);
  base = λ p. "notes";
  join = λ p q. q;
}

abbrev desk : Desk Bytes
desk = record {
  xdg_data_home = "/data";
  home = "/home/ann";
  make_all = λ d w. (none, w);
  write_file = λ p c w. (none, w);
  text = λ e. "";
  is_exdev = λ e. false;
  numbered = λ s n. s;
  escape = λ s. s;
  now = λ w. "now";
}

trash_notes :
    (y : Result Error Bool × State Bytes) × (trash empty_trash desk 1 notes first_state ≡ some y)
    × (moves y.1.calls ≡ (notes, "notes") ∷ [])
unfolding trash clean_path guard trash_dir moves refuse_trash
trash_notes = (_, refl, refl)
