-- ===== src/Http/Local/Examples.antt =====
-- A save by one request that is sent twice.
use lumio_os.Prelude.{ℕ, ◌≤◌, ◌≡◌, refl, String, true, false, Option, none, some, [], ◌∷◌, arith}
use lumio_os.Prelude.Map.{lookup}
use lumio_os.Prelude.Action.{ok}
use lumio_os.Http.Idempotency.{IdemStore, Clock, get, replay_header, valid_request_id}
use lumio_os.Files.System.{Bytes, Info, State, System}
use lumio_os.Files.System.Count.{replacements}
use lumio_os.Files.User.Write.{write}
use lumio_os.Http.Local.{Answer, WriteBody, checked_content, handle_files_write}
use lumio_os.Http.Local.Saved.{saved_once}

-- The world is the content of the one file, /home/ann/notes.
abbrev notes : String
notes = "/home/ann/notes"

abbrev info : Info
info = record {
  is_dir = false;
  is_symlink = false;
  is_regular = true;
  size = 1;
  mode = 384;
  uid = 7;
  gid = 8;
}

abbrev hash : Bytes → String
hash [] = "sha256:0"
hash (b ∷ bs) = "sha256:1"

abbrev system : System Bytes
system = record {
  is_abs = λ p. true;
  clean = λ p. p;
  dir = λ p. "/home/ann";
  base = λ p. "notes";
  join = λ p q. notes;
  revision = hash;
  eval_symlinks = λ p w. ok p;
  lstat = λ p w. ok info;
  stat = λ p w. ok (some info);
  read_file = λ p w. ok w;
  create_temp = λ d p w. (ok "tmp", w);
  write = λ p b w. (none, w);
  sync = λ p w. (none, w);
  chmod = λ p m w. (none, w);
  chown = λ p u g w. (none, w);
  close = λ p w. (none, w);
  rename = λ p q w. (none, w);
  remove = λ p w. (none, w);
  make_dir = λ p w. (none, w);
  sync_dir = λ p w. w;
}

abbrev state : Bytes → State Bytes
state content = record { calls = []; world = content }

abbrev clock : ℕ → Clock
clock t = record { looked_up = t; answered = t; stored = t }

abbrev decode : String → Option Bytes
decode text = some (b'b' ∷ [])

abbrev body : WriteBody
body = record { path = notes; content = "Yg=="; expected_revision = "sha256:1"; request_id = "r1" }

accepted : checked_content decode body ≡ ok (b'b' ∷ [])
unfolding valid_request_id
accepted = refl

abbrev store : IdemStore Answer
store = []

saved_once_example :
    let first = handle_files_write system decode (some body) store (clock 5) (state (b'a' ∷ [])) in
    (first.2 ≡ (write system notes (b'b' ∷ []) "sha256:1" (state (b'a' ∷ []))).1)
    × (replacements first.2.calls ≤ 1)
    × (handle_files_write system decode (some body) first.1 (clock 9) (state []) ≡ (
      record { header = replay_header; status = (first.0).status; body = (first.0).body },
      first.1,
      state [],
    ))
unfolding get lookup replacements
saved_once_example =
    saved_once system decode body body (b'b' ∷ []) (b'b' ∷ []) store (clock 5) (clock 9)
      (state (b'a' ∷ [])) (state []) accepted accepted refl refl (omega arith)
