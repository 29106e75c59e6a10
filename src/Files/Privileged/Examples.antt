-- ===== src/Files/Privileged/Examples.antt =====
-- A protected file is written.
use lumio_os.Broker.Request.{mode_pattern}
use lumio_os.Prelude.{◌≡◌, refl, String, true, false, none, some, [], ◌∷◌}
use lumio_os.Prelude.Action.{ok, guard, Post}
use lumio_os.Files.System.{
  Bytes, created, removed, closed, synced, wrote, chmoded, chowned, made_dir, kept, replaced, State,
  System, create_temp, with_removal, or_close, sync_dir,
}
use lumio_os.Files.System.Quiet.{On}
use lumio_os.Files.Privileged.{
  Tools, new_writer, write, validate_path, valid_revision, safe_mode, replace, fill, keep_rollback,
  validate_known, known_kind, requested_mode,
}
use lumio_os.Files.System.Count.{replacements}
use lumio_os.Files.Privileged.Safe.{Written, write_safe}
use lumio_os.Files.Privileged.Modes.{accepted_modes}

-- The world is the content of the one file, /etc/motd.
abbrev motd : String
motd = "/etc/motd"

abbrev revision : String
revision = "sha256:0000000000000000000000000000000000000000000000000000000000000000"

abbrev system : System Bytes
system = record {
  is_abs = λ p. true;
  clean = λ p. p;
  dir = λ p. "/etc";
  base = λ p. "motd";
  join = λ p q. q;
  revision = λ b. revision;
  eval_symlinks = λ p w. ok p;
  lstat = λ p w. ok record {
    is_dir = false;
    is_symlink = false;
    is_regular = true;
    size = 1;
    mode = 420;
    uid = 0;
    gid = 0;
  };
  stat = λ p w. ok none;
  read_file = λ p w. ok w;
  create_temp = λ d p w. (ok "tmp", w);
  write = λ p b w. (none, w);
  sync = λ p w. (none, w);
  chmod = λ p m w. (none, w);
  chown = λ p u g w. (none, w);
  close = λ p w. (none, w);
  rename = λ p q w. (none, w);
  remove = λ p w. (none, w);
  make_dir = λ p w. (none, w);
  sync_dir = λ p w. w;
}

abbrev tools : Tools Bytes
tools = record {
  valid_json = λ b. true;
  is_installed = λ k w. true;
  run = λ k c w. (none, w);
  reference = λ id w. "ref";
}

abbrev before_it : State Bytes
before_it = record { calls = []; world = b'a' ∷ [] }

write_safe_example :
    Post
      (λ r.
        On (Written system tools before_it (new_writer "/roll") motd (b'b' ∷ []) revision "0600" r))
      (On λ cs. replacements cs ≡ 0)
      (write system tools (new_writer "/roll") motd (b'b' ∷ []) revision "0600" "id" before_it)
unfolding replacements
write_safe_example =
    write_safe system tools before_it (new_writer "/roll") motd (b'b' ∷ []) revision "0600" "id"

write_done :
    (write system tools
      (new_writer "/roll")
      motd
      (b'b' ∷ [])
      revision
      "0600"
      "id"
      before_it).1.calls
    ≡ removed "tmp"
      ∷ replaced "tmp" motd
      ∷ removed "tmp"
      ∷ kept "tmp" "ref"
      ∷ closed "tmp"
      ∷ chowned "tmp" 0 0
      ∷ chmoded "tmp" 420
      ∷ synced "tmp"
      ∷ wrote "tmp" (b'a' ∷ [])
      ∷ created "tmp"
      ∷ made_dir "/roll"
      ∷ closed "tmp"
      ∷ chowned "tmp" 0 0
      ∷ chmoded "tmp" 384
      ∷ synced "tmp"
      ∷ wrote "tmp" (b'b' ∷ [])
      ∷ created "tmp"
      ∷ []
unfolding write validate_path valid_revision safe_mode replace fill keep_rollback validate_known
    known_kind guard create_temp with_removal or_close sync_dir requested_mode
write_done = refl

accepted_modes_example : requested_mode (b'0' ∷ b'5' ∷ b'3' ∷ b'3' ∷ []) ≡ some 347
unfolding mode_pattern
accepted_modes_example = accepted_modes 5 3 3 refl
