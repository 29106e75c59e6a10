-- ===== src/Files/User/Edit.antt =====
-- server/internal/files: a file is read, and later written with the revision that was read.
use lumio_os.Prelude.{◌≡◌, refl, ◌⊎◌, inl, inr, String, true, false, str_eq}
use lumio_os.Prelude.Action.{Result, ok, err, Post}
use lumio_os.Files.System.{Bytes, Error, State, System}
use lumio_os.Files.System.Quiet.{On}
use lumio_os.Files.System.Count.{replacements}
use lumio_os.Files.User.Read.{Codec, ReadResult, read_file}
use lumio_os.Files.User.Read.Whole.{FileOf, Describes, read_whole}
use lumio_os.Files.User.Write.{WriteResult, write}
use lumio_os.Files.User.Write.Safe.{Written, Untouched, write_saved}

module _ {W : Type 0} (codec : Codec) (sys : System W) where
  -- The write failed, and replaced nothing.
  abbrev pub Refused : State W → Result Error WriteResult × State W → Type 0
  Refused s1 x = ((e : Error) × (x.0 ≡ err e)) × (replacements x.1.calls ≡ replacements s1.calls)

  found :
      (p : String) (r : ReadResult) (s0 s : State W)
      → read_file codec sys p s0 ≡ (ok r, s)
      → (bytes : Bytes) × FileOf codec sys s0 p bytes × Describes codec sys r bytes
  found p r s0 s e = let h = read_whole codec sys s0 p in (rw (e) at h).1

  unchanged_or_Refused :
      (p real_dir expected : String) (content new : Bytes) (s1 : State W)
      → str_eq expected "" ≡ false
      → sys.eval_symlinks (sys.dir (sys.clean p)) s1.world ≡ ok real_dir
      → sys.read_file (sys.join real_dir (sys.base (sys.clean p))) s1.world ≡ ok new
      → (x : Result Error WriteResult × State W)
      → Post (λ _. On (Written sys s1 p content expected)) (On (Untouched sys s1)) x
      → (str_eq (sys.revision new) expected ≡ true) ⊎ Refused s1 x
  unchanged_or_Refused p real_dir expected content new s1 given at there (err e, u) q =
      inr ((e, refl), q)
  unchanged_or_Refused p real_dir expected content new s1 given at there (ok a, u)
        (dir, existing, at', (known, inl blank, n, k)) =
      absurd (cc (given, blank))
  unchanged_or_Refused p real_dir expected content new s1 given at there (ok a, u)
        (dir, existing, at', (known, inr (old, held, same), n, k)) =
      let dirs : dir ≡ real_dir = cc (at, at') in
      let held' : sys.read_file (sys.join real_dir (sys.base (sys.clean p))) s1.world ≡ ok old =
        rw (← dirs) held in
      let olds : old ≡ new = cc (there, held') in inl (rw (← olds) same)

  -- A file of the user is read, and later, in any state, a write of the same path is sent with the
  -- revision of that read, which is not empty. Either the file then holds a content with the same hash as
  -- the one that was read, or the write is answered by an error, and no file was replaced. The file can
  -- be read at the time of the write.
  pub edit_checked :
      (p real_dir : String) (r : ReadResult) (content new : Bytes) (s0 s s1 : State W)
      → read_file codec sys p s0 ≡ (ok r, s)
      → str_eq r.revision "" ≡ false
      → sys.eval_symlinks (sys.dir (sys.clean p)) s1.world ≡ ok real_dir
      → sys.read_file (sys.join real_dir (sys.base (sys.clean p))) s1.world ≡ ok new
      → (old : Bytes) × FileOf codec sys s0 p old
        × ((str_eq (sys.revision new) (sys.revision old) ≡ true)
            ⊎ Refused s1 (write sys p content r.revision s1))
  edit_checked p real_dir r content new s0 s s1 e given at there =
      let (old, file, (is, _, _)) = found p r s0 s e in
      (
        old,
        file,
        rw (← is) (
            unchanged_or_Refused p real_dir r.revision content new s1 given at there
              (write sys p content r.revision s1) (write_saved sys s1 p content r.revision)),
      )
