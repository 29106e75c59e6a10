-- ===== src/Files/User/Read/Whole.antt =====
-- What `Read` of server/internal/files/files.go tells about the content of a file.
use lumio_os.Prelude.{
  suc, ℕ, ◌+◌, ◌≤◌, ◌≡◌, refl, ap, ◌∙◌, sym, String, true, false, ltb, if◌then◌else◌, Bool-cases,
  inl, inr, arith,
}
use lumio_os.Prelude.Lists.{length, take, take-append_drop, take-take, take_all, length-take_next}
use lumio_os.Prelude.Action.{ok, Post}
use lumio_os.Files.System.{Bytes, State, System}
use lumio_os.Files.System.Run.{Run, after-read, after-check, after-run}
use lumio_os.Files.User.Path.{clean_path-same}
use lumio_os.Files.User.Read.{Codec, ReadResult, max_read_bytes, encoded, result, read_file}

-- The cut of a content to at most n bytes, after n + 1 were read.
cut :
    (n : ℕ) (bytes : Bytes)
    → (ltb n (length (take (suc n) bytes)) ≡ ltb n (length bytes))
      × ((if ltb n (length (take (suc n) bytes))
            then take n (take (suc n) bytes)
            else take (suc n) bytes)
          ≡ take n bytes)
cut n bytes =
    let (there, back) = length-take_next n bytes in
    elim (Bool-cases (ltb n (length (take (suc n) bytes)))) [
      | inl long ↦
          let whole : ltb n (length bytes) ≡ true = elim (Bool-cases (ltb n (length bytes))) [
            | inl e ↦ e
            | inr short ↦ let k = back (ground arith) in absurd (ground arith)
          ] in
          rw (long, whole) (refl, take-take n bytes)
      | inr short ↦
          let k : length bytes ≤ n = there (ground arith) in
          let whole : ltb n (length bytes) ≡ false = ground arith in
          rw (short, whole) (refl, take_all (suc n) bytes (omega arith) ∙ sym (take_all n bytes k))
    ]

module _ {W : Type 0} (codec : Codec) (sys : System W) where
  -- What is said of a content.
  abbrev pub Describes : ReadResult → Bytes → Type 0
  Describes r bytes =
      (r.revision ≡ sys.revision bytes)
      × (r.is_truncated ≡ ltb max_read_bytes (length bytes))
      × (r.content ≡ encoded codec (take max_read_bytes bytes))

  result-Describes :
      (path : String) (size : ℕ) (bytes : Bytes)
      → Describes (result codec sys path size bytes) bytes
  result-Describes path size bytes =
      let (long, same) = cut max_read_bytes bytes in
      (ap sys.revision (take-append_drop (max_read_bytes + 1) bytes), long, ap (encoded codec) same)

  module _ (s0 : State W) where
    -- The content of the file that a path leads to.
    abbrev pub FileOf : String → Bytes → Type 0
    FileOf p bytes =
        (real : String) × (sys.eval_symlinks (sys.clean p) s0.world ≡ ok real)
        × (sys.read_file real s0.world ≡ ok bytes)

    read_run :
        (p : String)
        → Run s0
            (read_file codec sys p)
            (λ r s. (s ≡ s0) × ((bytes : Bytes) × FileOf p bytes × Describes r bytes))
            (λ s. s ≡ s0)
    unfolding read_file
    read_run p = after-run s0 _ _ (clean_path-same sys s0 p) refl λ clean is. rw (is) (
        after-read s0 (sys.eval_symlinks (sys.clean p)) _ refl λ real at_path.
          after-read s0 (sys.lstat real) _ refl λ info _. after-check s0 _ _ _ refl λ _.
            after-read s0 (sys.read_file real) _ refl λ bytes there. record {
              holds = (
                refl,
                (bytes, (real, at_path, there), result-Describes (sys.clean p) info.size bytes),
              );
            })

    -- Reading a file of the user changes nothing. A result tells of the whole content of the file that the
    -- path leads to: the revision is that of all of it, it is truncated exactly when it is longer than
    -- 1 MiB, and the content given is its first 1 MiB in the codec, or nothing when that is binary.
    pub read_whole :
        (p : String)
        → Post
            (λ r s. (s ≡ s0) × ((bytes : Bytes) × FileOf p bytes × Describes r bytes))
            (λ s. s ≡ s0)
            (read_file codec sys p s0)
    read_whole p = (read_run p).holds
