-- ===== src/Files/User/Write/Safe.antt =====
-- When `Write` of server/internal/files/write.go replaces its target.
use lumio_os.Prelude.{
  refuted, suc, ◌≡◌, refl, ap, sym, ◌⊎◌, inl, inr, String, true, not, Option, none, some, List,
  str_eq, ◌∙◌,
}
use lumio_os.Prelude.Action.{Result, ok, err, pure, Post, Triple, Triple-imp}
use lumio_os.Files.System.{Bytes, Error, stale_error, Info, Call, State, System}
use lumio_os.Files.System.Quiet.{On}
use lumio_os.Files.System.Count.{replacements}
use lumio_os.Files.System.Exact.{At}
use lumio_os.Files.System.Run.{Run, Run-if, after-read, after-check, last-check, after-run}
use lumio_os.Files.User.Path.{clean_path-same}
use lumio_os.Files.User.Write.{check_revision, check_existing, hash_file, hashed, save, write}
use lumio_os.Files.User.Write.Steps.{Saved, Saved-once, save-Saved}

module _ {W : Type 0} (sys : System W) where
  module _ (s0 : State W) where
    -- What was there had the expected revision, when one was expected.
    abbrev Matches : String → String → Type 0
    Matches target expected =
        (str_eq expected "" ≡ true)
        ⊎ ((old : Bytes) × (sys.read_file target s0.world ≡ ok old)
            × (str_eq (sys.revision old) expected ≡ true))

    hash_file-same :
        (target : String)
        → Run s0
            (hash_file sys target)
            (λ actual s.
              (s ≡ s0)
              × ((old : Bytes) × (sys.read_file target s0.world ≡ ok old)
                  × (actual ≡ sys.revision old)))
            (λ s. s ≡ s0)
    unfolding hash_file
    hash_file-same target = record { holds = go (sys.read_file target s0.world) refl }
      where
        go :
            (r : Result Error Bytes)
            → sys.read_file target s0.world ≡ r
            → Post
                (λ actual s.
                  (s ≡ s0)
                  × ((old : Bytes) × (sys.read_file target s0.world ≡ ok old)
                      × (actual ≡ sys.revision old)))
                (λ s. s ≡ s0)
                (hashed sys r, s0)
        go (ok old) e = (refl, (old, e, refl))
        go (err x) e = refl

    check_existing-same :
        (target expected : String) (existing : Option Info)
        → Run s0
            (check_existing sys target expected existing)
            (λ _ s. (s ≡ s0) × Matches target expected)
            (λ s. s ≡ s0)
    check_existing-same target expected none = record { holds = refl }
    check_existing-same target expected (some info) =
        after-run s0 _ _ (hash_file-same target) refl λ actual (old, there, is).
          last-check s0 (not (str_eq actual expected)) (stale_error expected actual) refl λ fresh.
            (refl, inr (old, there, ap (λ r. str_eq r expected) (sym is) ∙ refuted _ fresh))

    check_revision-same :
        (target expected : String) (existing : Option Info)
        → Run s0
            (check_revision sys target expected existing)
            (λ _ s. (s ≡ s0) × Matches target expected)
            (λ s. s ≡ s0)
    unfolding check_revision
    check_revision-same target expected existing =
        Run-if s0 (str_eq expected "") (pure tt) (check_existing sys target expected existing)
          (λ blank. record { holds = (refl, inl blank) })
          (λ _. check_existing-same target expected existing)

    -- The outcome of a write to `target`.
    abbrev SavedAs : String → Bytes → Option Info → String → List Call → Type 0
    SavedAs target content existing expected cs =
        (sys.stat target s0.world ≡ ok existing)
        × Matches target expected
        × (replacements cs ≡ suc (replacements s0.calls))
        × Saved target content existing s0.calls cs

    abbrev pub Written : String → Bytes → String → List Call → Type 0
    Written p content expected cs =
        (real_dir : String) × (existing : Option Info) × (sys.eval_symlinks (sys.dir (sys.clean p))
            s0.world
          ≡ ok real_dir)
        × SavedAs (sys.join real_dir (sys.base (sys.clean p))) content existing expected cs

    abbrev pub Untouched : List Call → Type 0
    Untouched cs = replacements cs ≡ replacements s0.calls

    save-Written :
        (p expected real_dir : String) (content : Bytes) (existing : Option Info)
        → sys.eval_symlinks (sys.dir (sys.clean p)) s0.world ≡ ok real_dir
        → sys.stat (sys.join real_dir (sys.base (sys.clean p))) s0.world ≡ ok existing
        → Matches (sys.join real_dir (sys.base (sys.clean p))) expected
        → Run s0
            (save sys
              (sys.clean p)
              real_dir
              (sys.join real_dir (sys.base (sys.clean p)))
              content
              existing)
            (λ _. On (Written p content expected))
            (On Untouched)
    save-Written p expected real_dir content existing at_dir there fits = record {
      holds = done.holds s0 refl;
    }
      where
        done :
            Triple
              (At s0.calls)
              (save sys
                (sys.clean p)
                real_dir
                (sys.join real_dir (sys.base (sys.clean p)))
                content
                existing)
              (λ _. On (Written p content expected))
              (On Untouched)
        done =
            Triple-imp _ (λ s p. p)
              (λ r s k. (
                real_dir,
                existing,
                at_dir,
                (there, fits, Saved-once _ content existing s0.calls s.calls k, k),
              ))
              (λ s p. p)
              (save-Saved sys (replacements s0.calls) s0.calls refl (sys.clean p) real_dir
                (sys.join real_dir (sys.base (sys.clean p))) content existing)

    write_run :
        (p : String) (content : Bytes) (expected : String)
        → Run s0
            (write sys p content expected)
            (λ _. On (Written p content expected))
            (On Untouched)
    unfolding write
    write_run p content expected = after-run s0 _ _ (clean_path-same sys s0 p) refl λ clean is.
        rw (is) (
          after-check s0 _ _ _ refl λ _.
            after-read s0 (sys.eval_symlinks (sys.dir (sys.clean p))) _ refl λ real_dir at_dir.
              after-read s0 (sys.stat (sys.join real_dir (sys.base (sys.clean p)))) _ refl
                λ existing there. after-check s0 _ _ _ refl λ _.
                  after-run s0 _ _
                    (check_revision-same (sys.join real_dir (sys.base (sys.clean p))) expected
                      existing)
                    refl
                    λ _ fits. save-Written p expected real_dir content existing at_dir there fits)

    -- Writing a file of the user. When the result is an error, whatever failed, no target was replaced.
    -- When it is not, one replacement was made, that of the file of the path's name in the real directory:
    -- if a revision was expected, what was read there had it; and the calls are just these: a new file was
    -- created, was given the content, then the mode and the owner of the file that was there, or the mode
    -- 0644 when there was none, was closed, and was renamed to the file of the path's name; after that at
    -- most its own old name was removed.
    pub write_saved :
        (p : String) (content : Bytes) (expected : String)
        → Post
            (λ _. On (Written p content expected))
            (On Untouched)
            (write sys p content expected s0)
    write_saved p content expected = (write_run p content expected).holds
