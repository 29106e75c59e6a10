-- ===== src/Files/Privileged/Safe.antt =====
-- When `Write` of server/internal/privfiles/privfiles.go replaces its target.
use lumio_os.Prelude.{refuted, ℕ, suc, ◌≡◌, refl, String, true, List, str_eq}
use lumio_os.Prelude.Action.{ok, Post, Triple, Triple-imp}
use lumio_os.Files.System.{Bytes, Info, Call, State, System}
use lumio_os.Files.System.Quiet.{On}
use lumio_os.Files.Privileged.{Writer, Tools, WriteResult, validate_path, replace, write, safe_mode}
use lumio_os.Files.System.Count.{replacements}
use lumio_os.Files.System.Exact.{At}
use lumio_os.Files.System.Run.{Run, after-lift, after-read, after-check, after-run}
use lumio_os.Files.Privileged.Replace.{Replaced, Replaced-once, replace-Replaced}

module _ {W : Type 0} (sys : System W) (tools : Tools W) where
  module _ (s0 : State W) where
    validate_path-same :
        (w : Writer) (path : String)
        → Run s0
            (validate_path sys tools w path)
            (λ clean s. (s ≡ s0) × (clean ≡ path))
            (λ s. s ≡ s0)
    unfolding validate_path
    validate_path-same w path = after-check s0 _ _ _ refl λ _. after-check s0 _ _ _ refl λ _.
        after-read s0 (sys.eval_symlinks (sys.dir path)) _ refl
          λ real _. after-check s0 _ _ _ refl λ _. record { holds = (refl, refl) }

    -- The content that was there had the expected revision.
    abbrev Was : String → String → Bytes → Type 0
    Was path expected old =
        (sys.read_file path s0.world ≡ ok old) × (str_eq (sys.revision old) expected ≡ true)

    abbrev pub Written :
        Writer → String → Bytes → String → String → WriteResult → List Call → Type 0
    Written w path content expected requested r cs =
        (old : Bytes) × (info : Info) × (mode : ℕ) × Was path expected old
        × (sys.lstat path s0.world ≡ ok info)
        × (safe_mode requested info.mode ≡ ok mode)
        × (replacements cs ≡ suc (replacements s0.calls))
        × Replaced sys tools w.rollback_dir path content old info mode s0.calls r.rollback_ref cs

    replace-Written :
        (w : Writer) (path : String) (content old : Bytes) (info : Info)
        (expected requested : String) (mode : ℕ) (id : String)
        → Was path expected old
        → sys.lstat path s0.world ≡ ok info
        → safe_mode requested info.mode ≡ ok mode
        → Post
            (λ r. On (Written w path content expected requested r))
            (On λ cs. replacements cs ≡ replacements s0.calls)
            (replace sys tools w path content old info mode id s0)
    replace-Written w path content old info expected requested mode id was there fits =
        written.holds s0 refl
      where
        written :
            Triple
              (At s0.calls)
              (replace sys tools w path content old info mode id)
              (λ r. On (Written w path content expected requested r))
              (On λ cs. replacements cs ≡ replacements s0.calls)
        written =
            Triple-imp _ (λ s p. p)
              (λ r s d. (
                old,
                info,
                mode,
                was,
                there,
                fits,
                Replaced-once sys tools w.rollback_dir path content old info mode s0.calls
                    r.rollback_ref s.calls d,
                d,
              ))
              (λ s p. p)
              (replace-Replaced sys tools (replacements s0.calls) w path content old info mode id
                s0.calls refl)

    write_run :
        (w : Writer) (path : String) (content : Bytes) (expected mode id : String)
        → Run s0
            (write sys tools w path content expected mode id)
            (λ r. On (Written w path content expected mode r))
            (On λ cs. replacements cs ≡ replacements s0.calls)
    unfolding write
    write_run w path content expected mode id =
        after-run s0 _ _ (validate_path-same w path) refl λ clean same_path. rw (same_path) (
          after-check s0 _ _ _ refl λ _. after-check s0 _ _ _ refl λ _.
            after-read s0 (sys.lstat path) _ refl λ info at. after-check s0 _ _ _ refl λ _.
              after-check s0 _ _ _ refl λ _. after-read s0 (sys.eval_symlinks path) _ refl λ real _.
                after-check s0 _ _ _ refl λ _.
                  after-read s0 (sys.read_file path) _ refl λ old there.
                    after-check s0 _ _ _ refl λ same.
                      after-lift s0 (safe_mode mode info.mode) _ refl λ new_mode fits. record {
                        holds =
                            replace-Written w path content old info expected mode new_mode id
                              (there, refuted (str_eq (sys.revision old) expected) same) at fits;
                      })

    -- Writing a protected file. When the result is an error, whatever failed, no target was replaced. When
    -- it is not, one replacement was made, that of the path: the content read before had the expected
    -- revision, and the calls are just these, in this order. A new file was created, was given the new
    -- content, the mode that the request asks for and the owner of the path, and was closed; it passed the
    -- check that the path asks for (valid JSON, no check, or a command that accepted this file); a second
    -- new file was given the old content with its mode and owner, and was renamed to the rollback
    -- reference of the result; the first was renamed to the path. Besides, each of the two may have been
    -- removed under its old name after its rename.
    pub write_safe :
        (w : Writer) (path : String) (content : Bytes) (expected mode id : String)
        → Post
            (λ r. On (Written w path content expected mode r))
            (On λ cs. replacements cs ≡ replacements s0.calls)
            (write sys tools w path content expected mode id s0)
    write_safe w path content expected mode id = (write_run w path content expected mode id).holds
