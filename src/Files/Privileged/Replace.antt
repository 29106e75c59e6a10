-- ===== src/Files/Privileged/Replace.antt =====
-- What the calls of `Write` in server/internal/privfiles/privfiles.go are, from the creation of the
-- candidate on.
use lumio_os.Prelude.{
  ℕ, suc, ◌≡◌, refl, ap, ◌∙◌, ◌⊎◌, inl, inr, String, Bool, true, false, not, Option, none, some,
  List, ◌∷◌, str_eq, if◌then◌else◌, arith,
}
use Prim.Native.String.{◌++◌}
use lumio_os.Prelude.Lists.{length}
use lumio_os.Prelude.Action.{
  ok, err, Post, Triple, Triple-bind, Triple-pure, Triple-check, Triple-if, Triple-imp,
}
use lumio_os.Files.System.{
  Bytes, Info, Call, created, closed, synced, wrote, chmoded, chowned, made_dir, checked, kept,
  replaced, State, System, err_validation,
}
use lumio_os.Files.System.Quiet.{On, Triple-sync_dir, Triple-step}
use lumio_os.Files.System.Count.{replacements}
use lumio_os.Files.System.Exact.{
  At, Same, Cleaned, Cleaned-replacements, each, exact-call, exact-read, exact-step,
  exact-create_temp, exact-with_removal,
}
use lumio_os.Files.Privileged.{
  Writer, Tools, WriteResult, fill, keep_rollback, run_validator, validated, validate_known,
  known_kind, replace,
}

-- The calls that give a temporary file its content, its mode and its owner.
abbrev pub filled : String → Bytes → ℕ → ℕ → ℕ → List Call → List Call
filled tmp content mode uid gid calls =
    closed tmp ∷ chowned tmp uid gid ∷ chmoded tmp mode ∷ synced tmp ∷ wrote tmp content ∷ calls

module _ {W : Type 0} (sys : System W) (tools : Tools W) where
  -- The check that the path asks for accepted the candidate `tmp`.
  abbrev pub Approved : String → Bytes → String → List Call → List Call → Type 0
  Approved path content tmp calls cs =
      ((str_eq (known_kind path (sys.base path)) "json" ≡ true)
        × (tools.valid_json content ≡ true)
        × (cs ≡ calls))
      ⊎ ((str_eq (known_kind path (sys.base path)) "" ≡ true) × (cs ≡ calls))
      ⊎ (cs ≡ checked (known_kind path (sys.base path)) tmp ∷ calls)

  -- A new file was filled with the old content, and was renamed to the rollback reference.
  abbrev pub Kept : String → Bytes → Info → String → List Call → List Call → Type 0
  Kept dir old info ref calls cs =
      (tmp : String) × Cleaned tmp
        (kept tmp (sys.join dir ref)
          ∷ filled tmp old info.mode info.uid info.gid (created tmp ∷ made_dir dir ∷ calls))
        cs

  -- The whole of the calls: a new file is filled, checked, and, once the copy is in its place, renamed
  -- to the path.
  abbrev pub Replaced :
      String → String → Bytes → Bytes → Info → ℕ → List Call → String → List Call → Type 0
  Replaced dir path content old info mode calls ref cs =
      (tmp : String) × (approved : List Call) × (copied : List Call) × Approved path content tmp
        (filled tmp content mode info.uid info.gid (created tmp ∷ calls)) approved
      × Kept dir old info ref approved copied
      × Cleaned tmp (replaced tmp path ∷ copied) cs

  Approved-Same :
      (n : ℕ) (path : String) (content : Bytes) (tmp : String) (calls cs : List Call)
      → Same n calls
      → Approved path content tmp calls cs
      → Same n cs
  unfolding replacements
  Approved-Same n path content tmp calls cs h (inl (_, _, e)) = ap replacements e ∙ h
  Approved-Same n path content tmp calls cs h (inr (inl (_, e))) = ap replacements e ∙ h
  Approved-Same n path content tmp calls cs h (inr (inr e)) = ap replacements e ∙ h

  Kept-Same :
      (n : ℕ) (dir : String) (old : Bytes) (info : Info) (ref : String) (calls cs : List Call)
      → Same n calls
      → Kept dir old info ref calls cs
      → Same n cs
  unfolding replacements
  Kept-Same n dir old info ref calls cs h (tmp, c) = Cleaned-replacements tmp _ cs c ∙ h

  pub Replaced-once :
      (dir path : String) (content old : Bytes) (info : Info) (mode : ℕ) (calls : List Call)
      (ref : String) (cs : List Call)
      → Replaced dir path content old info mode calls ref cs
      → replacements cs ≡ suc (replacements calls)
  unfolding replacements
  Replaced-once dir path content old info mode calls ref cs (tmp, approved, copied, a, k, c) =
      let n = replacements calls in
      Cleaned-replacements tmp _ cs c
      ∙ ap suc (
          Kept-Same n dir old info ref approved copied
            (Approved-Same n path content tmp _ approved refl a) k)

  module _ (n : ℕ) where
    fill-At :
        (calls : List Call) (tmp : String) (content : Bytes) (mode uid gid : ℕ)
        → Same n calls
        → Triple
            (At calls)
            (fill sys tools tmp content mode uid gid)
            (λ _. At (filled tmp content mode uid gid calls))
            (On (Same n))
    unfolding fill replacements
    fill-At calls tmp content mode uid gid h =
        Triple-bind _ _ (exact-step n _ h sys tmp (wrote tmp content) (sys.write tmp content)) λ _.
          Triple-bind _ _ (exact-step n _ h sys tmp (synced tmp) (sys.sync tmp)) λ _.
            Triple-bind _ _ (exact-step n _ h sys tmp (chmoded tmp mode) (sys.chmod tmp mode)) λ _.
              Triple-bind _ _
                (exact-step n _ h sys tmp (chowned tmp uid gid) (sys.chown tmp uid gid))
                λ _. exact-call n _ h (closed tmp) (sys.close tmp)

    keep_rollback-Kept :
        (calls : List Call) (w : Writer) (old : Bytes) (info : Info) (id : String)
        → Same n calls
        → Triple
            (At calls)
            (keep_rollback sys tools w old info.mode info.uid info.gid id)
            (λ ref. On (Kept w.rollback_dir old info ref calls))
            (On (Same n))
    unfolding keep_rollback replacements
    keep_rollback-Kept calls w old info id h =
        let dir = w.rollback_dir in
        Triple-bind _ _ (exact-call n calls h (made_dir dir) (sys.make_dir dir)) λ _.
          Triple-bind _ _ (exact-read n _ h (λ w. ok (tools.reference id w))) λ ref.
            Triple-bind _ _ (exact-create_temp n _ h sys dir ".rollback-*") λ tmp.
              let copy =
                filled tmp old info.mode info.uid info.gid (created tmp ∷ made_dir dir ∷ calls) in
              let Q : String → List Call → Type 0 = λ r cs. cs ≡ kept tmp (sys.join dir r) ∷ copy in
              Triple-imp _ (λ s p. p) (λ r s (done, e, c). (tmp, rw (← e) c)) (λ s p. p)
                (exact-with_removal n sys _ Q tmp _ (
                  Triple-bind _ _ (fill-At _ tmp old info.mode info.uid info.gid h) λ _.
                    Triple-bind _ _
                      (exact-call n copy h (kept tmp (sys.join dir ref))
                        (sys.rename tmp (sys.join dir ref)))
                      λ _.
                        Triple-bind _ _ (Triple-sync_dir (Q ref) sys (Same n) dir)
                          λ _. Triple-pure ref (λ s q. q)))

    run_validator-Approved :
        (path : String) (content : Bytes) (tmp : String) (calls : List Call)
        → Same n calls
        → Triple
            (At calls)
            (run_validator sys tools (known_kind path (sys.base path)) tmp)
            (λ _. On (Approved path content tmp calls))
            (On (Same n))
    unfolding run_validator
    run_validator-Approved path content tmp calls h = record {
      holds = λ s e. installed (tools.is_installed kind s.world) s e;
    }
      where
        kind : String
        kind = known_kind path (sys.base path)

        go :
            (s : State W) (r : Option String × W)
            → s.calls ≡ calls
            → Post
                (λ _. On (Approved path content tmp calls))
                (On (Same n))
                (validated sys tools kind tmp s r)
        go s (some output, w) e = ap replacements e ∙ h
        go s (none, w) e = inr (inr (ap (λ l. checked kind tmp ∷ l) e))

        installed :
            (b : Bool) (s : State W)
            → s.calls ≡ calls
            → Post
                (λ _. On (Approved path content tmp calls))
                (On (Same n))
                (if not b
                  then (err (err_validation (kind ++ " validator is unavailable")), s)
                  else validated sys tools kind tmp s (tools.run kind tmp s.world))
        installed false s e = ap replacements e ∙ h
        installed true s e = go s (tools.run kind tmp s.world) e

    validate_known-Approved :
        (path : String) (content : Bytes) (tmp : String) (calls : List Call)
        → Same n calls
        → Triple
            (At calls)
            (validate_known sys tools path tmp content)
            (λ _. On (Approved path content tmp calls))
            (On (Same n))
    unfolding validate_known
    validate_known-Approved path content tmp calls h =
        Triple-if _ _ _
          (λ json.
            Triple-imp _ (λ s p. p) (λ a s q. q) (λ s e. ap replacements e ∙ h)
              (Triple-bind _ _ (Triple-check (not (tools.valid_json content)) _)
                λ _. Triple-pure _ λ s (e, valid). inl (json, ground arith, e)))
          (λ _.
            Triple-if _ _ _ (λ plain. Triple-pure _ λ s e. inr (inl (plain, e)))
              (λ _. run_validator-Approved path content tmp calls h))

    pub replace-Replaced :
        (w : Writer) (path : String) (content old : Bytes) (info : Info) (mode : ℕ) (id : String)
        (calls : List Call)
        → Same n calls
        → Triple
            (At calls)
            (replace sys tools w path content old info mode id)
            (λ r. On (Replaced w.rollback_dir path content old info mode calls r.rollback_ref))
            (On (Same n))
    unfolding replace replacements
    replace-Replaced w path content old info mode id calls h =
        let dir = w.rollback_dir in
        Triple-bind _ _ (exact-create_temp n calls h sys (sys.dir path) ".lumio-privileged-*")
          λ tmp.
            let candidate = filled tmp content mode info.uid info.gid (created tmp ∷ calls) in
            let Copied : String → List Call → Type 0 = λ ref cs.
              (approved : List Call) × Approved path content tmp candidate approved
              × Kept dir old info ref approved cs in
            let Q : WriteResult → List Call → Type 0 = λ r cs.
              (copied : List Call) × Copied r.rollback_ref copied
              × (cs ≡ replaced tmp path ∷ copied) in
            Triple-imp _ (λ s p. p)
              (λ r s (done, (copied, (approved, a, k), e), c).
                (tmp, approved, copied, a, k, rw (← e) c))
              (λ s p. p)
              (exact-with_removal n sys _ Q tmp _ (
                Triple-bind _ _ (fill-At _ tmp content mode info.uid info.gid h) λ _.
                  Triple-bind _ _ (validate_known-Approved path content tmp candidate h)
                    λ validation.
                      Triple-bind _ _
                        (each (Approved path content tmp candidate) (λ ref. On (Copied ref)) _ _
                          λ approved a.
                            Triple-imp _ (λ s p. p) (λ ref s k. (approved, a, k)) (λ s p. p)
                              (keep_rollback-Kept approved w old info id
                                (Approved-Same n path content tmp candidate approved h a)))
                        λ ref.
                          let R : List Call → Type 0 = λ cs.
                            (copied : List Call) × Copied ref copied
                            × (cs ≡ replaced tmp path ∷ copied) in
                          Triple-bind _ _
                            (Triple-step (Copied ref) R (Same n) (replaced tmp path)
                              (sys.rename tmp path) (λ cs k. (cs, k, refl))
                              (λ cs (approved, a, k).
                                Kept-Same n dir old info ref approved cs
                                  (Approved-Same n path content tmp candidate approved h a) k))
                            λ _.
                              Triple-bind _ _ (Triple-sync_dir R sys (Same n) (sys.dir path)) λ _.
                                Triple-pure
                                  record {
                                    path = path;
                                    revision = sys.revision content;
                                    size_bytes = length content;
                                    rollback_ref = ref;
                                    validation = validation;
                                  }
                                  (λ s q. q)))
