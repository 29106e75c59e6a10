-- ===== src/Files/User/Write/Steps.antt =====
-- What the calls of `Write` in server/internal/files/write.go are, from the creation of the new file on.
use lumio_os.Prelude.{ℕ, suc, ◌≡◌, refl, ap, ◌∙◌, String, Option, none, some, List, ◌∷◌}
use lumio_os.Prelude.Lists.{length}
use lumio_os.Prelude.Action.{Triple, Triple-bind, Triple-pure, Triple-imp}
use lumio_os.Files.System.{
  Bytes, Info, Call, created, closed, replaced, wrote, synced, chmoded, chowned, System,
}
use lumio_os.Files.System.Quiet.{On, Triple-sync_dir}
use lumio_os.Files.System.Count.{replacements}
use lumio_os.Files.System.Exact.{
  At, Same, Cleaned, Cleaned-replacements, exact-call, exact-step, exact-create_temp,
  exact-with_removal,
}
use lumio_os.Files.User.Write.{WriteResult, own, save, new_mode}

-- The calls that give a new file the mode and the owner of what was there.
abbrev pub owned : String → Option Info → List Call → List Call
owned tmp none calls = chmoded tmp new_mode ∷ calls
owned tmp (some info) calls = chowned tmp info.uid info.gid ∷ chmoded tmp info.mode ∷ calls

-- The calls that fill a new file and rename it to the path.
abbrev pub saved : String → String → Bytes → Option Info → List Call → List Call
saved tmp path content existing calls =
    replaced tmp path
    ∷ closed tmp
    ∷ owned tmp existing (synced tmp ∷ wrote tmp content ∷ created tmp ∷ calls)

-- These were the calls.
abbrev pub Saved : String → Bytes → Option Info → List Call → List Call → Type 0
Saved path content existing calls cs =
    (tmp : String) × Cleaned tmp (saved tmp path content existing calls) cs

owned-Same :
    (n : ℕ) (tmp : String) (existing : Option Info) (calls : List Call)
    → Same n calls
    → Same n (owned tmp existing calls)
unfolding replacements
owned-Same n tmp none calls h = h
owned-Same n tmp (some info) calls h = h

pub Saved-once :
    (path : String) (content : Bytes) (existing : Option Info) (calls cs : List Call)
    → Saved path content existing calls cs
    → replacements cs ≡ suc (replacements calls)
unfolding replacements
Saved-once path content existing calls cs (tmp, c) =
    Cleaned-replacements tmp _ cs c ∙ ap suc (owned-Same (replacements calls) tmp existing _ refl)

module _ {W : Type 0} (sys : System W) (n : ℕ) (calls : List Call) (h : Same n calls) where
  own-At :
      (tmp : String) (existing : Option Info)
      → Triple (At calls) (own sys tmp existing) (λ _. At (owned tmp existing calls)) (On (Same n))
  unfolding own replacements
  own-At tmp none = exact-step n calls h sys tmp (chmoded tmp new_mode) (sys.chmod tmp new_mode)
  own-At tmp (some info) =
      Triple-bind _ _
        (exact-step n calls h sys tmp (chmoded tmp info.mode) (sys.chmod tmp info.mode))
        λ _.
          exact-step n _ h sys tmp (chowned tmp info.uid info.gid) (sys.chown tmp info.uid info.gid)

module _ {W : Type 0} (sys : System W) (n : ℕ) (calls : List Call) (h : Same n calls) where
  pub save-Saved :
      (clean real_dir path : String) (content : Bytes) (existing : Option Info)
      → Triple
          (At calls)
          (save sys clean real_dir path content existing)
          (λ _. On (Saved path content existing calls))
          (On (Same n))
  unfolding save replacements
  save-Saved clean real_dir path content existing =
      Triple-bind _ _ (exact-create_temp n calls h sys real_dir ".lumio-write-*") λ tmp.
        let Q : WriteResult → List Call → Type 0 =
          λ _ cs. cs ≡ saved tmp path content existing calls in
        let owns = owned-Same n tmp existing _ h in
        Triple-imp _ (λ s p. p) (λ r s (done, e, c). (tmp, rw (← e) c)) (λ s p. p)
          (exact-with_removal n sys _ Q tmp _ (
            Triple-bind _ _ (exact-step n _ h sys tmp (wrote tmp content) (sys.write tmp content))
              λ _. Triple-bind _ _ (exact-step n _ h sys tmp (synced tmp) (sys.sync tmp)) λ _.
                Triple-bind _ _ (own-At sys n _ h tmp existing) λ _.
                  Triple-bind _ _ (exact-call n _ owns (closed tmp) (sys.close tmp)) λ _.
                    Triple-bind _ _ (exact-call n _ owns (replaced tmp path) (sys.rename tmp path))
                      λ _.
                        Triple-bind _ _
                          (Triple-sync_dir (λ cs. cs ≡ saved tmp path content existing calls) sys
                            (Same n) real_dir)
                          λ _.
                            Triple-pure
                              record {
                                path = clean;
                                revision = sys.revision content;
                                size_bytes = length content;
                              }
                              (λ s q. q)))
