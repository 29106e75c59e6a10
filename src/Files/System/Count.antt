-- ===== src/Files/System/Count.antt =====
-- How often the calls made so far replaced a target.
use lumio_os.Prelude.{ℕ, suc, ◌≡◌, refl, true, List, [], ◌∷◌}
use lumio_os.Files.System.{
  Call, created, removed, closed, replaced, kept, checked, wrote, synced, chmoded, chowned,
  made_dir, moved,
}
use lumio_os.Files.System.Quiet.{is_quiet}

-- How often a target was replaced.
unfoldable pub replacements : List Call → ℕ
replacements [] = 0
replacements (replaced tmp path ∷ cs) = suc (replacements cs)
replacements (_ ∷ cs) = replacements cs

pub replacements-quiet :
    (c : Call) (cs : List Call) → is_quiet c ≡ true → replacements (c ∷ cs) ≡ replacements cs
unfolding replacements
replacements-quiet (replaced t p) cs q = absurd (cc q)
replacements-quiet (created p) cs q = refl
replacements-quiet (removed p) cs q = refl
replacements-quiet (closed p) cs q = refl
replacements-quiet (synced p) cs q = refl
replacements-quiet (wrote p b) cs q = refl
replacements-quiet (chmoded p m) cs q = refl
replacements-quiet (chowned p u g) cs q = refl
replacements-quiet (made_dir p) cs q = refl
replacements-quiet (checked k p) cs q = refl
replacements-quiet (kept p b) cs q = refl
replacements-quiet (moved p r) cs q = refl
