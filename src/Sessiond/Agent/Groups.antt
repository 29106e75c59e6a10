-- ===== src/Sessiond/Agent/Groups.antt =====
-- Which groups an agent is given.
use lumio_os.Prelude.{
  ℕ, ◌+◌, ◌^◌, ◌≤◌, Bool, false, ◌&&◌, ◌||◌, Option, none, some, List, [], ◌∷◌, ◌++◌, ◌≡◌, refl,
  ◌∙◌, arith, if◌then◌else◌, ◌==◌, if_both,
}
use lumio_os.Prelude.Text.{parse_uint, split, same_codes}
use lumio_os.Sessiond.Agent.{has, add_group, add_members, add_line, add_lines, supplementary_groups}

abbrev pub is_gid : ℕ → Option ℕ → Bool
is_gid gid none = false
is_gid gid (some g) = g == gid

unfoldable pub lists_user : List ℕ → List (List ℕ) → Bool
lists_user username [] = false
lists_user username (member ∷ members) = same_codes member username || lists_user username members

-- A line of at least four fields that has the number `gid` in the third and the user in the fourth.
unfoldable pub grants : List ℕ → ℕ → List (List ℕ) → Bool
unfolding parse_uint lists_user split
grants username gid (_ ∷ _ ∷ g ∷ members ∷ _) =
    lists_user username (split b',' members) && is_gid gid (parse_uint (2 ^ 32) g)
grants username gid _ = false

unfoldable pub some_line_grants : List ℕ → ℕ → List (List ℕ) → Bool
unfolding grants split
some_line_grants username gid [] = false
some_line_grants username gid (line ∷ lines) =
    grants username gid (split b':' line) || some_line_grants username gid lines

unfoldable pub member_by_file : List ℕ → ℕ → Option (List ℕ) → Bool
unfolding some_line_grants split
member_by_file username gid none = false
member_by_file username gid (some file) = some_line_grants username gid (split 10 file)

unfoldable pub occurrences : ℕ → List ℕ → ℕ
occurrences gid [] = 0
occurrences gid (g ∷ groups) =
    let rest = occurrences gid groups in if g == gid then rest + 1 else rest

has-append :
    (gid g : ℕ) (groups : List ℕ) → has gid (groups ++ g ∷ []) ≡ (has gid groups || g == gid)
unfolding has
has-append gid g [] = ground arith
has-append gid g (x ∷ groups) = ground (arith, has-append gid g groups)

occurrences-append :
    (gid g : ℕ) (groups : List ℕ)
    → occurrences gid (groups ++ g ∷ [])
      ≡ (if g == gid then occurrences gid groups + 1 else occurrences gid groups)
unfolding occurrences
occurrences-append gid g [] = ground arith
occurrences-append gid g (x ∷ groups) = ground (arith, occurrences-append gid g groups)

occurrences_none : (gid : ℕ) (groups : List ℕ) → has gid groups ≡ false → occurrences gid groups ≡ 0
unfolding has occurrences
occurrences_none gid [] h = refl
occurrences_none gid (g ∷ groups) h = ground (arith, occurrences_none gid groups)

module _ (gid : ℕ) where
  add_group-has :
      (g : Option ℕ) (groups : List ℕ)
      → has gid (add_group g groups) ≡ (has gid groups || is_gid gid g)
  add_group-has none groups = ground arith
  add_group-has (some g) groups = ground (arith, has-append gid g groups)

  add_group_once :
      (g : Option ℕ) (groups : List ℕ)
      → occurrences gid groups ≤ 1
      → occurrences gid (add_group g groups) ≤ 1
  add_group_once none groups h = h
  add_group_once (some g) groups h =
      ground (arith, occurrences-append gid g groups, occurrences_none gid groups)

  add_members-has :
      (username : List ℕ) (g : Option ℕ) (members : List (List ℕ)) (groups : List ℕ)
      → has gid (add_members username g members groups)
        ≡ (has gid groups || (lists_user username members && is_gid gid g))
  unfolding add_members lists_user
  add_members-has username g [] groups = ground arith
  add_members-has username g (member ∷ members) groups =
      let groups' = if same_codes member username then add_group g groups else groups in
      add_members-has username g members groups' ∙ ground (arith, add_group-has g groups)

  add_line-has :
      (username : List ℕ) (line : List (List ℕ)) (groups : List ℕ)
      → has gid (add_line username line groups) ≡ (has gid groups || grants username gid line)
  unfolding add_line grants
  add_line-has username (_ ∷ _ ∷ g ∷ members ∷ _) groups =
      add_members-has username (parse_uint (2 ^ 32) g) (split b',' members) groups
  add_line-has username [] groups = ground arith
  add_line-has username (_ ∷ []) groups = ground arith
  add_line-has username (_ ∷ _ ∷ []) groups = ground arith
  add_line-has username (_ ∷ _ ∷ _ ∷ []) groups = ground arith

  add_lines-has :
      (username : List ℕ) (lines : List (List ℕ)) (groups : List ℕ)
      → has gid (add_lines username lines groups)
        ≡ (has gid groups || some_line_grants username gid lines)
  unfolding add_lines some_line_grants
  add_lines-has username [] groups = ground arith
  add_lines-has username (line ∷ lines) groups =
      add_lines-has username lines (add_line username (split b':' line) groups)
      ∙ ground (arith, add_line-has username (split b':' line) groups)

  add_members_once :
      (username : List ℕ) (g : Option ℕ) (members : List (List ℕ)) (groups : List ℕ)
      → occurrences gid groups ≤ 1
      → occurrences gid (add_members username g members groups) ≤ 1
  unfolding add_members
  add_members_once username g [] groups h = h
  add_members_once username g (member ∷ members) groups h = add_members_once username g members _ (
      if_both (λ r. occurrences gid r ≤ 1) (same_codes member username) _ _
        (add_group_once g groups h) h)

  add_line_once :
      (username : List ℕ) (line : List (List ℕ)) (groups : List ℕ)
      → occurrences gid groups ≤ 1
      → occurrences gid (add_line username line groups) ≤ 1
  unfolding add_line
  add_line_once username (_ ∷ _ ∷ g ∷ members ∷ _) groups h =
      add_members_once username (parse_uint (2 ^ 32) g) (split b',' members) groups h
  add_line_once username [] groups h = h
  add_line_once username (_ ∷ []) groups h = h
  add_line_once username (_ ∷ _ ∷ []) groups h = h
  add_line_once username (_ ∷ _ ∷ _ ∷ []) groups h = h

  add_lines_once :
      (username : List ℕ) (lines : List (List ℕ)) (groups : List ℕ)
      → occurrences gid groups ≤ 1
      → occurrences gid (add_lines username lines groups) ≤ 1
  unfolding add_lines
  add_lines_once username [] groups h = h
  add_lines_once username (line ∷ lines) groups h =
      add_lines_once username lines _ (add_line_once username (split b':' line) groups h)

-- The groups that an agent is given are exactly the primary group of its user and the groups of
-- /etc/group that list the user: a number is among them if and only if it is the primary one or stands
-- in the third field of a line that has at least four fields and names the user in the fourth. No group
-- is given twice. If the file cannot be read, there is the primary group alone.
pub groups_exact :
    (file : Option (List ℕ)) (username : List ℕ) (primary gid : ℕ)
    → (has gid (supplementary_groups file username primary)
        ≡ (primary == gid || member_by_file username gid file))
      × (occurrences gid (supplementary_groups file username primary) ≤ 1)
unfolding supplementary_groups member_by_file has occurrences
groups_exact none username primary gid = (ground arith, ground arith)
groups_exact (some file) username primary gid = (
  add_lines-has gid username (split 10 file) (primary ∷ []) ∙ ground arith,
  add_lines_once gid username (split 10 file) (primary ∷ []) (ground arith),
)
