-- ===== src/Sessiond/Agent/Examples.antt =====
-- A group file and a password file of two lines.
use lumio_os.Prelude.{ℕ, ◌^◌, ◌≤◌, ◌||◌, none, some, List, [], ◌∷◌, ◌≡◌, refl, ◌==◌}
use lumio_os.Prelude.Text.{parse_uint, codes}
use lumio_os.Sessiond.Agent.{has, supplementary_groups, shell_for}
use lumio_os.Sessiond.Agent.Groups.{member_by_file, occurrences, groups_exact}

-- The last line is too short, the one before it has no number.
abbrev group_file : List ℕ
group_file = codes "adm:x:4:ann,bob\nsudo:x:27:bob\nbad:x:4x:ann\nshort:x:9"

abbrev ann : List ℕ
ann = codes "ann"

two_groups : supplementary_groups (some group_file) ann 1000 ≡ 1000 ∷ 4 ∷ []
unfolding supplementary_groups
two_groups = refl

too_large : parse_uint (2 ^ 32) (codes "4294967296") ≡ none
unfolding parse_uint
too_large = refl

zsh :
    shell_for (some (codes "root:x:0:0::/root:/bin/sh\nann:x:1000:1000::/home/ann:/bin/zsh")) ann
    ≡ codes "/bin/zsh"
unfolding shell_for
zsh = refl

groups_exact_example :
    (has 4 (supplementary_groups (some group_file) ann 1000)
      ≡ (1000 == 4 || member_by_file ann 4 (some group_file)))
    × (occurrences 4 (supplementary_groups (some group_file) ann 1000) ≤ 1)
groups_exact_example = groups_exact (some group_file) ann 1000 4
