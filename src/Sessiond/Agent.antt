-- ===== src/Sessiond/Agent.antt =====
-- server/internal/sessiond/agent.go: how the agent of a user is started.
-- Files are the code points of their text, `none` if they cannot be read.
pub mod Groups
mod Examples
use lumio_os.Prelude.{
  ℕ, zero, suc, ◌+◌, ◌-◌, ◌*◌, ◌^◌, String, Bool, true, false, ◌&&◌, ◌||◌, not, Option, none, some,
  List, [], ◌∷◌, ◌++◌, ltb, if◌then◌else◌, ◌==◌,
}
use lumio_os.Prelude.Text.{parse_uint, split, same_codes, is_digit}

-- seen[gid]: what is seen are the groups found so far.
unfoldable pub has : ℕ → List ℕ → Bool
has gid [] = false
has gid (g ∷ groups) = g == gid || has gid groups

abbrev pub add_group : Option ℕ → List ℕ → List ℕ
add_group none groups = groups
add_group (some gid) groups = if has gid groups then groups else groups ++ gid ∷ []

-- The inner loop, over the members of a group.
unfoldable pub add_members : List ℕ → Option ℕ → List (List ℕ) → List ℕ → List ℕ
unfolding has
add_members username gid [] groups = groups
add_members username gid (member ∷ members) groups =
    add_members username gid members
      (if same_codes member username then add_group gid groups else groups)

-- One line of /etc/group.
unfoldable pub add_line : List ℕ → List (List ℕ) → List ℕ → List ℕ
unfolding add_members parse_uint split
add_line username (_ ∷ _ ∷ gid ∷ members ∷ _) groups =
    add_members username (parse_uint (2 ^ 32) gid) (split b',' members) groups
add_line username _ groups = groups

unfoldable pub add_lines : List ℕ → List (List ℕ) → List ℕ → List ℕ
unfolding add_line split
add_lines username [] groups = groups
add_lines username (line ∷ lines) groups =
    add_lines username lines (add_line username (split b':' line) groups)

unfoldable pub supplementary_groups : Option (List ℕ) → List ℕ → ℕ → List ℕ
unfolding add_lines split
supplementary_groups none username primary = primary ∷ []
supplementary_groups (some file) username primary =
    add_lines username (split 10 file) (primary ∷ [])

-- The shell of a line of /etc/passwd, if it is the user's and not empty.
unfoldable pub shell_of : List ℕ → List (List ℕ) → Option (List ℕ)
shell_of username (name ∷ _ ∷ _ ∷ _ ∷ _ ∷ _ ∷ shell ∷ _) =
    if same_codes name username && not (same_codes shell []) then some shell else none
shell_of username _ = none

abbrev pub bin_sh : List ℕ
bin_sh = b'/' ∷ b'b' ∷ b'i' ∷ b'n' ∷ b'/' ∷ b's' ∷ b'h' ∷ []

unfoldable pub find_shell : List ℕ → List (List ℕ) → List ℕ
unfolding shell_of split
find_shell username [] = bin_sh
find_shell username (line ∷ lines) =
    let rest = find_shell username lines in
    elim (shell_of username (split b':' line)) [ some shell ↦ shell | none ↦ rest ]

unfoldable pub shell_for : Option (List ℕ) → List ℕ → List ℕ
unfolding find_shell split
shell_for none username = bin_sh
shell_for (some file) username = find_shell username (split 10 file)
