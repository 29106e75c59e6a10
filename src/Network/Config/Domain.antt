-- ===== src/Network/Config/Domain.antt =====
-- `validDomain` of server/internal/network/network.go.
use Prim.Native.String.{len}
use lumio_os.Prelude.{
  ℕ, String, Bool, true, false, ◌&&◌, ◌||◌, not, List, [], ◌∷◌, ltb, ◌==◌, str_eq,
}
use lumio_os.Prelude.Lists.{length}
use lumio_os.Prelude.Text.{split, codes, all_in, is_digit, is_lower, is_upper}

abbrev pub is_label_char : ℕ → Bool
is_label_char c = is_lower c || is_upper c || is_digit c || c == b'-'

-- label[0] and label[len(label)-1]
abbrev pub starts_with : ℕ → List ℕ → Bool
starts_with c [] = false
starts_with c (d ∷ cs) = d == c

abbrev pub ends_with : ℕ → List ℕ → Bool
ends_with c [] = false
ends_with c (d ∷ []) = d == c
ends_with c (d ∷ e ∷ cs) = ends_with c (e ∷ cs)

-- One round of the loop. `len(label)` counts bytes, and a label with any other than ASCII letters,
-- digits and dashes is refused, so the number of code points serves.
unfoldable pub valid_label : List ℕ → Bool
unfolding all_in
valid_label label =
    not
      (length label == 0 || ltb 63 (length label) || starts_with b'-' label || ends_with b'-' label)
    && all_in is_label_char label

unfoldable pub all_labels : List (List ℕ) → Bool
unfolding valid_label
all_labels [] = true
all_labels (label ∷ rest) = valid_label label && all_labels rest

unfoldable pub valid_domain : String → Bool
unfolding split all_labels
valid_domain value =
    let text = codes value in
    not (str_eq value "" || ltb 253 (len value) || starts_with b'.' text || ends_with b'.' text)
    && all_labels (split b'.' text)
