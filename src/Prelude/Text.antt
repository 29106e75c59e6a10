-- ===== src/Prelude/Text.antt =====
-- Text by its code points, and the character classes of the program's regular expressions.
use Prim.Native.Char.{code}
use Prim.Native.String.{String}
use Prim.Native.Nat.{ℕ}
use mathlib.Core.Bool.{Bool, true, ◌&&◌, ◌||◌}
use mathlib.Core.List.{List, [], ◌∷◌}
use Prim.Native.Nat.{◌-◌}
use mathlib.Core.Bool.{false}
use mathlib.Core.Option.{Option, none, some}
use mathlib.Core.Path.{◌≡◌, refl}
use mathlib.Core.Logic.{◌↔◌}
use native.Mathlib.Omega.{arith}
use Prim.Native.Nat.{◌+◌, ◌*◌}
use lumio_os.Prelude.Tests.{Eq, ltb, leb, ◌==◌, if◌then◌else◌}
use lumio_os.Prelude.Lists.{length, drop}

abbrev pub codes : String → List ℕ
codes String.[] = []
codes (String.◌∷◌ c s) = code c ∷ codes s

-- `^[class]*$`
unfoldable pub all_in : (ℕ → Bool) → List ℕ → Bool
all_in p [] = true
all_in p (c ∷ cs) = p c && all_in p cs

abbrev pub is_digit : ℕ → Bool
is_digit c = leb b'0' c && leb c b'9'

abbrev pub is_lower : ℕ → Bool
is_lower c = leb b'a' c && leb c b'z'

abbrev pub is_upper : ℕ → Bool
is_upper c = leb b'A' c && leb c b'Z'

-- [a-f0-9]
abbrev pub is_lower_hex : ℕ → Bool
is_lower_hex c = (leb b'a' c && leb c b'f') || is_digit c

abbrev pub same_codes : List ℕ → List ℕ → Bool
same_codes [] [] = true
same_codes (a ∷ xs) (b ∷ ys) = a == b && same_codes xs ys
same_codes _ _ = false

-- strings.HasSuffix
unfoldable pub ends_with : List ℕ → List ℕ → Bool
ends_with suffix text =
    leb (length suffix) (length text) && same_codes (drop (length text - length suffix) text) suffix

-- strings.Split(value, sep) for a separator of one byte.
abbrev push : ℕ → List (List ℕ) → List (List ℕ)
push c [] = (c ∷ []) ∷ []
push c (label ∷ rest) = (c ∷ label) ∷ rest

unfoldable pub split : ℕ → List ℕ → List (List ℕ)
split sep [] = [] ∷ []
split sep (c ∷ cs) = let rest = split sep cs in if c == sep then [] ∷ rest else push c rest

-- strconv.ParseUint(text, 10, w), for 2 ^ w
abbrev digits : ℕ → List ℕ → Option ℕ
digits n [] = some n
digits n (c ∷ cs) = let rest = digits (n * 10 + (c - b'0')) cs in if is_digit c then rest else none

abbrev in_range : ℕ → Option ℕ → Option ℕ
in_range limit none = none
in_range limit (some n) = if ltb n limit then some n else none

unfoldable pub parse_uint : ℕ → List ℕ → Option ℕ
parse_uint limit [] = none
parse_uint limit (c ∷ cs) = in_range limit (digits 0 (c ∷ cs))

-- unicode.IsSpace
abbrev pub is_space : ℕ → Bool
is_space c =
    (leb 9 c && leb c 13)
    || c == 32
    || c == 0x85
    || c == 0xa0
    || c == 0x1680
    || (leb 0x2000 c && leb c 0x200a)
    || c == 0x2028
    || c == 0x2029
    || c == 0x202f
    || c == 0x205f
    || c == 0x3000

abbrev pieces : List ℕ → List (List ℕ)
pieces [] = [] ∷ []
pieces (c ∷ cs) = let rest = pieces cs in if is_space c then [] ∷ rest else push c rest

abbrev no_empty : List (List ℕ) → List (List ℕ)
no_empty [] = []
no_empty ([] ∷ rest) = no_empty rest
no_empty ((c ∷ cs) ∷ rest) = (c ∷ cs) ∷ no_empty rest

-- strings.Fields
unfoldable pub words : List ℕ → List (List ℕ)
words text = no_empty (pieces text)

abbrev trim_right : List ℕ → List ℕ
trim_right [] = []
trim_right (c ∷ cs) =
    let rest = trim_right cs in
    elim rest [ [] ↦ (if is_space c then [] else c ∷ []) | d ∷ ds ↦ c ∷ d ∷ ds ]

abbrev trim_left : List ℕ → List ℕ
trim_left [] = []
trim_left (c ∷ cs) = let rest = trim_left cs in if is_space c then rest else c ∷ cs

-- strings.TrimSpace
unfoldable pub trim : List ℕ → List ℕ
trim text = trim_left (trim_right text)

abbrev after_head : ℕ → Option (List ℕ × List ℕ) → Option (List ℕ × List ℕ)
after_head c none = none
after_head c (some (before, after)) = some (c ∷ before, after)

-- strings.Cut, for a separator of one byte
unfoldable pub cut : ℕ → List ℕ → Option (List ℕ × List ℕ)
cut sep [] = none
cut sep (c ∷ cs) = let rest = cut sep cs in if c == sep then some ([], cs) else after_head c rest

-- strings.HasPrefix
unfoldable pub has_prefix : List ℕ → List ℕ → Bool
has_prefix [] text = true
has_prefix (c ∷ cs) [] = false
has_prefix (c ∷ cs) (d ∷ ds) = c == d && has_prefix cs ds

pub same_codes_iff : (xs ys : List ℕ) → (same_codes xs ys ≡ true) ↔ (xs ≡ ys)
same_codes_iff xs ys = (to xs ys, from xs ys)
  where
    to : (xs ys : List ℕ) → same_codes xs ys ≡ true → xs ≡ ys
    to [] [] h = refl
    to [] (y ∷ ys) h = absurd (cc h)
    to (x ∷ xs) [] h = absurd (cc h)
    to (x ∷ xs) (y ∷ ys) h = ground (arith, to xs ys)

    same : (xs : List ℕ) → same_codes xs xs ≡ true
    same [] = refl
    same (x ∷ xs) = ground (arith, same xs)

    from : (xs ys : List ℕ) → xs ≡ ys → same_codes xs ys ≡ true
    from xs ys e = rw (← e) (same xs)

instance abbrev pub codes_eq : Eq (List ℕ)
codes_eq = record { beq = same_codes; beq_iff = same_codes_iff }
