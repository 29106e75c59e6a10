-- ===== src/Files/Privileged/Modes.antt =====
-- The modes that a request for a protected file can set: server/internal/privfiles/privfiles.go after
-- the pattern of server/internal/broker/broker.go.
use lumio_os.Prelude.{
  ℕ, ◌+◌, ◌*◌, ◌-◌, ◌≡◌, refl, ap, ◌∙◌, true, false, none, some, List, [], ◌∷◌, ltb, leb,
  if◌then◌else◌, arith, Bool-cases, inl, inr,
}
use lumio_os.Broker.Request.{mode_pattern}
use lumio_os.Files.Privileged.{
  octal_digit, push_digit, octal_from, parse_octal, requested_mode, accept_mode, owner_reads,
  broadest,
}

-- The text 0ugo.
abbrev digits : ℕ → ℕ → ℕ → List ℕ
digits u g o = b'0' ∷ (b'0' + u) ∷ (b'0' + g) ∷ (b'0' + o) ∷ []

octal_digit_lem : (d : ℕ) → ltb 6 d ≡ false → octal_digit (b'0' + d) ≡ some d
octal_digit_lem d h =
    let low : leb b'0' (b'0' + d) ≡ true = ground arith in
    let high : leb (b'0' + d) b'7' ≡ true = ground arith in
    let back : b'0' + d - b'0' ≡ d = omega arith in rw (low, high, back) refl

octal_step :
    (n d : ℕ) (cs : List ℕ)
    → ltb 6 d ≡ false
    → octal_from (some n) ((b'0' + d) ∷ cs) ≡ octal_from (some (n * 8 + d)) cs
unfolding octal_from
octal_step n d cs h = ap (λ r. octal_from (push_digit n r) cs) (octal_digit_lem d h)

pattern_bounds :
    (u g o : ℕ)
    → mode_pattern (digits u g o) ≡ true
    → (ltb 6 u ≡ false) × (ltb 4 g ≡ false) × (ltb 4 o ≡ false)
unfolding mode_pattern
pattern_bounds u g o h = (ground arith, ground arith, ground arith)

parse_digits :
    (u g o : ℕ)
    → ltb 6 u ≡ false
    → ltb 4 g ≡ false
    → ltb 4 o ≡ false
    → parse_octal (digits u g o) ≡ some ((((0 * 8 + 0) * 8 + u) * 8 + g) * 8 + o)
unfolding parse_octal octal_from
parse_digits u g o hu hg ho =
    octal_step 0 0 ((b'0' + u) ∷ (b'0' + g) ∷ (b'0' + o) ∷ []) refl
    ∙ octal_step (0 * 8 + 0) u ((b'0' + g) ∷ (b'0' + o) ∷ []) hu
    ∙ octal_step ((0 * 8 + 0) * 8 + u) g ((b'0' + o) ∷ []) (ground arith)
    ∙ octal_step (((0 * 8 + 0) * 8 + u) * 8 + g) o [] (ground arith)

-- 4 ≤ u says that the owner may read.
accept_value :
    (u g o : ℕ)
    → ltb 6 u ≡ false
    → ltb 4 g ≡ false
    → ltb 4 o ≡ false
    → accept_mode (some ((((0 * 8 + 0) * 8 + u) * 8 + g) * 8 + o))
      ≡ (if leb 4 u then some (u * 64 + g * 8 + o) else none)
accept_value u g o hu hg ho =
    let shape : (((0 * 8 + 0) * 8 + u) * 8 + g) * 8 + o ≡ u * 64 + g * 8 + o = omega arith in
    elim (Bool-cases (leb 4 u)) [
      | inl reads ↦
          let narrow : ltb broadest (u * 64 + g * 8 + o) ≡ false = ground arith in
          let owner : owner_reads (u * 64 + g * 8 + o) ≡ true = ground arith in
          rw (shape, narrow, owner, reads) refl
      | inr hidden ↦
          let narrow : ltb broadest (u * 64 + g * 8 + o) ≡ false = ground arith in
          let owner : owner_reads (u * 64 + g * 8 + o) ≡ false = ground arith in
          rw (shape, narrow, owner, hidden) refl
    ]

-- A mode 0ugo that the broker's pattern lets through is accepted by the writer exactly when u is at least
-- 4, as the number it denotes: only the owner's read bit is looked at, so modes that let others execute or
-- write are accepted too.
pub accepted_modes :
    (u g o : ℕ)
    → mode_pattern (digits u g o) ≡ true
    → requested_mode (digits u g o) ≡ (if leb 4 u then some (u * 64 + g * 8 + o) else none)
unfolding requested_mode
accepted_modes u g o h =
    let (hu, hg, ho) = pattern_bounds u g o h in
    rw (parse_digits u g o hu hg ho) (accept_value u g o hu hg ho)
