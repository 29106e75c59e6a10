-- ===== src/Journal/Query/Arguments.antt =====
-- What journalctl is asked with, once a query was validated.
use text.Mathlib.Text.{starts_with}
use lumio_os.Prelude.{
  ℕ, ◌≡◌, refl, String, Bool, true, false, ◌&&◌, ◌||◌, not, Option, none, some, List, [], ◌∷◌, ◌++◌,
  leb, ltb, ◌==◌, str_eq, if◌then◌else◌, Bool-cases, inl, inr, arith,
}
use lumio_os.Prelude.Int.{ℤ, pos, negsuc, below, above}
use lumio_os.Journal.Query.{
  Query, Library, validate, args, given, boot_args, end_args, effective_limit, format_since, one_of,
  priority_names, unit_name_pattern, max_limit, max_cursor_bytes,
}

abbrev flags : String → Bool
flags = one_of ("--output=json" ∷ "--no-pager" ∷ "--quiet" ∷ "--boot=0" ∷ "--boot=-1" ∷ "-f" ∷ [])

-- Arguments that are fixed options, and options with a value that was checked.
pub data Fit (lib : Library) : List String → Type 0 where
  done : Fit lib []
  flag : (f : String) {rest : List String} → flags f ≡ true → Fit lib rest → Fit lib (f ∷ rest)
  unit :
      (u : String) {rest : List String}
      → starts_with u "-" ≡ false
      → unit_name_pattern u ≡ true
      → Fit lib rest
      → Fit lib ("-u" ∷ u ∷ rest)
  priority :
      (p : String) {rest : List String}
      → priority_names p ≡ true
      → Fit lib rest
      → Fit lib ("-p" ∷ p ∷ rest)
  since :
      (t : String) {rest : List String}
      → lib.is_rfc3339 t ≡ true
      → Fit lib rest
      → Fit lib ("--since" ∷ lib.format_utc t ∷ rest)
  after :
      (c : String) {rest : List String}
      → starts_with c "-" ≡ false
      → ltb max_cursor_bytes (lib.byte_length c) ≡ false
      → Fit lib rest
      → Fit lib ("--after-cursor" ∷ c ∷ rest)
  nothing : {rest : List String} → Fit lib rest → Fit lib ("-n" ∷ "0" ∷ rest)
  lines :
      (n : ℕ) {rest : List String}
      → leb 1 n ≡ true
      → leb n max_limit ≡ true
      → Fit lib rest
      → Fit lib ("-n" ∷ lib.itoa n ∷ rest)

module _ (lib : Library) where
  -- What `Validate` has checked when it finds no error.
  record Checked (q : Query) : Type 0 where
    unit_ok :
        not (str_eq q.unit "") && (starts_with q.unit "-" || not (unit_name_pattern q.unit)) ≡ false
    priority_ok :
        not (str_eq q.priority "") && not (priority_names (lib.to_lower q.priority)) ≡ false
    since_ok : not (str_eq q.since "") && not (lib.is_rfc3339 q.since) ≡ false
    limit_ok : below q.limit 0 || above q.limit max_limit ≡ false
    after_ok :
        starts_with q.after_cursor "-" || ltb max_cursor_bytes (lib.byte_length q.after_cursor)
        ≡ false

  peel :
      (b : Bool) (message : String) (rest : Option String)
      → (if b then some message else rest) ≡ none
      → (b ≡ false) × (rest ≡ none)
  peel true message rest h = absurd (cc h)
  peel false message rest h = (refl, h)

  validate-Checked : (q : Query) → validate lib q ≡ none → Checked q
  unfolding validate
  validate-Checked q h =
      let (u, h1) = peel _ _ _ h in
      let (p, h2) = peel _ _ _ h1 in
      let (s, h3) = peel _ _ _ h2 in
      let (b, h4) = peel _ _ _ h3 in
      let (l, h5) = peel _ _ _ h4 in
      let (a, h6) = peel _ _ _ h5 in
      record { unit_ok = u; priority_ok = p; since_ok = s; limit_ok = l; after_ok = a }

  unit-Fit :
      (u : String) (rest : List String)
      → not (str_eq u "") && (starts_with u "-" || not (unit_name_pattern u)) ≡ false
      → Fit lib rest
      → Fit lib (given lib "-u" u u ++ rest)
  unit-Fit u rest h fit = elim (Bool-cases (str_eq u "")) [
    | inl e ↦ rw (e) fit
    | inr e ↦ rw (e) (unit u (ground arith) (ground arith) fit)
  ]

  priority-Fit :
      (p : String) (rest : List String)
      → not (str_eq p "") && not (priority_names (lib.to_lower p)) ≡ false
      → Fit lib rest
      → Fit lib (given lib "-p" p (lib.to_lower p) ++ rest)
  priority-Fit p rest h fit = elim (Bool-cases (str_eq p "")) [
    | inl e ↦ rw (e) fit
    | inr e ↦ rw (e) (priority (lib.to_lower p) (ground arith) fit)
  ]

  since-Fit :
      (t : String) (rest : List String)
      → not (str_eq t "") && not (lib.is_rfc3339 t) ≡ false
      → Fit lib rest
      → Fit lib (given lib "--since" t (format_since lib t) ++ rest)
  since-Fit t rest h fit = elim (Bool-cases (str_eq t "")) [
    | inl e ↦ rw (e) fit
    | inr e ↦
        let valid : lib.is_rfc3339 t ≡ true = ground arith in rw (e, valid) (since t valid fit)
  ]

  boot-Fit : (b : String) (rest : List String) → Fit lib rest → Fit lib (boot_args lib b ++ rest)
  boot-Fit b rest fit = elim (Bool-cases (str_eq b "current")) [
    | inl e ↦ rw (e) (flag "--boot=0" refl fit)
    | inr e ↦ elim (Bool-cases (str_eq b "previous")) [
      | inl f ↦ rw (e, f) (flag "--boot=-1" refl fit)
      | inr f ↦ rw (e, f) fit
    ]
  ]

  after-Fit :
      (c : String) (rest : List String)
      → starts_with c "-" || ltb max_cursor_bytes (lib.byte_length c) ≡ false
      → Fit lib rest
      → Fit lib (given lib "--after-cursor" c c ++ rest)
  after-Fit c rest h fit = elim (Bool-cases (str_eq c "")) [
    | inl e ↦ rw (e) fit
    | inr e ↦ rw (e) (after c (ground arith) (ground arith) fit)
  ]

  limit_bounds :
      (limit : ℤ)
      → below limit 0 || above limit max_limit ≡ false
      → (leb 1 (effective_limit lib limit) ≡ true)
        × (leb (effective_limit lib limit) max_limit ≡ true)
  limit_bounds (negsuc n) h = absurd (cc h)
  limit_bounds (pos n) h = elim (Bool-cases (n == 0)) [
    | inl e ↦ rw (e) (refl, refl)
    | inr e ↦ rw (e) (ground arith, ground arith)
  ]

  end-Fit :
      (follow : Bool) (limit : ℤ)
      → below limit 0 || above limit max_limit ≡ false
      → Fit lib (end_args lib follow limit)
  end-Fit true limit h = flag "-f" refl (nothing done)
  end-Fit false limit h =
      let (low, high) = limit_bounds limit h in lines (effective_limit lib limit) low high done

  -- The arguments of a query without an error are such.
  pub args-Fit : (q : Query) (follow : Bool) → validate lib q ≡ none → Fit lib (args lib q follow)
  unfolding args
  args-Fit q follow h =
      let c = validate-Checked q h in
      flag "--output=json" refl (
        flag "--no-pager" refl (
          flag "--quiet" refl (
            unit-Fit q.unit _ c.unit_ok (
              priority-Fit q.priority _ c.priority_ok (
                since-Fit q.since _ c.since_ok (
                  boot-Fit q.boot _ (
                    after-Fit q.after_cursor _ c.after_ok (end-Fit follow q.limit c.limit_ok))))))))
