-- ===== src/Journal/Entry/Bounds.antt =====
-- server/internal/journal/parse.go: what holds of every entry.
use text.Mathlib.Text.{starts_with}
use lumio_os.Prelude.{
  ℕ, ◌≤◌, ◌≡◌, String, true, false, Option, none, some, List, [], ◌∷◌, leb, ltb, str_eq, string_eq,
  Bool-cases, inl, inr, arith,
}
use lumio_os.Prelude.Lists.{length, length-take}
use lumio_os.Prelude.Map.{insert}
use lumio_os.Journal.Entry.{
  Bytes, Entry, Value, Codec, max_message_bytes, max_field_bytes, truncate_string, truncate_fields,
  finish_entry, add_value, add_values, keep_field, parse_raw, parse_line, empty_entry,
  value_to_string,
}

-- No key starts with "__".
pub data Public : List (String × Bytes) → Type 0 where
  none_left : Public []
  public_key :
      (key : String) (value : Bytes) {fields : List (String × Bytes)}
      → starts_with key "__" ≡ false
      → Public fields
      → Public ((key, value) ∷ fields)

-- No value is longer than 4 KiB.
pub data Short : List (String × Bytes) → Type 0 where
  none_long : Short []
  short_value :
      (key : String) (value : Bytes) {fields : List (String × Bytes)}
      → length value ≤ max_field_bytes
      → Short fields
      → Short ((key, value) ∷ fields)

abbrev pub Bounded : Entry → Type 0
Bounded e =
    (ltb 0 (length e.cursor) ≡ true)
    × (length e.message ≤ max_message_bytes)
    × Public e.fields
    × Short e.fields

abbrev pub OnSome : Option Entry → Type 0
OnSome none = Unit {0}
OnSome (some e) = Bounded e

length-truncate_string : (max : ℕ) (s : Bytes) → length (truncate_string max s) ≤ max
length-truncate_string max s = elim (Bool-cases (leb (length s) max)) [
  | inl e ↦ rw (e) (let h : length s ≤ max = ground arith in h)
  | inr e ↦ rw (e) (length-take max s)
]

truncate_fields-Short : (fields : List (String × Bytes)) → Short (truncate_fields fields)
truncate_fields-Short [] = none_long
truncate_fields-Short ((key, value) ∷ fields) =
    short_value key (truncate_string max_field_bytes value)
      (length-truncate_string max_field_bytes value) (truncate_fields-Short fields)

truncate_fields-Public :
    (fields : List (String × Bytes)) → Public fields → Public (truncate_fields fields)
truncate_fields-Public [] h = none_left
truncate_fields-Public ((key, value) ∷ fields) (public_key _ _ p h) =
    public_key key (truncate_string max_field_bytes value) p (truncate_fields-Public fields h)

insert-Public :
    (key : String) (value : Bytes) (fields : List (String × Bytes))
    → starts_with key "__" ≡ false
    → Public fields
    → Public (insert key value fields)
unfolding insert
insert-Public key value [] p none_left = public_key key value p none_left
insert-Public key value ((k, v) ∷ fields) p (public_key _ _ q h) =
    elim (Bool-cases (str_eq k key)) [
      | inl e ↦ rw (e) (public_key key value p h)
      | inr e ↦ rw (e) (public_key k v q (insert-Public key value fields p h))
    ]

module _ (codec : Codec) where
  keep_field-Public :
      (key : String) (s : Option Bytes) (e : Entry)
      → starts_with key "__" ≡ false
      → Public e.fields
      → Public (keep_field codec key s e).fields
  keep_field-Public key none e p h = h
  keep_field-Public key (some s) e p h = insert-Public key s e.fields p h

  add_value-Public :
      (key : String) (value : Value) (e : Entry)
      → Public e.fields
      → Public (add_value codec key value e).fields
  unfolding add_value
  add_value-Public key value e h = elim (Bool-cases (str_eq key "__CURSOR")) [
    | inl a ↦ rw (a) h
    | inr a ↦ elim (Bool-cases (str_eq key "__REALTIME_TIMESTAMP")) [
      | inl b ↦ rw (a, b) h
      | inr b ↦ elim (Bool-cases (str_eq key "PRIORITY")) [
        | inl c ↦ rw (a, b, c) h
        | inr c ↦ elim (Bool-cases (str_eq key "_SYSTEMD_UNIT")) [
          | inl d ↦ rw (a, b, c, d) h
          | inr d ↦ elim (Bool-cases (str_eq key "MESSAGE")) [
            | inl f ↦ rw (a, b, c, d, f) h
            | inr f ↦ elim (Bool-cases (starts_with key "__")) [
              | inl g ↦ rw (a, b, c, d, f, g) h
              | inr g ↦
                  rw (a, b, c, d, f, g) (keep_field-Public key (value_to_string codec value) e g h)
            ]
          ]
        ]
      ]
    ]
  ]

  add_values-Public :
      (raw : List (String × Value)) (e : Entry)
      → Public e.fields
      → Public (add_values codec raw e).fields
  unfolding add_values
  add_values-Public [] e h = h
  add_values-Public ((key, value) ∷ raw) e h =
      add_values-Public raw (add_value codec key value e) (add_value-Public key value e h)

  finish_entry-Bounded : (e : Entry) → Public e.fields → OnSome (finish_entry e)
  finish_entry-Bounded e h = elim (Bool-cases (leb (length e.cursor) 0)) [
    | inl empty ↦ rw (empty) tt
    | inr given ↦ rw (given) (
      ground arith,
      length-truncate_string max_message_bytes e.message,
      truncate_fields-Public e.fields h,
      truncate_fields-Short e.fields,
    )
  ]

  parse_raw-Bounded : (raw : Option (List (String × Value))) → OnSome (parse_raw codec raw)
  parse_raw-Bounded none = tt
  parse_raw-Bounded (some raw) =
      finish_entry-Bounded (add_values codec raw empty_entry)
        (add_values-Public raw empty_entry none_left)

  pub parse_line-Bounded : (line : Bytes) → OnSome (parse_line codec line)
  unfolding parse_line
  parse_line-Bounded [] = tt
  parse_line-Bounded (c ∷ line) = parse_raw-Bounded (codec.unmarshal (c ∷ line))
