-- ===== src/Journal/Entry.antt =====
-- server/internal/journal/parse.go: one line of journalctl. Texts are bytes.
pub mod Bounds
use text.Mathlib.Text.{starts_with}
use lumio_os.Prelude.{
  ℕ, String, Bool, true, false, ◌&&◌, Option, none, some, List, [], ◌∷◌, leb, ◌==◌, str_eq,
  string_eq, if◌then◌else◌,
}
use lumio_os.Prelude.Int.{ℤ, pos, negsuc}
use lumio_os.Prelude.Lists.{length, take}
use lumio_os.Prelude.Text.{codes}
use lumio_os.Prelude.Map.{insert}

abbrev pub Bytes : Type 0
Bytes = List ℕ

abbrev pub max_message_bytes : ℕ
max_message_bytes = 16384

abbrev pub max_field_bytes : ℕ
max_field_bytes = 4096

pub record Entry : Type 0 where
  pub cursor : Bytes
  pub ts : Bytes
  pub priority : Bytes
  pub unit : Bytes
  pub message : Bytes
  pub fields : List (String × Bytes)

-- A JSON value as `valueToString` sees it: what decodes as a text (`null` as the empty one), what
-- decodes as whole numbers, and anything else.
pub data Value : Type 0 where
  plain : Bytes → Value
  numbers : List ℤ → Value
  other : Value

-- encoding/json on a trimmed line, which must be an object, unicode/utf8, and the printing of
-- microseconds as a time.
pub record Codec : Type 0 where
  pub unmarshal : Bytes → Option (List (String × Value))
  pub valid : Bytes → Bool
  pub format_time : Bytes → Bytes

abbrev pub truncate_string : ℕ → Bytes → Bytes
truncate_string max s = if leb (length s) max then s else take max s

-- 0 is b'0'
unfoldable pub priority_name : Bytes → Bytes
priority_name (c ∷ []) =
    if c == b'0'
    then codes "emerg"
    else if c == b'1'
    then codes "alert"
    else if c == b'2'
    then codes "crit"
    else if c == b'3'
    then codes "err"
    else if c == b'4'
    then codes "warning"
    else if c == b'5'
    then codes "notice"
    else if c == b'6'
    then codes "info"
    else if c == b'7'
    then codes "debug"
    else c ∷ []
priority_name code = code

abbrev prepend : ℤ → Option Bytes → Option Bytes
prepend (pos b) (some bytes) = if leb b 255 then some (b ∷ bytes) else none
prepend b rest = none

unfoldable pub to_bytes : List ℤ → Option Bytes
to_bytes [] = some []
to_bytes (b ∷ bs) = prepend b (to_bytes bs)

abbrev or_empty : Option Bytes → Bytes
or_empty none = []
or_empty (some s) = s

abbrev empty_entry : Entry
empty_entry = record { cursor = []; ts = []; priority = []; unit = []; message = []; fields = [] }

-- The `for` over the fields after the message.
abbrev pub truncate_fields : List (String × Bytes) → List (String × Bytes)
truncate_fields [] = []
truncate_fields ((key, value) ∷ fields) =
    (key, truncate_string max_field_bytes value) ∷ truncate_fields fields

-- The end of `parseLine`: no entry is without a cursor.
abbrev pub finish_entry : Entry → Option Entry
finish_entry e =
    if leb (length e.cursor) 0
    then none
    else some record e {
      message = truncate_string max_message_bytes e.message;
      fields = truncate_fields e.fields;
    }

module _ (codec : Codec) where
  abbrev check_utf8 : Option Bytes → Option Bytes
  check_utf8 none = none
  check_utf8 (some s) = if codec.valid s then some s else none

  unfoldable pub value_to_string : Value → Option Bytes
  unfolding to_bytes
  value_to_string (plain s) = some s
  value_to_string (numbers bs) = check_utf8 (to_bytes bs)
  value_to_string other = none

  abbrev keep_field : String → Option Bytes → Entry → Entry
  keep_field key none e = e
  keep_field key (some s) e = record e { fields = insert key s e.fields }

  -- The `switch` on a key.
  unfoldable pub add_value : String → Value → Entry → Entry
  unfolding value_to_string priority_name
  add_value key value e =
      let s = value_to_string value in
      if str_eq key "__CURSOR"
      then record e { cursor = or_empty s }
      else if str_eq key "__REALTIME_TIMESTAMP"
      then record e { ts = codec.format_time (or_empty s) }
      else if str_eq key "PRIORITY"
      then record e { priority = priority_name (or_empty s) }
      else if str_eq key "_SYSTEMD_UNIT"
      then record e { unit = or_empty s }
      else if str_eq key "MESSAGE"
      then record e { message = or_empty s }
      else if starts_with key "__"
      then e
      else keep_field key s e

  unfoldable pub add_values : List (String × Value) → Entry → Entry
  unfolding add_value
  add_values [] e = e
  add_values ((key, value) ∷ raw) e = add_values raw (add_value key value e)

  abbrev pub parse_raw : Option (List (String × Value)) → Option Entry
  parse_raw none = none
  parse_raw (some raw) = finish_entry (add_values raw empty_entry)

  unfoldable pub parse_line : Bytes → Option Entry
  unfolding add_values
  parse_line [] = none
  parse_line line = parse_raw (codec.unmarshal line)
