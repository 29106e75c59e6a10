-- ===== src/Journal/Cli.antt =====
-- server/internal/journal/cli.go: queries by journalctl, whose output is a parameter.
pub mod Pages
use text.Mathlib.Text.{find?}
use lumio_os.Prelude.{
  String, Bool, true, false, ◌&&◌, ◌||◌, not, Option, none, some, List, [], ◌∷◌, str_eq,
  if◌then◌else◌, ◌⊎◌, inl, inr,
}
use lumio_os.Journal.Query.{Query, Library, validate, args}
use lumio_os.Journal.Entry.{Bytes, Entry, Codec, parse_line}

pub data Error : Type 0 where
  err_unavailable : Error
  err_validation : String → Error
  journalctl_failed : String → Error
  unreadable_output : Error

pub record Result : Type 0 where
  pub entries : List Entry
  pub next_cursor : Bytes

-- What a run of journalctl ends with: lines, and whether the scanner could read them all, or the trimmed
-- error text.
pub data Output : Type 0 where
  printed : List Bytes → Bool → Output
  failed : String → Output

abbrev pub Answer : Type 0 → Type 0
Answer A = Error ⊎ A

abbrev contains : String → String → Bool
contains text part = elim (find? text part) [ none ↦ false | some i ↦ true ]

unfoldable pub previous_boot_unavailable : String → Bool
previous_boot_unavailable stderr =
    contains stderr "specified boot" || contains stderr "No such boot ID"

unfoldable pub cli_error : String → Error
cli_error stderr =
    if contains stderr "cursor" then err_validation stderr else journalctl_failed stderr

abbrev pub last_cursor : List Entry → Bytes
last_cursor [] = []
last_cursor (e ∷ []) = e.cursor
last_cursor (e ∷ f ∷ es) = last_cursor (f ∷ es)

abbrev add_entry : Option Entry → List Entry → List Entry
add_entry none es = es
add_entry (some e) es = e ∷ es

module _ (codec : Codec) where
  -- The lines that are entries.
  unfoldable pub parse_lines : List Bytes → List Entry
  unfolding parse_line
  parse_lines [] = []
  parse_lines (line ∷ lines) = add_entry (parse_line codec line) (parse_lines lines)

  abbrev pub page : List Entry → Result
  page es = record { entries = es; next_cursor = last_cursor es }

  abbrev pub read_output : Query → Output → Answer Result
  read_output q (printed lines true) = inr (page (parse_lines lines))
  read_output q (printed lines false) = inl unreadable_output
  read_output q (failed stderr) =
      if str_eq q.boot "previous" && previous_boot_unavailable stderr
      then inr record { entries = []; next_cursor = [] }
      else inl (cli_error stderr)

  -- The loop of `Follow`: the entries that are emitted, until one is not wanted.
  unfoldable pub follow_lines {ℓ} : {S : Type ℓ} → (Entry → S → Bool × S) → List Bytes → S → S
  unfolding parse_line
  follow_lines emit [] s = s
  follow_lines emit (line ∷ lines) s = elim (parse_line codec line) [
    | none ↦ follow_lines emit lines s
    | some e ↦
        let (wanted, s') = emit e s in
        elim wanted [ true ↦ follow_lines emit lines s' | false ↦ s' ]
  ]

module _ (lib : Library) (codec : Codec) (journalctl : List String → Output) where
  abbrev pub answered : Query → Option String → Answer Result
  answered q (some message) = inl (err_validation message)
  answered q none = read_output codec q (journalctl (args lib q false))

  unfoldable pub query : Bool → Query → Answer Result
  unfolding validate args parse_lines previous_boot_unavailable cli_error
  query available q = if not available then inl err_unavailable else elim (validate lib q) [
    | some message ↦ inl (err_validation message)
    | none ↦ read_output codec q (journalctl (args lib q false))
  ]
