-- ===== src/Journal/Query.antt =====
-- server/internal/journal/journal.go, and the arguments that cli.go makes of a query.
pub mod Arguments
use text.Mathlib.Text.{starts_with}
use lumio_os.Prelude.{
  ℕ, String, Bool, true, false, ◌&&◌, ◌||◌, not, Option, none, some, List, [], ◌∷◌, ◌++◌, leb, ltb,
  ◌==◌, str_eq, if◌then◌else◌,
}
use lumio_os.Prelude.Int.{ℤ, pos, negsuc, below, above}
use lumio_os.Prelude.Text.{codes, all_in, is_digit, is_lower, is_upper}

abbrev pub default_limit : ℕ
default_limit = 200

abbrev pub max_limit : ℕ
max_limit = 1000

abbrev pub max_cursor_bytes : ℕ
max_cursor_bytes = 8192

pub record Query : Type 0 where
  pub unit : String
  pub priority : String
  pub since : String
  pub boot : String
  pub limit : ℤ
  pub after_cursor : String

-- strings.ToLower, time.Parse with RFC 3339, its printing in UTC, strconv.Itoa, and the length in bytes.
pub record Library : Type 0 where
  pub to_lower : String → String
  pub is_rfc3339 : String → Bool
  pub format_utc : String → String
  pub itoa : ℕ → String
  pub byte_length : String → ℕ

abbrev pub one_of : List String → String → Bool
one_of [] name = false
one_of (n ∷ names) name = str_eq name n || one_of names name

unfoldable pub priority_names : String → Bool
priority_names = one_of (
    "emerg" ∷ "alert" ∷ "crit" ∷ "err" ∷ "warning" ∷ "notice" ∷ "info" ∷ "debug" ∷ "0" ∷ "1" ∷ "2"
    ∷ "3" ∷ "4" ∷ "5" ∷ "6" ∷ "7" ∷ [])

-- ^[A-Za-z0-9:_.@-]+$
abbrev is_unit_char : ℕ → Bool
is_unit_char c =
    is_upper c
    || is_lower c
    || is_digit c
    || c == b':'
    || c == b'_'
    || c == b'.'
    || c == b'@'
    || c == b'-'

unfoldable pub unit_name_pattern : String → Bool
unfolding all_in
unit_name_pattern unit = not (str_eq unit "") && all_in is_unit_char (codes unit)

module _ (lib : Library) where
  -- The message of the error, if there is one.
  unfoldable pub validate : Query → Option String
  validate q =
      if not (str_eq q.unit "") && (starts_with q.unit "-" || not (unit_name_pattern q.unit))
      then some "unit contains invalid characters"
      else if not (str_eq q.priority "") && not (priority_names (lib.to_lower q.priority))
      then some "unknown priority"
      else if not (str_eq q.since "") && not (lib.is_rfc3339 q.since)
      then some "since must be an RFC 3339 timestamp"
      else if not (str_eq q.boot "")
          && not (str_eq q.boot "current")
          && not (str_eq q.boot "previous")
      then some "boot must be current or previous"
      else if below q.limit 0 || above q.limit max_limit
      then some "limit must be between 0 and 1000"
      else if starts_with q.after_cursor "-"
          || ltb max_cursor_bytes (lib.byte_length q.after_cursor)
      then some "invalid cursor"
      else none

  -- `Query.limit`
  abbrev pub effective_limit : ℤ → ℕ
  effective_limit (pos n) = if n == 0 then default_limit else n
  effective_limit (negsuc n) = default_limit

  abbrev pub format_since : String → String
  format_since since = if lib.is_rfc3339 since then lib.format_utc since else since

  -- An option and its value, when the value is given.
  abbrev pub given : String → String → String → List String
  given option value text = if str_eq value "" then [] else option ∷ text ∷ []

  abbrev pub boot_args : String → List String
  boot_args boot =
      if str_eq boot "current"
      then "--boot=0" ∷ []
      else if str_eq boot "previous"
      then "--boot=-1" ∷ []
      else []

  abbrev pub end_args : Bool → ℤ → List String
  end_args true limit = "-f" ∷ "-n" ∷ "0" ∷ []
  end_args false limit = "-n" ∷ lib.itoa (effective_limit limit) ∷ []

  unfoldable pub args : Query → Bool → List String
  args q follow =
      "--output=json"
      ∷ "--no-pager"
      ∷ "--quiet"
      ∷ (given "-u" q.unit q.unit
          ++ (given "-p" q.priority (lib.to_lower q.priority)
              ++ (given "--since" q.since (format_since q.since)
                  ++ (boot_args q.boot
                      ++ (given "--after-cursor" q.after_cursor q.after_cursor
                          ++ end_args follow q.limit)))))
