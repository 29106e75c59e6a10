-- ===== src/Terminal/Options.antt =====
-- How server/internal/terminal/terminal.go opens a terminal: the options, the shell, its environment.
mod Environment
use Prim.Native.String.{◌++◌, len}
use text.Mathlib.Text.{starts_with}
use lumio_os.Prelude.{
  ℕ, String, Bool, true, false, ◌&&◌, ◌||◌, not, Option, none, some, List, [], ◌∷◌, ltb, ◌==◌,
  if◌then◌else◌, str_eq,
}
use mathlib.Core.List as Core
use lumio_os.Terminal.Session.{Error, err_validation, max_dimension}

pub record OpenOptions : Type 0 where
  pub cols : ℕ
  pub rows : ℕ
  pub shell : String

-- user.Current
pub record User : Type 0 where
  pub home_dir : String
  pub username : String

-- What the agent sees of its system: an unset variable is empty; `is_executable` is that a path is
-- that of a file that is no directory and has an execute bit.
pub record System : Type 0 where
  pub getenv : String → String
  pub current_user : Option User
  pub is_abs : String → Bool
  pub is_executable : String → Bool

pub data Result {ℓ} (A : Type ℓ) : Type ℓ where
  ok : A → Result A
  err : Error → Result A

unfoldable pub resolve_shell : System → String → Result String
resolve_shell sys requested =
    if str_eq requested ""
    then ok (if str_eq (sys.getenv "SHELL") "" then "/bin/sh" else sys.getenv "SHELL")
    else if not (sys.is_abs requested) || not (sys.is_executable requested)
    then err err_validation
    else ok requested

abbrev or_default : ℕ → ℕ → ℕ
or_default default n = if n == 0 then default else n

-- The options that the shell is started with.
unfoldable pub check_open : System → OpenOptions → Result OpenOptions
unfolding resolve_shell
check_open sys opts =
    let cols = or_default 80 opts.cols in
    let rows = or_default 24 opts.rows in
    if ltb max_dimension cols || ltb max_dimension rows
    then err err_validation
    else elim (resolve_shell sys opts.shell) [
      | err e ↦ err e
      | ok shell ↦ ok record { cols = cols; rows = rows; shell = shell }
    ]

unfoldable pub has_env : List String → String → Bool
has_env [] key = false
has_env (e ∷ env) key =
    (ltb (len (key ++ "=")) (len e) && starts_with e (key ++ "=")) || has_env env key

abbrev fixed_env : String → List String
fixed_env shell =
    "TERM=xterm-256color"
    ∷ "COLORTERM=truecolor"
    ∷ ("SHELL=" ++ shell)
    ∷ "PATH=/usr/local/sbin:/usr/local/bin:/usr/sbin:/usr/bin:/sbin:/bin"
    ∷ "LANG=C.UTF-8"
    ∷ []

abbrev user_env : Option User → List String
user_env none = []
user_env (some u) =
    Core.◌++◌ (if str_eq u.home_dir "" then [] else ("HOME=" ++ u.home_dir) ∷ []) (
      if str_eq u.username ""
      then []
      else ("USER=" ++ u.username) ∷ ("LOGNAME=" ++ u.username) ∷ [])

unfoldable pub clean_env : System → String → List String
unfolding has_env
clean_env sys shell =
    let env = Core.◌++◌ (fixed_env shell) (user_env sys.current_user) in
    if not (str_eq (sys.getenv "HOME") "") && not (has_env env "HOME")
    then Core.◌++◌ env (("HOME=" ++ sys.getenv "HOME") ∷ [])
    else env

unfoldable pub home_dir : System → String
home_dir sys = elim sys.current_user [
  | none ↦ sys.getenv "HOME"
  | some u ↦ if str_eq u.home_dir "" then sys.getenv "HOME" else u.home_dir
]
