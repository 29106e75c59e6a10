-- ===== src/Files/Privileged.antt =====
-- server/internal/privfiles/privfiles.go: writing a protected file, with a copy to go back to.
pub mod Modes
pub mod Replace
pub mod Safe
mod Examples
use Prim.Native.String.{◌++◌, len}
use text.Mathlib.Text.{starts_with, find?}
use lumio_os.Prelude.{
  ℕ, ◌+◌, ◌*◌, ◌/◌, ◌%◌, ◌-◌, String, Bool, true, false, ◌&&◌, ◌||◌, not, Option, none, some, List,
  [], ◌∷◌, ltb, leb, ◌==◌, if◌then◌else◌, str_eq,
}
use lumio_os.Prelude.Action.{Action, Result, ok, err, ◌>>=◌, ◌>>◌, next, pure, fail, lift, guard}
use lumio_os.Prelude.Lists.{length, drop}
use lumio_os.Prelude.Text.{codes, all_in, is_digit, is_lower_hex, ends_with}
use lumio_os.Files.System.{
  Bytes, Error, err_validation, stale_error, system_error, Info, Call, chmoded, chowned, closed,
  synced, wrote, made_dir, checked, kept, replaced, State, System, M, call, read, create_temp,
  with_removal, or_close, sync_dir,
}

abbrev pub max_write_bytes : ℕ
max_write_bytes = 1048576

pub record Validation : Type 0 where
  pub kind : String
  pub is_checked : Bool

pub record WriteResult : Type 0 where
  pub path : String
  pub revision : String
  pub size_bytes : ℕ
  pub rollback_ref : String
  pub validation : Validation

-- What else the writer uses: the JSON parser, the commands that check configuration files (whether one
-- is installed, and the end of what it prints on a candidate that it refuses), and the hash of a
-- request id with a random suffix.
pub record Tools {ℓ} (W : Type ℓ) : Type ℓ where
  pub valid_json : Bytes → Bool
  pub is_installed : String → W → Bool
  pub run : String → String → W → Option String × W
  pub reference : String → W → String

pub record Writer : Type 0 where
  pub allowed_root : String
  pub rollback_dir : String

abbrev pub new_writer : String → Writer
new_writer rollback_dir = record { allowed_root = "/etc"; rollback_dir = rollback_dir }

-- strconv.ParseUint(text, 8, 32), but that a number of more than 32 bits is given as it is: `safe_mode`
-- refuses it either way.
abbrev octal_digit : ℕ → Option ℕ
octal_digit c = if leb b'0' c && leb c b'7' then some (c - b'0') else none

abbrev push_digit : ℕ → Option ℕ → Option ℕ
push_digit n none = none
push_digit n (some d) = some (n * 8 + d)

unfoldable pub octal_from : Option ℕ → List ℕ → Option ℕ
octal_from none cs = none
octal_from (some n) [] = some n
octal_from (some n) (c ∷ cs) = octal_from (push_digit n (octal_digit c)) cs

unfoldable pub parse_octal : List ℕ → Option ℕ
unfolding octal_from
parse_octal [] = none
parse_octal (c ∷ cs) = octal_from (some 0) (c ∷ cs)

-- 0o644 and value&0o400
abbrev pub broadest : ℕ
broadest = 420

abbrev pub owner_reads : ℕ → Bool
owner_reads value = (value / 256) % 2 == 1

abbrev accept_mode : Option ℕ → Option ℕ
accept_mode none = none
accept_mode (some value) =
    if ltb broadest value || not (owner_reads value) then none else some value

-- safeMode on a requested mode
unfoldable pub requested_mode : List ℕ → Option ℕ
unfolding parse_octal
requested_mode cs = accept_mode (parse_octal cs)

abbrev or_refuse : Option ℕ → Result Error ℕ
or_refuse none =
    err (err_validation "mode must be a non-executable owner-readable mode no broader than 0644")
or_refuse (some mode) = ok mode

unfoldable pub safe_mode : String → ℕ → Result Error ℕ
unfolding requested_mode
safe_mode requested existing =
    if str_eq requested "" then ok existing else or_refuse (requested_mode (codes requested))

-- "sha256:" and 64 hexadecimal digits, of either case
abbrev is_hex : ℕ → Bool
is_hex c = is_lower_hex c || (leb b'A' c && leb c b'F')

abbrev hex_after : List ℕ → Bool
hex_after (_ ∷ _ ∷ _ ∷ _ ∷ _ ∷ _ ∷ _ ∷ rest) = all_in is_hex rest
hex_after _ = false

unfoldable pub valid_revision : String → Bool
unfolding all_in
valid_revision value = starts_with value "sha256:" && len value == 71 && hex_after (codes value)

abbrev contains : String → String → Bool
contains text part = elim (find? text part) [ none ↦ false | some i ↦ true ]

-- The `switch` of validateKnown: JSON is checked here, "" is no kind, and else a command is run.
unfoldable pub known_kind : String → String → String
unfolding ends_with
known_kind target base =
    if ends_with (codes ".json") (codes target)
    then "json"
    else if str_eq base "nginx.conf" || contains target "/nginx/"
    then "nginx"
    else if str_eq base "sshd_config" || contains target "/ssh/sshd_config.d/"
    then "sshd"
    else if str_eq base "sudoers" || contains target "/sudoers.d/"
    then "sudoers"
    else if contains target "/systemd/system/"
    then "systemd"
    else ""

module _ {ℓ} {W : Type ℓ} (sys : System W) (tools : Tools W) where
  unfoldable pub validate_path : Writer → String → M W String
  validate_path w path = do
    guard (str_eq path "" || not (sys.is_abs path)) (err_validation "path must be absolute")
    guard (not (str_eq (sys.clean path) path) || not (starts_with path (w.allowed_root ++ "/")))
        (err_validation "only canonical paths below the protected root are allowed")
    real_dir ← read (sys.eval_symlinks (sys.dir path))
    guard (not (str_eq real_dir (sys.dir path)))
        (err_validation "symlinked parent directories are not allowed")
    pure path

  -- A temporary file's content, mode and owner, up to `Close`.
  unfoldable pub fill : String → Bytes → ℕ → ℕ → ℕ → M W (Unit {0})
  unfolding or_close
  fill tmp content mode uid gid = do
    or_close sys tmp (call (wrote tmp content) (sys.write tmp content))
    or_close sys tmp (call (synced tmp) (sys.sync tmp))
    or_close sys tmp (call (chmoded tmp mode) (sys.chmod tmp mode))
    or_close sys tmp (call (chowned tmp uid gid) (sys.chown tmp uid gid))
    call (closed tmp) (sys.close tmp)

  -- The error of `Write` gets a prefix here, which is left out.
  unfoldable pub keep_rollback : Writer → Bytes → ℕ → ℕ → ℕ → String → M W String
  unfolding create_temp with_removal fill sync_dir
  keep_rollback w content mode uid gid id = do
    call (made_dir w.rollback_dir) (sys.make_dir w.rollback_dir)
    ref ← read (λ w. ok (tools.reference id w))
    tmp ← create_temp sys w.rollback_dir ".rollback-*"
    with_removal sys tmp (do
      fill tmp content mode uid gid
      call (kept tmp (sys.join w.rollback_dir ref)) (sys.rename tmp (sys.join w.rollback_dir ref))
      sync_dir sys w.rollback_dir
      pure ref)

  abbrev validated :
      String → String → State W → Option String × W → Result Error Validation × State W
  validated kind candidate s (some output, w) =
      (err (err_validation (kind ++ " validation failed: " ++ output)), record s { world = w })
  validated kind candidate s (none, w) = (
    ok record { kind = kind; is_checked = true },
    record s { calls = checked kind candidate ∷ s.calls; world = w },
  )

  -- The command of a kind on the candidate.
  unfoldable pub run_validator : String → String → M W Validation
  run_validator kind candidate s =
      if not (tools.is_installed kind s.world)
      then (err (err_validation (kind ++ " validator is unavailable")), s)
      else validated kind candidate s (tools.run kind candidate s.world)

  unfoldable pub validate_known : String → String → Bytes → M W Validation
  unfolding known_kind run_validator
  validate_known target candidate content =
      let kind = known_kind target (sys.base target) in
      if str_eq kind "json"
      then (do
        guard (not (tools.valid_json content)) (err_validation "invalid JSON")
        pure record { kind = "json"; is_checked = true })
      else if str_eq kind ""
      then pure record { kind = "none"; is_checked = false }
      else run_validator kind candidate

  -- `Write` from the creation of the candidate on.
  unfoldable pub replace : Writer → String → Bytes → Bytes → Info → ℕ → String → M W WriteResult
  unfolding create_temp with_removal fill validate_known keep_rollback sync_dir
  replace w path content old info mode id = do
    tmp ← create_temp sys (sys.dir path) ".lumio-privileged-*"
    with_removal sys tmp (do
      fill tmp content mode info.uid info.gid
      validation ← validate_known path tmp content
      ref ← keep_rollback w old info.mode info.uid info.gid id
      call (replaced tmp path) (sys.rename tmp path)
      sync_dir sys (sys.dir path)
      pure record {
        path = path;
        revision = sys.revision content;
        size_bytes = length content;
        rollback_ref = ref;
        validation = validation;
      })

  unfoldable pub write : Writer → String → Bytes → String → String → String → M W WriteResult
  unfolding validate_path valid_revision safe_mode replace
  write w path content expected mode id = do
    clean ← validate_path w path
    guard (ltb max_write_bytes (length content)) (err_validation "content exceeds the 1 MiB limit")
    guard (not (valid_revision expected)) (err_validation "expected revision is required")
    info ← read (sys.lstat clean)
    guard (info.is_symlink || not info.is_regular)
        (err_validation "target must be a regular file, not a symlink")
    guard (ltb max_write_bytes info.size) (err_validation "target exceeds the 1 MiB limit")
    real ← read (sys.eval_symlinks clean)
    guard (not (str_eq real clean)) (err_validation "symlinked paths are not allowed")
    old ← read (sys.read_file clean)
    guard (not (str_eq (sys.revision old) expected)) (stale_error expected (sys.revision old))
    new_mode ← lift (safe_mode mode info.mode)
    replace w clean content old info new_mode id
