-- ===== src/Files/User/Write.antt =====
-- `Write` of server/internal/files/write.go.
pub mod Safe
pub mod Steps
use lumio_os.Prelude.{
  ℕ, String, Bool, true, false, ◌||◌, not, Option, none, some, ltb, str_eq, if◌then◌else◌,
}
use lumio_os.Prelude.Lists.{length}
use lumio_os.Prelude.Action.{Action, Result, ok, err, ◌>>=◌, ◌>>◌, next, pure, fail, guard}
use lumio_os.Files.System.{
  Bytes, Error, err_validation, stale_error, not_found, Info, chmoded, chowned, closed, synced,
  wrote, replaced, State, System, M, call, read, create_temp, with_removal, or_close, sync_dir,
}
use lumio_os.Files.User.{clean_path}

pub record WriteResult : Type 0 where
  pub path : String
  pub revision : String
  pub size_bytes : ℕ

abbrev is_directory : Option Info → Bool
is_directory none = false
is_directory (some info) = info.is_dir

-- 0o644
abbrev pub new_mode : ℕ
new_mode = 420

module _ {ℓ} {W : Type ℓ} (sys : System W) where
  abbrev pub hashed : Result Error Bytes → Result Error String
  hashed (ok content) = ok (sys.revision content)
  hashed (err e) = err e

  unfoldable pub hash_file : String → M W String
  hash_file path = read (λ w. hashed (sys.read_file path w))

  abbrev check_existing : String → String → Option Info → M W (Unit {0})
  check_existing target expected none = fail (not_found target)
  check_existing target expected (some info) = do
    actual ← hash_file target
    guard (not (str_eq actual expected)) (stale_error expected actual)

  unfoldable pub check_revision : String → String → Option Info → M W (Unit {0})
  unfolding hash_file
  check_revision target expected existing =
      if str_eq expected "" then pure tt else check_existing target expected existing

  -- The mode and the owner of the new content.
  unfoldable pub own : String → Option Info → M W (Unit {0})
  unfolding or_close
  own tmp none = or_close sys tmp (call (chmoded tmp new_mode) (sys.chmod tmp new_mode))
  own tmp (some info) = do
    or_close sys tmp (call (chmoded tmp info.mode) (sys.chmod tmp info.mode))
    or_close sys tmp (call (chowned tmp info.uid info.gid) (sys.chown tmp info.uid info.gid))

  -- `Write` from the creation of the new file on.
  unfoldable pub save : String → String → String → Bytes → Option Info → M W WriteResult
  unfolding create_temp with_removal or_close own sync_dir
  save clean real_dir target content existing = do
    tmp ← create_temp sys real_dir ".lumio-write-*"
    with_removal sys tmp (do
      or_close sys tmp (call (wrote tmp content) (sys.write tmp content))
      or_close sys tmp (call (synced tmp) (sys.sync tmp))
      own tmp existing
      call (closed tmp) (sys.close tmp)
      call (replaced tmp target) (sys.rename tmp target)
      sync_dir sys real_dir
      pure record { path = clean; revision = sys.revision content; size_bytes = length content })

  unfoldable pub write : String → Bytes → String → M W WriteResult
  unfolding clean_path check_revision save
  write p content expected = do
    clean ← clean_path sys p
    guard
        (str_eq (sys.base clean) "" || str_eq (sys.base clean) "." || str_eq (sys.base clean) "..")
        (err_validation "invalid file name")
    real_dir ← read (sys.eval_symlinks (sys.dir clean))
    existing ← read (sys.stat (sys.join real_dir (sys.base clean)))
    guard (is_directory existing) (err_validation "path is a directory")
    check_revision (sys.join real_dir (sys.base clean)) expected existing
    save clean real_dir (sys.join real_dir (sys.base clean)) content existing
