-- ===== src/Files/User.antt =====
-- server/internal/files: what an agent does with the files of its user. The lock table of write.go lets
-- one write of a target run at a time, as a call does here.
pub mod Edit
pub mod Path
pub mod List
pub mod Read
pub mod Trash
pub mod Write
mod Examples
use lumio_os.Prelude.{String, Bool, not, str_eq}
use lumio_os.Prelude.Action.{Action, ◌>>=◌, ◌>>◌, next, pure, guard}
use lumio_os.Files.System.{Error, err_validation, State, System, M}

module _ {ℓ} {W : Type ℓ} (sys : System W) where
  unfoldable pub clean_path : String → M W String
  clean_path p = do
    guard (str_eq p "") (err_validation "path is required")
    guard (not (sys.is_abs p)) (err_validation "path must be absolute")
    pure (sys.clean p)
