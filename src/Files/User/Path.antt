-- ===== src/Files/User/Path.antt =====
-- `cleanPath` of server/internal/files/files.go changes nothing.
use lumio_os.Prelude.{◌≡◌, refl, String}
use lumio_os.Files.System.{State, System}
use lumio_os.Files.System.Run.{Run, after-check}
use lumio_os.Files.User.{clean_path}

module _ {W : Type 0} (sys : System W) (s0 : State W) where
  pub clean_path-same :
      (p : String)
      → Run s0 (clean_path sys p) (λ clean s. (s ≡ s0) × (clean ≡ sys.clean p)) (λ s. s ≡ s0)
  unfolding clean_path
  clean_path-same p =
      after-check s0 _ _ _ refl λ _. after-check s0 _ _ _ refl λ _. record { holds = (refl, refl) }
