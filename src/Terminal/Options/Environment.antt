-- ===== src/Terminal/Options/Environment.antt =====
-- Tests of the options and of the environment of a shell.
use lumio_os.Prelude.{◌≡◌, refl, true, some, [], ◌∷◌, str_eq, if◌then◌else◌}
use lumio_os.Terminal.Session.{err_validation}
use lumio_os.Terminal.Options.{System, check_open, clean_env, ok, err}

abbrev system : System
system = record {
  getenv = λ key. if str_eq key "HOME" then "/root" else "";
  current_user = some record { home_dir = ""; username = "ann" };
  is_abs = λ path. true;
  is_executable = λ path. str_eq path "/bin/zsh";
}

-- The home directory of the environment serves where the user has none.
home_of_environment :
    clean_env system "/bin/sh"
    ≡ "TERM=xterm-256color" ∷ "COLORTERM=truecolor" ∷ "SHELL=/bin/sh"
      ∷ "PATH=/usr/local/sbin:/usr/local/bin:/usr/sbin:/usr/bin:/sbin:/bin" ∷ "LANG=C.UTF-8"
      ∷ "USER=ann" ∷ "LOGNAME=ann" ∷ "HOME=/root" ∷ []
unfolding clean_env
home_of_environment = refl

defaults :
    check_open system record { cols = 0; rows = 50; shell = "" }
    ≡ ok record { cols = 80; rows = 50; shell = "/bin/sh" }
unfolding check_open
defaults = refl

too_wide : check_open system record { cols = 501; rows = 50; shell = "" } ≡ err err_validation
unfolding check_open
too_wide = refl
