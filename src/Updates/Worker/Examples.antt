-- ===== src/Updates/Worker/Examples.antt =====
-- Tests of the package worker, and the theorems at a concrete update.
use lumio_os.Prelude.{◌≡◌, refl, true, some, List, [], ◌∷◌, string_eq, arith}
use lumio_os.Prelude.Map.{lookup, insert}
use lumio_os.Updates.Worker.{Worker, Progress, Plan, Run, Line, on_lines, apply, queued}
use lumio_os.Updates.Worker.Progressing.{Running, Ends, apply-Ends}
use lumio_os.Updates.Worker.Starting.{Later, ended, pruned}

abbrev plan : Plan
plan = record {
  id = "pln_1";
  expires_at = 100;
  packages =
      record { name = "curl"; to_version = "8.5" }
      ∷ record { name = "vim"; to_version = "9.1" }
      ∷ [];
}

abbrev idle : Worker
idle = record { available = true; plans = ("pln_1", plan) ∷ []; progress = [] }

abbrev begun : Worker
begun = record idle { progress = ("r1", queued "r1" "pln_1" 40) ∷ [] }

abbrev output : List Line
output =
    record { trimmed = "Get:1 http://archive.ubuntu.com"; at = 41 }
    ∷ record { trimmed = "Unpacking curl (8.5)"; at = 42 }
    ∷ record { trimmed = "Setting up curl (8.5)"; at = 43 }
    ∷ []

begun-Running : Running "r1" begun
unfolding lookup
begun-Running = (queued "r1" "pln_1" 40, (refl, omega arith, refl))

abbrev first_run : Run
first_run = record { configured = 0; last_line = ""; worker = begun }

-- The first of two packages is at 50 + 45 / 2 percent.
halfway :
    lookup "r1" (on_lines "r1" 2 first_run output).worker.progress
    ≡ some record (queued "r1" "pln_1" 43) {
      phase = "installing";
      percent = 72;
      message = "Setting up curl (8.5)";
    }
unfolding on_lines lookup insert
halfway = refl

apply-Ends_example :
    (p : Progress) × ((lookup "r1"
          (apply plan "r1" 40 output (some "exit status 100") 50 begun).progress
        ≡ some p)
      × Ends (some "exit status 100") p)
apply-Ends_example =
    apply-Ends plan "r1" 40 output (some "exit status 100") 50 begun refl begun-Running

-- The first update ends and a prune comes, half an hour after the start.
abbrev half_an_hour : List Later
half_an_hour = ended "r1" true "" 1800000000000 ∷ pruned 1800000000040 ∷ []
