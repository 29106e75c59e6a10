-- ===== src/Updates/Worker.antt =====
-- server/internal/updates/updates.go: the plans, and the progress of the updates that run.
-- Times are nanoseconds since the year 1, and each reading of the clock is an argument. Each function
-- is one step, as it is under `w.mu`. apt-get is what it prints, line by line, and how it ends.
pub mod Progressing
pub mod Starting
mod Examples
use Prim.Native.String.{◌++◌}
use Prim.Native.Nat.{min, ◌/◌}
use text.Mathlib.Text.{starts_with}
use lumio_os.Prelude.{
  ℕ, ◌+◌, ◌-◌, ◌*◌, String, Bool, true, false, ◌&&◌, ◌||◌, not, Option, none, some, List, [], ◌∷◌,
  ltb, ◌==◌, if◌then◌else◌, str_eq, string_eq,
}
use lumio_os.Prelude.Lists.{length}
use lumio_os.Prelude.Map.{Map, lookup, insert, delete, retain}

pub record Package : Type 0 where
  pub name : String
  pub to_version : String

-- What `StartApply`, `apply` and `pruneLocked` read of a plan.
pub record Plan : Type 0 where
  pub id : String
  pub expires_at : ℕ
  pub packages : List Package

pub record Progress : Type 0 where
  pub request_id : String
  pub plan_id : String
  pub phase : String
  pub percent : ℕ
  pub message : String
  pub is_done : Bool
  pub success : Bool
  pub error : String
  pub updated_at : ℕ

-- `available` is the result of `Available`.
pub record Worker : Type 0 where
  pub available : Bool
  pub plans : Map String Plan
  pub progress : Map String Progress

pub data Failure : Type 0 where
  unavailable plan_missing plan_stale : Failure

-- The result of `StartApply`; `started` also starts `apply` on the plan.
pub data Start : Type 0 where
  refused : Failure → Start
  existing : Progress → Start
  started : Plan → Progress → Start

abbrev pub zero_progress : Progress
zero_progress = record {
  request_id = "";
  plan_id = "";
  phase = "";
  percent = 0;
  message = "";
  is_done = false;
  success = false;
  error = "";
  updated_at = 0;
}

-- m[k], which is a zero value for a missing key.
abbrev pub or_zero : Option Progress → Progress
or_zero none = zero_progress
or_zero (some p) = p

unfoldable pub set_progress : String → String → ℕ → String → ℕ → Worker → Worker
set_progress id phase percent message now w = record w {
  progress =
      insert id
        (record (or_zero (lookup id w.progress)) {
          phase = phase;
          percent = percent;
          message = message;
          updated_at = now;
        })
        w.progress;
}

abbrev pub finished : Bool → String → ℕ → Progress → Progress
finished success error now p = record p {
  phase = "complete";
  percent = if success then 100 else p.percent;
  is_done = true;
  success = success;
  error = error;
  message =
      if success
      then "Updates installed"
      else if str_eq error "package manager busy"
      then "Package manager busy"
      else "Update installation failed";
  updated_at = now;
}

unfoldable pub finish : String → Bool → String → ℕ → Worker → Worker
finish id success error now w = record w {
  progress = insert id (finished success error now (or_zero (lookup id w.progress))) w.progress;
}

abbrev pub hour : ℕ
hour = 3600 * 1000000000

abbrev pub keeps_plan : ℕ → Plan → Bool
keeps_plan now plan = ltb now plan.expires_at

abbrev pub keeps_progress : ℕ → Progress → Bool
keeps_progress now p = not (p.is_done && ltb hour (now - p.updated_at))

-- pruneLocked
unfoldable pub prune : ℕ → Worker → Worker
prune now w = record w {
  plans = retain (keeps_plan now) w.plans;
  progress = retain (keeps_progress now) w.progress;
}

-- The first progress of an update.
abbrev pub queued : String → String → ℕ → Progress
queued id plan_id now = record zero_progress {
  request_id = id;
  plan_id = plan_id;
  phase = "queued";
  message = "Waiting for the package manager";
  updated_at = now;
}

-- The part of `StartApply` from the look at the plan on.
unfoldable pub start_plan : String → String → String → ℕ → Option Plan → Worker → Start × Worker
start_plan plan_id expected id now none w = (refused plan_missing, w)
start_plan plan_id expected id now (some plan) w =
    if str_eq expected "" || not (str_eq expected plan_id)
    then (refused plan_stale, w)
    else if not (ltb now plan.expires_at)
    then (refused plan_stale, record w { plans = delete plan_id w.plans })
    else (
      started plan (queued id plan_id now),
      record w { progress = insert id (queued id plan_id now) w.progress },
    )

unfoldable pub start_apply : String → String → String → ℕ → Worker → Start × Worker
unfolding start_plan
start_apply plan_id expected id now w =
    if not w.available then (refused unavailable, w) else elim (lookup id w.progress) [
      | some p ↦ (existing p, w)
      | none ↦ start_plan plan_id expected id now (lookup plan_id w.plans) w
    ]

-- The variables of `apply` that its callback changes, with the worker.
pub record Run : Type 0 where
  pub configured : ℕ
  pub last_line : String
  pub worker : Worker

-- A line without the spaces around it, and the time at which it is handled.
pub record Line : Type 0 where
  pub trimmed : String
  pub at : ℕ

abbrev noted : String → String → String
noted trimmed last_line = if str_eq trimmed "" then last_line else trimmed

-- min(50 + configured*45/len(plan.Packages), 95)
abbrev pub setup_percent : ℕ → ℕ → ℕ
setup_percent configured total = min (50 + configured * 45 / total) 95

-- The callback on a line of apt-get.
unfoldable pub on_line : String → ℕ → Run → Line → Run
unfolding set_progress
on_line id total run line =
    let trimmed = line.trimmed in
    let last = noted trimmed run.last_line in
    if starts_with trimmed "Get:"
    then record run {
      last_line = last;
      worker = set_progress id "downloading" 10 trimmed line.at run.worker;
    }
    else if starts_with trimmed "Unpacking "
    then record run {
      last_line = last;
      worker = set_progress id "installing" 45 trimmed line.at run.worker;
    }
    else if starts_with trimmed "Setting up "
    then record {
      configured = run.configured + 1;
      last_line = last;
      worker =
          set_progress id "installing" (setup_percent (run.configured + 1) total) trimmed line.at
            run.worker;
    }
    else record run { last_line = last }

unfoldable pub on_lines : String → ℕ → Run → List Line → Run
unfolding on_line
on_lines id total run [] = run
on_lines id total run (line ∷ lines) = on_lines id total (on_line id total run line) lines

-- The error text of a failed run.
abbrev pub run_error : String → String → String
run_error error last_line = if str_eq last_line "" then error else error ++ ": " ++ last_line

-- The end of `apply`, on how apt-get ended.
unfoldable pub conclude_run : String → ℕ → Option String → Run → Worker
unfolding finish
conclude_run id now none run = finish id true "" now run.worker
conclude_run id now (some error) run =
    finish id false (run_error error run.last_line) now run.worker

-- `apply`, which starts at `before` and ends at `after`.
unfoldable pub apply : Plan → String → ℕ → List Line → Option String → ℕ → Worker → Worker
unfolding finish set_progress on_lines conclude_run
apply plan id before lines error after w =
    if length plan.packages == 0
    then finish id true "" after w
    else conclude_run id after error (
        on_lines id (length plan.packages)
          record {
            configured = 0;
            last_line = "";
            worker = set_progress id "downloading" 2 "Downloading packages" before w;
          }
          lines)
