-- ===== src/Updates/Planning.antt =====
-- server/internal/updates/updates.go: the refresh of the metadata and the calculation of a plan.
-- An int64 is its two's complement, so that sums and differences are taken modulo 2 ^ 64. What apt-get
-- and its companions print are lines of code points. `match` is planLinePattern with its four groups,
-- `security` that the lower-cased text holds "-security", and `parse_int` strconv.ParseInt with its error
-- dropped.
pub mod Startable
mod Examples
use Prim.Native.String.{String, ◌++◌}
use lumio_os.Prelude.{
  ℕ, ◌+◌, ◌-◌, ◌*◌, ◌^◌, ◌%◌, Bool, true, false, not, Option, none, some, List, [], ◌∷◌, map,
  if◌then◌else◌, string_eq,
}
use lumio_os.Prelude.Text.{codes, split, same_codes, trim, cut}
use lumio_os.Prelude.Map.{insert}
use lumio_os.Prelude.Action.{Result, ok, err}
use lumio_os.Updates.Worker.{Package, Plan, Worker, prune}

abbrev pub Text : Type 0
Text = List ℕ

-- 15 * time.Minute
abbrev pub plan_lifetime : ℕ
plan_lifetime = 15 * 60 * 1000000000

-- int64
abbrev pub word : ℕ
word = 2 ^ 64

-- A package of a plan with all that the plan tells of it.
pub record PlannedPackage : Type 0 where
  pub name : String
  pub from_version : String
  pub to_version : String
  pub is_security : Bool
  pub download_bytes : ℕ
  pub installed_delta_bytes : ℕ

pub record FullPlan : Type 0 where
  pub id : String
  pub created_at : ℕ
  pub expires_at : ℕ
  pub packages : List PlannedPackage
  pub security_count : ℕ
  pub download_bytes : ℕ
  pub installed_delta_bytes : ℕ
  pub reboot_required : Bool

pub data PlanError : Type 0 where
  err_unavailable err_busy : PlanError
  failed : String → PlanError

-- The three programs, each with what it prints or its failure as `commandFailure` words it; the random
-- id, and whether a reboot is required.
pub record Tools {ℓ} (W : Type ℓ) : Type ℓ where
  pub update : W → Result String Text × W
  pub simulate : W → Result String Text × W
  pub show : String → W → Result String Text × W
  pub query_size : String → W → Result String Text × W
  pub match : Text → Option (String × String × String × String)
  pub security : String → Bool
  pub parse_int : Text → ℕ
  pub random_id : W → String × W
  pub reboot_required : W → Bool

-- The sizes that `apt-cache show` tells.
pub record Sizes : Type 0 where
  pub download : ℕ
  pub installed : ℕ

-- What the rest of the worker reads of a plan.
abbrev pub stored_package : PlannedPackage → Package
stored_package p = record { name = p.name; to_version = p.to_version }

abbrev pub stored_plan : FullPlan → Plan
stored_plan p = record {
  id = p.id;
  expires_at = p.expires_at;
  packages = map stored_package p.packages;
}

unfoldable pub security_count : List PlannedPackage → ℕ
security_count [] = 0
security_count (p ∷ ps) = let rest = security_count ps in if p.is_security then rest + 1 else rest

unfoldable pub sum_download : List PlannedPackage → ℕ
sum_download [] = 0
sum_download (p ∷ ps) = (p.download_bytes + sum_download ps) % word

unfoldable pub sum_installed : List PlannedPackage → ℕ
sum_installed [] = 0
sum_installed (p ∷ ps) = (p.installed_delta_bytes + sum_installed ps) % word

abbrev pub new_plan : String → ℕ → List PlannedPackage → Bool → FullPlan
new_plan id now packages reboot = record {
  id = "pln_" ++ id;
  created_at = now;
  expires_at = now + plan_lifetime;
  packages = packages;
  security_count = security_count packages;
  download_bytes = sum_download packages;
  installed_delta_bytes = sum_installed packages;
  reboot_required = reboot;
}

-- pruneLocked, and w.plans[plan.ID] = plan
abbrev pub keep_plan : FullPlan → ℕ → Worker → Worker
keep_plan plan now worker =
    let pruned = prune now worker in
    record pruned { plans = insert plan.id (stored_plan plan) pruned.plans }

abbrev pub Planned {ℓ} : Type ℓ → Type ℓ
Planned W = Result PlanError FullPlan × Worker × W

module _ {ℓ} {W : Type ℓ} (tools : Tools W) where
  abbrev planned :
      Option (String × String × String × String) → List PlannedPackage → List PlannedPackage
  planned none rest = rest
  planned (some (name, from_version, to_version, origin)) rest =
      record {
        name = name;
        from_version = from_version;
        to_version = to_version;
        is_security = tools.security origin;
        download_bytes = 0;
        installed_delta_bytes = 0;
      }
      ∷ rest

  unfoldable pub parse_plan_lines : List Text → List PlannedPackage
  unfolding trim
  parse_plan_lines [] = []
  parse_plan_lines (line ∷ lines) = planned (tools.match (trim line)) (parse_plan_lines lines)

  unfoldable pub parse_plan_output : Text → List PlannedPackage
  unfolding parse_plan_lines split
  parse_plan_output output = parse_plan_lines (split 10 output)

  abbrev kilobytes : Text → ℕ
  kilobytes text = tools.parse_int (trim text) * 1024 % word

  abbrev sizes_in : Text → Text → Sizes → Sizes
  sizes_in key value sizes =
      if same_codes key (codes "Size")
      then record sizes { download = tools.parse_int (trim value) }
      else if same_codes key (codes "Installed-Size")
      then record sizes { installed = kilobytes value }
      else sizes

  unfoldable pub read_sizes : List Text → Sizes → Sizes
  unfolding trim cut
  read_sizes [] sizes = sizes
  read_sizes (line ∷ lines) sizes = elim (cut b':' line) [
    | none ↦ read_sizes lines sizes
    | some (key, value) ↦ read_sizes lines (sizes_in key value sizes)
  ]

  abbrev new_sizes : Result String Text → Sizes
  new_sizes (err e) = record { download = 0; installed = 0 }
  new_sizes (ok output) = read_sizes (split 10 output) (record { download = 0; installed = 0 })

  abbrev old_size : Result String Text → ℕ
  old_size (err e) = 0
  old_size (ok output) = kilobytes output

  -- packageSizes, as the package with its two sizes
  unfoldable pub with_sizes : PlannedPackage → W → PlannedPackage × W
  unfolding read_sizes split
  with_sizes p w =
      let (shown, w1) = tools.show (p.name ++ "=" ++ p.to_version) w in
      let (installed, w2) = tools.query_size p.name w1 in
      let sizes = new_sizes shown in
      (
        record p {
          download_bytes = sizes.download;
          installed_delta_bytes = (sizes.installed + word - old_size installed % word) % word;
        },
        w2,
      )

  unfoldable pub all_sizes : List PlannedPackage → W → List PlannedPackage × W
  unfolding with_sizes
  all_sizes [] w = ([], w)
  all_sizes (p ∷ ps) w =
      let (p', w1) = with_sizes p w in let (ps', w2) = all_sizes ps w1 in (p' ∷ ps', w2)

  abbrev pub conclude : ℕ → Worker → List PlannedPackage × W → Planned W
  conclude now worker (packages, w) =
      let (id, w') = tools.random_id w in
      let plan = new_plan id now packages (tools.reboot_required w') in
      (ok plan, keep_plan plan now worker, w')

  abbrev pub simulated : ℕ → Worker → Result String Text × W → Planned W
  simulated now worker (err e, w) = (err (failed ("apt plan failed: " ++ e)), worker, w)
  simulated now worker (ok output, w) = conclude now worker (all_sizes (parse_plan_output output) w)

  -- CalculatePlan. `busy` is that another operation holds `opMu`, `now` the clock after the sizes.
  unfoldable pub calculate_plan : Bool → ℕ → Worker → W → Planned W
  unfolding prune insert parse_plan_output all_sizes security_count sum_download sum_installed
  calculate_plan busy now worker w =
      if not worker.available
      then (err err_unavailable, worker, w)
      else if busy
      then (err err_busy, worker, w)
      else simulated now worker (tools.simulate w)

  abbrev refreshed : ℕ → Result String Text × W → Result PlanError ℕ × W
  refreshed now (err e, w) = (err (failed ("apt metadata refresh failed: " ++ e)), w)
  refreshed now (ok output, w) = (ok now, w)

  -- Refresh; the result is the time.
  unfoldable pub refresh : Bool → ℕ → Worker → W → Result PlanError ℕ × W
  refresh busy now worker w =
      if not worker.available
      then (err err_unavailable, w)
      else if busy
      then (err err_busy, w)
      else refreshed now (tools.update w)
