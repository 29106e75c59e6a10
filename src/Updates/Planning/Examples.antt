-- ===== src/Updates/Planning/Examples.antt =====
-- A plan of two packages.
use lumio_os.Prelude.{
  ℕ, ◌+◌, ◌^◌, ◌-◌, String, true, false, Option, none, some, [], ◌∷◌, ◌≡◌, refl, string_eq,
}
use lumio_os.Prelude.Lists.{length}
use lumio_os.Prelude.Text.{codes}
use lumio_os.Prelude.Map.{lookup, retain}
use lumio_os.Prelude.Action.{ok, err}
use lumio_os.Updates.Worker.{Worker, prune, start_apply, started, queued}
use lumio_os.Updates.Planning.{
  Text, Tools, FullPlan, err_busy, plan_lifetime, with_sizes, keep_plan, stored_plan,
  calculate_plan,
}
use lumio_os.Updates.Planning.Startable.{start_apply-calculate_plan}

abbrev first_word : Text → Option (String × String × String × String)
first_word [] = none
first_word (c ∷ cs) = some ("bash", "1", "2", "jammy-security")

-- The world counts the ids that were made; a number is the number of its characters.
abbrev tools : Tools ℕ
tools = record {
  update = λ w. (ok [], w);
  simulate = λ w. (ok (codes "\nInst bash\nInst bash"), w);
  show = λ p w. (ok (codes "Size: 123\nInstalled-Size: 1"), w);
  query_size = λ p w. (ok (codes "12"), w);
  match = first_word;
  security = λ s. true;
  parse_int = length;
  random_id = λ w. ("7", w + 1);
  reboot_required = λ w. false;
}

abbrev worker : Worker
worker = record { available = true; plans = []; progress = [] }

-- One kilobyte against two: the difference is negative.
shrinks :
    (with_sizes tools
      (record {
        name = "bash";
        from_version = "1";
        to_version = "2";
        is_security = true;
        download_bytes = 0;
        installed_delta_bytes = 0;
      })
      0).0.installed_delta_bytes
    ≡ 2 ^ 64 - 1024
unfolding with_sizes
shrinks = refl

while_busy : (calculate_plan tools true 5 worker 0).0 ≡ err err_busy
unfolding calculate_plan
while_busy = refl

abbrev one_plan : FullPlan
one_plan = record {
  id = "pln_7";
  created_at = 5;
  expires_at = 5 + plan_lifetime;
  packages = [];
  security_count = 0;
  download_bytes = 0;
  installed_delta_bytes = 0;
  reboot_required = false;
}

abbrev nothing_new : Tools ℕ
nothing_new = record tools { simulate = λ w. (ok [], w) }

start_apply-calculate_plan_example :
    (start_apply "pln_7" "pln_7" "r1" 9 (prune 8 (keep_plan one_plan 5 worker))).0
    ≡ started (stored_plan one_plan) (queued "r1" "pln_7" 9)
unfolding calculate_plan prune lookup retain
start_apply-calculate_plan_example =
    start_apply-calculate_plan nothing_new 5 worker false 0 1 one_plan (keep_plan one_plan 5 worker)
      "r1" 8 9 tt refl refl
