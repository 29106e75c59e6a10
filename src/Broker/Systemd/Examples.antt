-- ===== src/Broker/Systemd/Examples.antt =====
-- A unit that becomes active after some time, and what restart says of it.
use lumio_os.Prelude.{
  ℕ, ◌+◌, String, Bool, true, false, none, some, [], ◌∷◌, ◌≡◌, ◌⊎◌, refl, arith, ltb, str_eq,
  if◌then◌else◌,
}
use lumio_os.Prelude.Action.{ok}
use lumio_os.Prelude.Dbus.{text, object, value, variant}
use lumio_os.Broker.Systemd.{UnitState, SystemdClient, Answer, execute}
use lumio_os.Broker.Systemd.Waiting.{Ticks, achieved, execute_ends}

-- The world is the time; a unit is active from 200 on, or never.
abbrev active_at : Bool → ℕ → String
active_at ever w = if ltb w 200 then "activating" else if ever then "active" else "activating"

abbrev client : Bool → SystemdClient ℕ
client ever = record {
  get_unit = λ unit w. (ok (value (object "/unit") ∷ []), w);
  get_property = λ path prop w. (
    ok (variant (text (if str_eq prop "ActiveState" then active_at ever w else "running")) ∷ []),
    w,
  );
  get_unit_file_state = λ unit w. (ok (value (text "enabled") ∷ []), w);
  job = λ method unit w. (ok [], w);
  reload = λ w. w;
  now = λ w. w;
  pause = λ w. (none, w + 100);
  quote = λ s. s;
}

client-Ticks : (ever : Bool) → Ticks (client ever)
client-Ticks ever = record {
  get_unit = λ unit w. omega arith;
  get_property = λ path prop w. omega arith;
  get_unit_file_state = λ unit w. omega arith;
  pause = λ w h. omega arith;
}

abbrev running : UnitState
running = record {
  name = "a.service";
  active_state = "active";
  sub_state = "running";
  enabled_state = "enabled";
}

-- The loop looks at 0, 100 and 200 ms.
started_in_time :
    execute (client true) "services.start" "a.service" 0
    ≡ some record { state = running; error = none; world = 200 }
unfolding execute
started_in_time = refl

-- A unit that never starts is given up after 8 s.
given_up :
    execute (client false) "services.start" "a.service" 0
    ≡ some record {
      state = record running { active_state = "activating" };
      error = some "unit reached activating, wanted active";
      world = 8100;
    }
unfolding execute
given_up = refl

-- Restart is done at once if the unit still is active.
restart_at_once :
    execute (client true) "services.restart" "a.service" 300
    ≡ some record { state = running; error = none; world = 300 }
unfolding execute
restart_at_once = refl

execute_ends_example :
    (a : Answer ℕ) × (execute (client true) "services.start" "a.service" 0 ≡ some a)
    × (((e : String) × (a.error ≡ some e)) ⊎ (achieved "services.start" a.state ≡ true))
execute_ends_example = execute_ends (client true) (client-Ticks true) "services.start" "a.service" 0
