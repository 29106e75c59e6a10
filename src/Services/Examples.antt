-- ===== src/Services/Examples.antt =====
-- The units of a small bus, and a run of a subscriber.
use lumio_os.Prelude.{
  ℕ, ◌+◌, String, true, false, none, List, [], ◌∷◌, ◌≡◌, refl, string_eq, nat_eq, arith,
}
use lumio_os.Prelude.Map.{Map, lookup}
use lumio_os.Prelude.Action.{ok, err}
use lumio_os.Prelude.Dbus.{Value, text, paths, unit_iface, value, variant, rows, properties}
use lumio_os.Services.Units.{ServiceUnit, err_unavailable, blank, Bus, list_units, index_units}
use lumio_os.Services.Watch.{
  Manager, Signal, signalled, ticked, watch_step, subscribe, poll, receive, list,
  handle_properties_changed,
}
use lumio_os.Services.Watch.Client.{View, show_change, fallback, Fills}
use lumio_os.Services.Watch.Following.{find_unit}
use lumio_os.Services.Watch.Steps.{InStep}
use lumio_os.Services.Watch.InStep.{Observed, Step, Steps, view_in_step}
use lumio_os.Services.Detail.{dependencies, read_unit_file}

abbrev row : String → String → List Value
row name active = text name ∷ text "Web server" ∷ text "loaded" ∷ text active ∷ text "running" ∷ []

-- One service, a socket that is no service, and a row that is too short.
abbrev listing : List (List Value)
listing = row "nginx.service" "active" ∷ row "nginx.socket" "active" ∷ (text "x.service" ∷ []) ∷ []

-- The world counts the calls.
abbrev small_bus : Bus ℕ
small_bus = record {
  list_units_call = λ w. (ok (rows listing ∷ []), w + 1);
  get_unit_file_state = λ name w. (ok (value (text "enabled") ∷ []), w + 1);
  get_unit = λ name w. (err "no such unit", w + 1);
  get_id = λ path w. (ok (variant (text path) ∷ []), w + 1);
  get_all = λ path w. (err "no such unit", w + 1);
  add_match = λ w. (ok [], w + 1);
  subscribe_call = λ w. (ok [], w + 1);
}

abbrev fresh : Manager
fresh = record {
  connected = true;
  watching = false;
  units = [];
  path_names = [];
  subs = [];
  next_channel = 7;
}

abbrev nginx : ServiceUnit
nginx = record {
  name = "nginx.service";
  description = "Web server";
  load_state = "loaded";
  active_state = "active";
  sub_state = "running";
  enabled_state = "enabled";
}

one_service : list_units small_bus 0 ≡ (ok (nginx ∷ []), 2)
unfolding list_units
one_service = refl

abbrev watched : Manager
watched = record fresh { watching = true; units = index_units (nginx ∷ []) }

abbrev stopped : Signal
stopped = record {
  name = "org.freedesktop.DBus.Properties.PropertiesChanged";
  path = "nginx.service";
  body =
      value (text "org.freedesktop.systemd1.Unit")
      ∷ properties (("ActiveState", text "inactive") ∷ ("SubState", text "running") ∷ [])
      ∷ [];
}

-- Only the field that changed is published, to every subscriber.
stop_published :
    (watch_step small_bus
      (signalled stopped)
      (record watched { subs = (1, []) ∷ (2, []) ∷ [] })
      0).0.subs
    ≡ (1, record (blank "nginx.service") { active_state = "inactive" } ∷ [])
      ∷ (2, record (blank "nginx.service") { active_state = "inactive" } ∷ [])
      ∷ []
unfolding watch_step index_units
stop_published = refl

-- A unit that systemd no longer lists goes from the map, and nobody is told.
removal_silent :
    (watch_step small_bus ticked
      (record fresh {
        units = ("old.service", blank "old.service") ∷ ("nginx.service", nginx) ∷ [];
        subs = (1, []) ∷ [];
      })
      0).0
    ≡ record fresh { units = ("nginx.service", nginx) ∷ []; subs = (1, []) ∷ [] }
unfolding watch_step
removal_silent = refl

no_bus : list small_bus (record fresh { connected = false }) 0 ≡ (err err_unavailable, 0)
unfolding list
no_bus = refl

abbrev wants : Map String Value
wants =
    ("Wants", paths ("b.service" ∷ "a.service" ∷ "b.service" ∷ []))
    ∷ ("Requires", paths ("z.service" ∷ "" ∷ []))
    ∷ []

ordered_once :
    (dependencies small_bus wants fresh 0).0
    ≡ record { name = "z.service"; relation = "requires" }
      ∷ record { name = "a.service"; relation = "wants" }
      ∷ record { name = "b.service"; relation = "wants" }
      ∷ []
unfolding dependencies
ordered_once = refl

unreadable : read_unit_file (λ n path. none) "/etc/x" true ≡ record {
  path = "/etc/x";
  content = [];
  overriding = true;
  error = "Unable to read this unit file.";
}
unfolding read_unit_file
unreadable = refl

filled_in : Fills (fallback "nginx.service") nginx
filled_in = record {
  description = λ h. refl;
  load_state = λ h. absurd (cc h);
  active_state = λ h. absurd (cc h);
  sub_state = λ h. absurd (cc h);
  enabled_state = λ h. absurd (cc h);
}

-- The listing comes, nginx is stopped, and the subscriber takes the first of the two changes.
abbrev observed : Manager → ℕ → View → Observed ℕ
observed m w view = record { manager = m; world = w; view = view }

abbrev joined_manager : Manager
joined_manager = record fresh { subs = (7, []) ∷ []; next_channel = 8 }

abbrev listed_manager : Manager
listed_manager = record joined_manager {
  units = ("nginx.service", nginx) ∷ [];
  subs = (7, nginx ∷ []) ∷ [];
}

abbrev stopped_manager : Manager
stopped_manager = record joined_manager {
  units = ("nginx.service", record nginx { active_state = "inactive" }) ∷ [];
  path_names = ("nginx.service", "nginx.service") ∷ [];
  subs = (7, nginx ∷ record (blank "nginx.service") { active_state = "inactive" } ∷ []) ∷ [];
}

abbrev taken_manager : Manager
taken_manager = record stopped_manager {
  subs = (7, record (blank "nginx.service") { active_state = "inactive" } ∷ []) ∷ [];
}

short_run :
    Steps small_bus 7
      (observed joined_manager 0 [])
      (observed taken_manager 3 (("nginx.service", nginx) ∷ []))
unfolding poll handle_properties_changed receive show_change lookup find_unit
short_run =
    let listed : Step small_bus 7 (observed joined_manager 0 []) (observed listed_manager 2 []) =
      Step.listed joined_manager 0 2 [] (nginx ∷ []) [] refl (filled_in, refl, tt) (λ n h. refl)
        refl (omega arith) in
    let told : Step small_bus 7 (observed listed_manager 2 []) (observed stopped_manager 3 []) =
      Step.told listed_manager 2 [] "nginx.service" unit_iface
        (("ActiveState", text "inactive") ∷ []) (nginx ∷ []) (λ h. (nginx, refl)) refl
        (omega arith) in
    let took : Step small_bus 7 (observed stopped_manager 3 [])
        (observed taken_manager 3 (("nginx.service", nginx) ∷ [])) =
      Step.took stopped_manager taken_manager 3 [] nginx refl in
    Steps.go _ _ _ (Steps.go _ _ _ (Steps.go _ _ _ (Steps.stay _) listed) told) took

view_in_step_example : InStep 7 taken_manager (("nginx.service", nginx) ∷ [])
unfolding subscribe lookup
view_in_step_example =
    view_in_step small_bus fresh 0 [] (observed taken_manager 3 (("nginx.service", nginx) ∷ []))
      (λ n u h. absurd (cc h)) (λ n. refl) short_run
