-- ===== src/Broker/Systemd.antt =====
-- server/internal/broker/systemd.go: the actions on services and the waiting for their effect.
-- Times are milliseconds. `job` is a call of the manager by its method and unit, and `pause` the
-- `select` at the end of a round: the error of a context that was cancelled, or 100 ms that passed. `quote`
-- is the verb %q. The two loops differ in how they judge a state, and are one function of that; a
-- round takes one of its fuel, and `none` is that the fuel ran out.
pub mod Waiting
mod Examples
use Prim.Native.String.{String, ◌++◌}
use lumio_os.Prelude.{
  ℕ, zero, suc, ◌+◌, ltb, Bool, true, false, ◌||◌, ◌&&◌, not, Option, none, some, [], ◌∷◌, str_eq,
  if◌then◌else◌,
}
use lumio_os.Prelude.Action.{Result, ok, err}
use lumio_os.Prelude.Dbus.{Value, object, Argument, value, variant, Reply, as_text, argument_text}

pub record UnitState : Type 0 where
  pub name : String
  pub active_state : String
  pub sub_state : String
  pub enabled_state : String

pub record SystemdClient {ℓ} (W : Type ℓ) : Type ℓ where
  pub get_unit : String → W → Reply × W
  pub get_property : String → String → W → Reply × W
  pub get_unit_file_state : String → W → Reply × W
  pub job : String → String → W → Reply × W
  pub reload : W → W
  pub now : W → ℕ
  pub pause : W → Option String × W
  pub quote : String → String

-- A state, the error that comes with it, and the world after it.
pub record Answer {ℓ} (W : Type ℓ) : Type ℓ where
  pub state : UnitState
  pub error : Option String
  pub world : W

pub data Judged : Type 0 where
  arrived : Judged
  lost : String → Judged
  waiting : String → Judged

abbrev pub unknown : String → UnitState
unknown unit = record { name = unit; active_state = ""; sub_state = ""; enabled_state = "" }

-- UnitState{}
abbrev pub no_state : UnitState
no_state = unknown ""

-- call.Err != nil || len(call.Body) == 0
unfoldable pub first_argument : String → Reply → Result String Argument
first_argument what (err e) = err (what ++ ": " ++ e)
first_argument what (ok []) = err (what ++ ": <nil>")
first_argument what (ok (a ∷ _)) = ok a

abbrev pub variant_text : Argument → String
variant_text (variant v) = as_text v
variant_text _ = ""

abbrev pub file_state : Reply → String
file_state (ok (a ∷ _)) = argument_text a
file_state _ = ""

-- 8 * time.Second
abbrev pub wait_time : ℕ
wait_time = 8000

-- One round for each 100 ms of the 8 s, and two more.
abbrev pub rounds : ℕ
rounds = 82

abbrev pub is_enabled : UnitState → Bool
is_enabled state =
    str_eq state.enabled_state "enabled"
    || str_eq state.enabled_state "enabled-runtime"
    || str_eq state.enabled_state "alias"

abbrev pub same_bool : Bool → Bool → Bool
same_bool true b = b
same_bool false b = not b

module _ {ℓ} {W : Type ℓ} (c : SystemdClient W) where
  abbrev pub with_enabled : UnitState → W → Answer W
  with_enabled state w =
      let (reply, w') = c.get_unit_file_state state.name w in
      record { state = record state { enabled_state = file_state reply }; error = none; world = w' }

  abbrev pub with_sub_state : UnitState → Result String Argument × W → Answer W
  with_sub_state state (err e, w) = record { state = state; error = some e; world = w }
  with_sub_state state (ok a, w) = with_enabled (record state { sub_state = variant_text a }) w

  abbrev pub property : String → String → W → Result String Argument × W
  property path prop w =
      let (reply, w') = c.get_property path prop w in (first_argument ("Get " ++ prop) reply, w')

  abbrev pub with_active_state : String → UnitState → Result String Argument × W → Answer W
  with_active_state path state (err e, w) = record { state = state; error = some e; world = w }
  with_active_state path state (ok a, w) =
      with_sub_state (record state { active_state = variant_text a }) (property path "SubState" w)

  abbrev pub with_unit : UnitState → Result String Argument → W → Answer W
  with_unit state (err e) w = record { state = state; error = some e; world = w }
  with_unit state (ok (value (object path))) w =
      with_active_state path state (property path "ActiveState" w)
  with_unit state (ok _) w = record {
    state = state;
    error = some "unexpected reply shape";
    world = w;
  }

  unfoldable pub unit_state : String → W → Answer W
  unfolding first_argument
  unit_state unit w =
      let (reply, w') = c.get_unit unit w in
      with_unit (unknown unit) (first_argument "GetUnit" reply) w'

  abbrev pub ended : UnitState → Option String → W → Option (Answer W)
  ended state error w = some record { state = state; error = error; world = w }

  -- The loop of waitState and of waitEnabled.
  unfoldable pub wait_until : ℕ → ℕ → (UnitState → Judged) → String → W → Option (Answer W)
  unfolding unit_state
  wait_until zero deadline judge unit w = none
  wait_until (suc fuel) deadline judge unit w =
      let seen = unit_state unit w in
      let (cancelled, w') = c.pause seen.world in
      let rest = wait_until fuel deadline judge unit w' in
      elim seen.error [
        | some e ↦ some seen
        | none ↦ elim (judge seen.state) [
          | arrived ↦ some seen
          | lost e ↦ ended seen.state (some e) seen.world
          | waiting late ↦
              if ltb deadline (c.now seen.world)
              then ended seen.state (some late) seen.world
              else elim cancelled [ some e ↦ ended seen.state (some e) w' | none ↦ rest ]
        ]
      ]

  abbrev pub judge_state : String → UnitState → Judged
  judge_state want state =
      if str_eq state.active_state want
      then arrived
      else if str_eq state.active_state "failed" && str_eq want "active"
      then lost "unit entered failed state"
      else waiting ("unit reached " ++ c.quote state.active_state ++ ", wanted " ++ c.quote want)

  abbrev pub judge_enabled : Bool → UnitState → Judged
  judge_enabled enabled state =
      if same_bool enabled (is_enabled state)
      then arrived
      else waiting ("unit enabledState " ++ c.quote state.enabled_state)

  unfoldable pub wait_state : String → String → W → Option (Answer W)
  unfolding wait_until
  wait_state unit want w = wait_until rounds (c.now w + wait_time) (judge_state want) unit w

  unfoldable pub wait_enabled : String → Bool → W → Option (Answer W)
  unfolding wait_until
  wait_enabled unit enabled w =
      wait_until rounds (c.now w + wait_time) (judge_enabled enabled) unit w

  -- The call of the manager, and what follows if it was accepted.
  abbrev pub after_job : String → Reply → W → (W → Option (Answer W)) → Option (Answer W)
  after_job what (err e) w next = ended no_state (some (what ++ ": " ++ e)) w
  after_job what (ok _) w next = next w

  abbrev pub started : String → String → W → (W → Option (Answer W)) → Option (Answer W)
  started method unit w next =
      let (reply, w') = c.job method unit w in after_job method reply w' next

  unfoldable pub execute : String → String → W → Option (Answer W)
  unfolding wait_state wait_enabled
  execute action unit w =
      if str_eq action "services.start"
      then started "StartUnit" unit w (wait_state unit "active")
      else if str_eq action "services.stop"
      then started "StopUnit" unit w (wait_state unit "inactive")
      else if str_eq action "services.restart"
      then started "RestartUnit" unit w (wait_state unit "active")
      else if str_eq action "services.reload"
      then started "ReloadUnit" unit w (wait_state unit "active")
      else if str_eq action "services.enable"
      then started "EnableUnitFiles" unit w (λ w'. wait_enabled unit true (c.reload w'))
      else if str_eq action "services.disable"
      then started "DisableUnitFiles" unit w (λ w'. wait_enabled unit false (c.reload w'))
      else ended no_state (some ("unknown action " ++ c.quote action)) w
