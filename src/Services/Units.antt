-- ===== src/Services/Units.antt =====
-- `Unit`, `diffUnits` and `indexUnits` of server/internal/services, and `listUnits`.
use Prim.Native.String.{String, ◌++◌}
use lumio_os.Prelude.{
  Bool, ◌&&◌, Option, none, some, List, [], ◌∷◌, str_eq, if◌then◌else◌, string_eq,
}
use lumio_os.Prelude.Map.{Map, lookup, insert}
use lumio_os.Prelude.Action.{Result, ok, err}
use lumio_os.Prelude.Dbus.{Value, Argument, rows, Reply, as_text, argument_text, is_service}

pub record ServiceUnit : Type 0 where
  pub name : String
  pub description : String
  pub load_state : String
  pub active_state : String
  pub sub_state : String
  pub enabled_state : String

pub data ServiceError : Type 0 where
  err_unavailable : ServiceError
  failure : String → ServiceError

-- Unit{Name: name}
abbrev pub blank : String → ServiceUnit
blank name = record {
  name = name;
  description = "";
  load_state = "";
  active_state = "";
  sub_state = "";
  enabled_state = "";
}

unfoldable pub same : ServiceUnit → ServiceUnit → Bool
same u p =
    str_eq u.description p.description
    && str_eq u.load_state p.load_state
    && str_eq u.active_state p.active_state
    && str_eq u.sub_state p.sub_state
    && str_eq u.enabled_state p.enabled_state

-- if new != old { d.field = new }
abbrev pub changed_field : String → String → String
changed_field new old = if str_eq new old then "" else new

-- `d` of diffUnits
abbrev pub difference : ServiceUnit → ServiceUnit → ServiceUnit
difference u p = record {
  name = u.name;
  description = changed_field u.description p.description;
  load_state = changed_field u.load_state p.load_state;
  active_state = changed_field u.active_state p.active_state;
  sub_state = changed_field u.sub_state p.sub_state;
  enabled_state = changed_field u.enabled_state p.enabled_state;
}

-- The entry of diffUnits for one unit, before the entries for the others.
abbrev pub differing : Option ServiceUnit → ServiceUnit → List ServiceUnit → List ServiceUnit
differing none u rest = u ∷ rest
differing (some p) u rest = if same u p then rest else difference u p ∷ rest

unfoldable pub diff_units : Map String ServiceUnit → List ServiceUnit → List ServiceUnit
unfolding same
diff_units prev [] = []
diff_units prev (u ∷ cur) = differing (lookup u.name prev) u (diff_units prev cur)

-- The loop of indexUnits, onto the map made so far.
unfoldable pub index_onto : Map String ServiceUnit → List ServiceUnit → Map String ServiceUnit
unfolding insert
index_onto out [] = out
index_onto out (u ∷ units) = index_onto (insert u.name u out) units

unfoldable pub index_units : List ServiceUnit → Map String ServiceUnit
unfolding index_onto
index_units units = index_onto [] units

-- The calls of the bus, by their method names.
pub record Bus {ℓ} (W : Type ℓ) : Type ℓ where
  pub list_units_call : W → Reply × W
  pub get_unit_file_state : String → W → Reply × W
  pub get_unit : String → W → Reply × W
  -- Properties.Get of the unit at a path, and Properties.GetAll of it
  pub get_id : String → W → Reply × W
  pub get_all : String → W → Reply × W
  pub add_match : W → Reply × W
  pub subscribe_call : W → Reply × W

-- call.Err, and call.Body[0]
unfoldable pub first_of : String → Reply → Result ServiceError Argument
first_of what (err e) = err (failure (what ++ ": " ++ e))
first_of what (ok []) = err (failure (what ++ ": empty reply"))
first_of what (ok (a ∷ _)) = ok a

-- A row that `listUnits` keeps, still without its enabled state.
unfoldable pub read_row : List Value → Option ServiceUnit
unfolding is_service
read_row (n ∷ d ∷ l ∷ a ∷ s ∷ _) =
    if is_service (as_text n)
    then some record {
      name = as_text n;
      description = as_text d;
      load_state = as_text l;
      active_state = as_text a;
      sub_state = as_text s;
      enabled_state = "";
    }
    else none
read_row _ = none

module _ {ℓ} {W : Type ℓ} (bus : Bus W) where
  -- unitFileState: an error is the empty state.
  abbrev file_state : Reply → String
  file_state (ok (a ∷ _)) = argument_text a
  file_state _ = ""

  unfoldable pub unit_file_state : String → W → String × W
  unit_file_state name w =
      let (reply, w') = bus.get_unit_file_state name w in (file_state reply, w')

  -- The loop of listUnits.
  unfoldable pub read_rows : List (List Value) → W → List ServiceUnit × W
  unfolding read_row unit_file_state
  read_rows [] w = ([], w)
  read_rows (r ∷ rs) w = elim (read_row r) [
    | none ↦ read_rows rs w
    | some u ↦
        let (state, w1) = unit_file_state u.name w in
        let (units, w2) = read_rows rs w1 in (record u { enabled_state = state } ∷ units, w2)
  ]

  abbrev pub read_listing :
      Result ServiceError Argument → W → Result ServiceError (List ServiceUnit) × W
  read_listing (err e) w = (err e, w)
  read_listing (ok (rows raw)) w = let (units, w') = read_rows raw w in (ok units, w')
  read_listing (ok _) w = (err (failure "list units: unexpected reply shape"), w)

  unfoldable pub list_units : W → Result ServiceError (List ServiceUnit) × W
  unfolding first_of read_rows
  list_units w =
      let (reply, w') = bus.list_units_call w in read_listing (first_of "list units" reply) w'
