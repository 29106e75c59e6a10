-- ===== src/Services/Watch.antt =====
-- The manager of server/internal/services/systemd.go and its changeBroker.
-- A channel is the number under which `subs` has it, with what it buffers, oldest first. A step of
-- the goroutine `watch` is one function: nobody else writes `state`, and a subscriber sees only what
-- is published to it. `watching` is that `watchOnce` has fired.
pub mod Client
pub mod Following
pub mod Steps
pub mod InStep
use lumio_os.Prelude.{
  ℕ, ◌+◌, ltb, String, Bool, true, false, ◌&&◌, ◌||◌, not, Option, none, some, List, [], ◌∷◌, ◌++◌,
  str_eq, if◌then◌else◌, string_eq, nat_eq,
}
use lumio_os.Prelude.Lists.{length}
use lumio_os.Prelude.Map.{Map, lookup, insert, delete}
use lumio_os.Prelude.Action.{Result, ok, err}
use lumio_os.Prelude.Dbus.{
  Value, text, texts, object, paths, other, Argument, value, variant, properties, Reply, as_text,
  argument_text, unit_iface, is_service,
}
use lumio_os.Services.Units.{
  ServiceUnit, ServiceError, err_unavailable, blank, diff_units, index_units, Bus, list_units,
}

pub record Manager : Type 0 where
  pub connected : Bool
  pub watching : Bool
  pub units : Map String ServiceUnit
  pub path_names : Map String String
  pub subs : Map ℕ (List ServiceUnit)
  pub next_channel : ℕ

abbrev pub subscriber_size : ℕ
subscriber_size = 64

-- select { case ch <- u: default: }
abbrev pub offer : ServiceUnit → List ServiceUnit → List ServiceUnit
offer u queue = if ltb (length queue) subscriber_size then queue ++ u ∷ [] else queue

unfoldable pub offer_all : ServiceUnit → Map ℕ (List ServiceUnit) → Map ℕ (List ServiceUnit)
offer_all u [] = []
offer_all u ((k, queue) ∷ subs) = (k, offer u queue) ∷ offer_all u subs

unfoldable pub publish : ServiceUnit → Manager → Manager
unfolding offer_all
publish u m = record m { subs = offer_all u m.subs }

unfoldable pub publish_all : List ServiceUnit → Manager → Manager
unfolding publish
publish_all [] m = m
publish_all (u ∷ us) m = publish_all us (publish u m)

unfoldable pub subscribe : Manager → ℕ × Manager
unfolding insert
subscribe m = (
  m.next_channel,
  record m { subs = insert m.next_channel [] m.subs; next_channel = m.next_channel + 1 },
)

unfoldable pub unsubscribe : ℕ → Manager → Manager
unfolding delete
unsubscribe k m = record m { subs = delete k m.subs }

unfoldable pub subscribe_changes : Manager → Result ServiceError ℕ × Manager
unfolding subscribe
subscribe_changes m =
    if m.connected
    then (let (k, m') = subscribe (record m { watching = true }) in (ok k, m'))
    else (err err_unavailable, m)

-- u := <-ch
unfoldable pub receive : ℕ → Manager → Option ServiceUnit × Manager
unfolding lookup insert
receive k m = elim (lookup k m.subs) [
  | some (u ∷ queue) ↦ (some u, record m { subs = insert k queue m.subs })
  | _ ↦ (none, m)
]

-- What the goroutine `watch` waits for.
pub record Signal : Type 0 where
  pub name : String
  pub path : String
  pub body : List Argument

pub data WatchEvent : Type 0 where
  signalled : Signal → WatchEvent
  ticked : WatchEvent

-- `fmt.Sprint` of a list of texts
abbrev joined : List String → String
joined [] = ""
joined (s ∷ []) = s
joined (s ∷ t ∷ rest) = Prim.Native.String.◌++◌ s (Prim.Native.String.◌++◌ " " (joined (t ∷ rest)))

unfoldable pub variant_string : Value → String
variant_string (text s) = s
variant_string (texts values) =
    Prim.Native.String.◌++◌ "[" (Prim.Native.String.◌++◌ (joined values) "]")
variant_string (object path) = path
variant_string (paths values) =
    Prim.Native.String.◌++◌ "[" (Prim.Native.String.◌++◌ (joined values) "]")
variant_string (other printed) = printed

-- if v, ok := changed[key]; ok { patch.field = variantString(v) }
abbrev changed_string : String → Map String Value → String
changed_string key changed = elim (lookup key changed) [ none ↦ "" | some v ↦ variant_string v ]

unfoldable pub read_patch : String → Map String Value → ServiceUnit
unfolding lookup variant_string
read_patch name changed = record {
  name = name;
  description = changed_string "Description" changed;
  load_state = changed_string "LoadState" changed;
  active_state = changed_string "ActiveState" changed;
  sub_state = changed_string "SubState" changed;
  enabled_state = "";
}

-- if patch.field != "" { next.field = patch.field }
abbrev pub filled : String → String → String
filled new old = if str_eq new "" then old else new

abbrev pub fill : ServiceUnit → ServiceUnit → ServiceUnit
fill prev patch = record prev {
  description = filled patch.description prev.description;
  load_state = filled patch.load_state prev.load_state;
  active_state = filled patch.active_state prev.active_state;
  sub_state = filled patch.sub_state prev.sub_state;
}

abbrev pub known_or_blank : String → Option ServiceUnit → ServiceUnit
known_or_blank name none = blank name
known_or_blank name (some u) = u

abbrev pub says_nothing : ServiceUnit → Bool
says_nothing patch =
    str_eq patch.description ""
    && str_eq patch.load_state ""
    && str_eq patch.active_state ""
    && str_eq patch.sub_state ""

-- The end of handlePropertiesChanged: the unit is written, and what changed is published.
unfoldable pub replace_unit : String → ServiceUnit → ServiceUnit → Manager → Manager
unfolding insert diff_units publish_all
replace_unit name prev next m =
    publish_all (diff_units ((name, prev) ∷ []) (next ∷ []))
      (record m { units = insert name next m.units })

unfoldable pub apply_patch : String → ServiceUnit → Manager → Manager
unfolding replace_unit lookup
apply_patch name patch m =
    if says_nothing patch
    then m
    else let prev = known_or_blank name (lookup name m.units) in
      replace_unit name prev (fill prev patch) m

-- m.state = indexUnits(units), and what differs is published.
unfoldable pub take_listing : List ServiceUnit → Manager → Manager
unfolding diff_units index_units publish_all
take_listing units m =
    publish_all (diff_units m.units units) (record m { units = index_units units })

abbrev id_text : Reply → String
id_text (ok (variant v ∷ _)) = as_text v
id_text _ = ""

abbrev remember : String → String → Manager → Manager
remember path name m =
    if str_eq name "" then m else record m { path_names = insert path name m.path_names }

abbrev told_name : Map String Value → String
told_name changed = elim (lookup "Id" changed) [ none ↦ "" | some v ↦ as_text v ]

abbrev answered : Reply → Bool
answered (ok _) = true
answered (err _) = false

unfoldable pub index_listing : List ServiceUnit → Manager → Manager
unfolding index_units
index_listing units m = record m { units = index_units units }

module _ {ℓ} {W : Type ℓ} where
  abbrev pub apply_named : Map String Value → String × Manager × W → Manager × W
  apply_named changed (name, m, w) =
      if str_eq name "" || not (is_service name)
      then (m, w)
      else (apply_patch name (read_patch name changed) m, w)

  abbrev pub polled :
      (List ServiceUnit → Manager → Manager)
      → Manager
      → Result ServiceError (List ServiceUnit) × W
      → Manager × W
  polled next m (err e, w) = (m, w)
  polled next m (ok units, w) = (next units m, w)

module _ {ℓ} {W : Type ℓ} (bus : Bus W) where
  unfoldable pub unit_id : String → Manager → W → String × Manager × W
  unfolding lookup insert
  unit_id path m w = elim (lookup path m.path_names) [
    | some cached ↦ (cached, m, w)
    | none ↦
        let (reply, w') = bus.get_id path w in
        let name = id_text reply in (name, remember path name m, w')
  ]

  -- The name of the unit whose properties changed: from the signal, or else from its path.
  unfoldable pub signal_name : String → Map String Value → Manager → W → String × Manager × W
  unfolding lookup unit_id
  signal_name path changed m w =
      if str_eq (told_name changed) "" then unit_id path m w else (told_name changed, m, w)

  unfoldable pub handle_properties_changed : String → List Argument → Manager → W → Manager × W
  unfolding signal_name is_service apply_patch read_patch
  handle_properties_changed path (iface ∷ properties changed ∷ _) m w =
      if str_eq (argument_text iface) unit_iface
      then apply_named changed (signal_name path changed m w)
      else (m, w)
  handle_properties_changed path _ m w = (m, w)

  unfoldable pub poll : Manager → W → Manager × W
  unfolding list_units take_listing
  poll m w = polled take_listing m (list_units bus w)

  -- One turn of the loop of `watch`.
  unfoldable pub watch_step : WatchEvent → Manager → W → Manager × W
  unfolding poll handle_properties_changed
  watch_step ticked m w = poll m w
  watch_step (signalled sig) m w =
      if str_eq sig.name "org.freedesktop.DBus.Properties.PropertiesChanged"
      then handle_properties_changed sig.path sig.body m w
      else if str_eq sig.name "org.freedesktop.systemd1.Manager.UnitNew"
          || str_eq sig.name "org.freedesktop.systemd1.Manager.UnitRemoved"
      then poll m w
      else (m, w)

  -- `watch` up to its loop: false is that it returned.
  unfoldable pub start_watch : Manager → W → Bool × Manager × W
  unfolding list_units index_listing
  start_watch m w =
      let (m1, w1) = polled index_listing m (list_units bus w) in
      let (matched, w2) = bus.add_match w1 in
      let (subscribed, w3) = bus.subscribe_call w2 in
      if answered matched then (answered subscribed, m1, w3) else (false, m1, w2)

  unfoldable pub list : Manager → W → Result ServiceError (List ServiceUnit) × W
  unfolding list_units
  list m w = if m.connected then list_units bus w else (err err_unavailable, w)
