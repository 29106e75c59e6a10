-- ===== src/Prelude/Dbus.antt =====
-- What github.com/godbus/dbus hands over: the values of a reply or a signal, as far as the program
-- tells their Go types apart. `other` is a value of a further type, with what `fmt.Sprint` prints.
use mathlib.Core.Bool.{Bool}
use mathlib.Core.List.{List}
use Prim.Native.String.{String}
use lumio_os.Prelude.Action.{Result}
use lumio_os.Prelude.Map.{Map}
use lumio_os.Prelude.Text.{codes, ends_with}

pub data Value : Type 0 where
  text : String → Value
  texts : List String → Value
  object : String → Value
  paths : List String → Value
  other : String → Value

-- One entry of `call.Body` or `sig.Body`.
pub data Argument : Type 0 where
  value : Value → Argument
  variant : Value → Argument
  rows : List (List Value) → Argument
  properties : Map String Value → Argument

-- `call.Err` as its text, or `call.Body`.
abbrev pub Reply : Type 0
Reply = Result String (List Argument)

-- s, _ := v.(string)
abbrev pub as_text : Value → String
as_text (text s) = s
as_text _ = ""

abbrev pub argument_text : Argument → String
argument_text (value v) = as_text v
argument_text _ = ""

abbrev pub unit_iface : String
unit_iface = "org.freedesktop.systemd1.Unit"

abbrev pub service_suffix : String
service_suffix = ".service"

-- strings.HasSuffix(name, ".service")
unfoldable pub is_service : String → Bool
unfolding ends_with
is_service name = ends_with (codes service_suffix) (codes name)
