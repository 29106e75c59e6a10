-- ===== src/Services/Detail.antt =====
-- `Detail` of server/internal/services/systemd.go: what a unit depends on, and its files.
-- `open_read` is os.Open with the read of at most so many bytes: `none` is an error of either.
use lumio_os.Prelude.{
  ℕ, ◌+◌, ◌^◌, ltb, String, Bool, true, false, ◌&&◌, ◌||◌, Option, none, some, List, [], ◌∷◌, ◌++◌,
  map, str_eq, if◌then◌else◌, string_eq,
}
use lumio_os.Prelude.Text.{codes}
use lumio_os.Prelude.Sort.{before, sorted}
use lumio_os.Prelude.Lists.{length}
use lumio_os.Prelude.Map.{Map, lookup}
use lumio_os.Prelude.Action.{Result, ok, err}
use lumio_os.Prelude.Dbus.{Value, texts, paths, object, Argument, value, properties}
use lumio_os.Services.Units.{ServiceError, failure, err_unavailable, Bus, first_of}
use lumio_os.Services.Watch.{Manager, unit_id, variant_string}

pub record Dependency : Type 0 where
  pub name : String
  pub relation : String

-- `content` is the bytes of the file.
pub record UnitFile : Type 0 where
  pub path : String
  pub content : List ℕ
  pub overriding : Bool
  pub error : String

pub record Detail : Type 0 where
  pub name : String
  pub documentation : List String
  pub dependencies : List Dependency
  pub files : List UnitFile

abbrev pub max_unit_file_size : ℕ
max_unit_file_size = 2 ^ 20

unfoldable pub dependency_before : Dependency → Dependency → Bool
unfolding before
dependency_before a b =
    if str_eq a.relation b.relation
    then before (codes a.name) (codes b.name)
    else before (codes a.relation) (codes b.relation)

-- v.Value().([]string) and v.Value().([]dbus.ObjectPath), of a property that may be missing
abbrev pub variant_strings : Option Value → List String
variant_strings (some (texts values)) = values
variant_strings _ = []

abbrev pub variant_object_paths : Option Value → List String
variant_object_paths (some (paths values)) = values
variant_object_paths _ = []

-- The text of a property; one that is missing holds nil, which is printed as "<nil>".
abbrev property_string : Option Value → String
property_string none = "<nil>"
property_string (some v) = variant_string v

unfoldable pub has_dependency : Dependency → List Dependency → Bool
has_dependency d [] = false
has_dependency d (e ∷ ds) =
    (str_eq e.relation d.relation && str_eq e.name d.name) || has_dependency d ds

-- One turn of the inner loop of `dependencies`; the keys of `seen` are what is in the list.
unfoldable pub note_dependency : Dependency → List Dependency → List Dependency
unfolding has_dependency
note_dependency d ds = if str_eq d.name "" || has_dependency d ds then ds else ds ++ d ∷ []

module _ {ℓ} {W : Type ℓ} (bus : Bus W) where
  unfoldable pub related :
      String → List String → List Dependency → Manager → W → List Dependency × Manager × W
  unfolding unit_id note_dependency
  related relation [] ds m w = (ds, m, w)
  related relation (path ∷ rest) ds m w =
      let (name, m', w') = unit_id bus path m w in
      related relation rest (note_dependency (record { name = name; relation = relation }) ds) m' w'

  unfoldable pub dependencies : Map String Value → Manager → W → List Dependency × Manager × W
  unfolding lookup related sorted dependency_before
  dependencies props m w =
      let (ds, m1, w1) =
        related "requires" (variant_object_paths (lookup "Requires" props)) [] m w in
      let (ds', m2, w2) = related "wants" (variant_object_paths (lookup "Wants" props)) ds m1 w1 in
      (sorted dependency_before ds', m2, w2)

module _ (open_read : ℕ → String → Option (List ℕ)) where
  abbrev read_content : String → Bool → Option (List ℕ) → UnitFile
  read_content path overriding none = record {
    path = path;
    content = [];
    overriding = overriding;
    error = "Unable to read this unit file.";
  }
  read_content path overriding (some content) =
      if ltb max_unit_file_size (length content)
      then record {
        path = path;
        content = [];
        overriding = overriding;
        error = "This unit file is too large to display.";
      }
      else record { path = path; content = content; overriding = overriding; error = "" }

  unfoldable pub read_unit_file : String → Bool → UnitFile
  read_unit_file path overriding =
      read_content path overriding (open_read (max_unit_file_size + 1) path)

  abbrev fragment : String → List UnitFile → List UnitFile
  fragment path files = if str_eq path "" then files else read_unit_file path false ∷ files

  unfoldable pub unit_files : Map String Value → List UnitFile
  unfolding lookup read_unit_file variant_string
  unit_files props =
      fragment (property_string (lookup "FragmentPath" props))
        (map (λ path. read_unit_file path true) (variant_strings (lookup "DropInPaths" props)))

abbrev pub Answered {ℓ} : Type ℓ → Type ℓ
Answered W = Result ServiceError Detail × Manager × W

abbrev path_argument : Argument → Option String
path_argument (value (object path)) = some path
path_argument _ = none

abbrev properties_argument : Argument → Option (Map String Value)
properties_argument (properties props) = some props
properties_argument _ = none

module _ {ℓ} {W : Type ℓ} (bus : Bus W) (open_read : ℕ → String → Option (List ℕ))
    (name : String) where
  abbrev described : Map String Value → Manager → W → Answered W
  described props m w =
      let (ds, m', w') = dependencies bus props m w in
      (
        ok record {
          name = name;
          documentation = variant_strings (lookup "Documentation" props);
          dependencies = ds;
          files = unit_files open_read props;
        },
        m',
        w',
      )

  abbrev with_properties : Result ServiceError Argument → Manager → W → Answered W
  with_properties (err e) m w = (err e, m, w)
  with_properties (ok a) m w = elim (properties_argument a) [
    | none ↦ (err (failure "get unit properties: unexpected reply shape"), m, w)
    | some props ↦ described props m w
  ]

  abbrev with_path : Result ServiceError Argument → Manager → W → Answered W
  with_path (err e) m w = (err e, m, w)
  with_path (ok a) m w = elim (path_argument a) [
    | none ↦ (err (failure "get unit: unexpected reply shape"), m, w)
    | some path ↦
        let (reply, w') = bus.get_all path w in
        with_properties (first_of "get unit properties" reply) m w'
  ]

  unfoldable pub detail : Manager → W → Answered W
  unfolding first_of dependencies unit_files
  detail m w =
      let (reply, w') = bus.get_unit name w in
      if m.connected
      then with_path (first_of "get unit" reply) m w'
      else (err err_unavailable, m, w)
