-- ===== src/Files/User/List.antt =====
-- `List` and `entryType` of server/internal/files/files.go.
-- `read_dir` gives the entries of a directory, each with its `Info` unless the call for it fails. The
-- names in a directory differ.
use lumio_os.Prelude.{ℕ, String, Bool, not, Option, none, some, List, [], ◌∷◌, if◌then◌else◌}
use lumio_os.Prelude.Text.{codes}
use lumio_os.Prelude.Sort.{before, sorted}
use lumio_os.Prelude.Action.{Result, ok, err, ◌>>=◌, ◌>>◌, pure, guard}
use lumio_os.Files.System.{Error, err_validation, not_found, Info, System, M, read}
use lumio_os.Files.User.{clean_path}

pub record ListEntry : Type 0 where
  pub name : String
  pub kind : String
  pub size_bytes : ℕ
  pub mode : String
  pub modified_at : String
  pub symlink_target : Option String

pub record ListResult : Type 0 where
  pub path : String
  pub entries : List ListEntry

-- os.ReadDir with DirEntry.Info, os.Readlink, and the texts that fmt and time make.
pub record Directory {ℓ} (W : Type ℓ) : Type ℓ where
  pub read_dir : String → W → Result Error (List (String × Option Info))
  pub read_link : String → W → Option String
  pub print_mode : ℕ → String
  pub modified : String → W → String

unfoldable pub entry_type : Info → String
entry_type info =
    if info.is_dir
    then "directory"
    else if info.is_symlink
    then "symlink"
    else if info.is_regular
    then "file"
    else "other"

abbrev name_before : ListEntry → ListEntry → Bool
name_before a b = before (codes a.name) (codes b.name)

abbrev present : String → Result Error (Option Info) → Result Error Info
present path (err e) = err e
present path (ok none) = err (not_found path)
present path (ok (some info)) = ok info

module _ {ℓ} {W : Type ℓ} (sys : System W) (dir : Directory W) where
  -- The loop over the entries; one whose information cannot be had is left out.
  unfoldable pub list_entries : String → List (String × Option Info) → W → List ListEntry
  unfolding entry_type
  list_entries real [] w = []
  list_entries real ((name, none) ∷ rest) w = list_entries real rest w
  list_entries real ((name, some info) ∷ rest) w =
      record {
        name = name;
        kind = entry_type info;
        size_bytes = info.size;
        mode = dir.print_mode info.mode;
        modified_at = dir.modified (sys.join real name) w;
        symlink_target = if info.is_symlink then dir.read_link (sys.join real name) w else none;
      }
      ∷ list_entries real rest w

  unfoldable pub list : String → M W ListResult
  unfolding clean_path list_entries sorted before
  list p = do
    clean ← clean_path sys p
    real ← read (sys.eval_symlinks clean)
    info ← read (λ w. present real (sys.stat real w))
    guard (not info.is_dir) (err_validation "path is not a directory")
    found ← read (dir.read_dir real)
    entries ← read (λ w. ok (sorted name_before (list_entries real found w)))
    pure record { path = clean; entries = entries }
