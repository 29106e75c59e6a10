-- ===== src/Metrics/Parse.antt =====
-- The parsers of server/internal/system/metrics.go. A file is the code points of its text. A line of
-- /proc/meminfo is shorter than the 64 KiB at which its scanner would stop.
use lumio_os.Prelude.{
  ℕ, ◌+◌, ◌*◌, ◌^◌, ◌%◌, Bool, false, ◌||◌, not, Option, none, some, List, [], ◌∷◌, ◌++◌, ◌==◌,
  if◌then◌else◌,
}
use lumio_os.Prelude.Text.{
  codes, split, same_codes, words, trim, cut, has_prefix, parse_uint, codes_eq,
}
use lumio_os.Prelude.Map.{Map, insert}

abbrev pub Text : Type 0
Text = List ℕ

abbrev pub newline : ℕ
newline = 10

-- uint64
abbrev pub word : ℕ
word = 2 ^ 64

pub record CpuTimes : Type 0 where
  pub total : ℕ
  pub idle : ℕ

pub record NetTimes : Type 0 where
  pub rx : ℕ
  pub tx : ℕ

-- The loop over the numbers of the line of all processors; `i` counts them.
abbrev add_time : ℕ → Option ℕ → CpuTimes → Option CpuTimes
add_time i none t = none
add_time i (some v) t = some record {
  total = (t.total + v) % word;
  idle = if i == 3 || i == 4 then (t.idle + v) % word else t.idle;
}

unfoldable pub sum_times : ℕ → List Text → CpuTimes → Option CpuTimes
unfolding parse_uint
sum_times i [] t = some t
sum_times i (f ∷ fields) t = elim (add_time i (parse_uint word f) t) [
  | none ↦ none
  | some t' ↦ sum_times (i + 1) fields t'
]

abbrev times_of : List Text → Option CpuTimes
times_of (_ ∷ a ∷ b ∷ c ∷ d ∷ rest) =
    sum_times 0 (a ∷ b ∷ c ∷ d ∷ rest) (record { total = 0; idle = 0 })
times_of _ = none

unfoldable pub find_times : List Text → Option CpuTimes
unfolding sum_times words has_prefix
find_times [] = none
find_times (line ∷ lines) =
    let rest = find_times lines in
    if has_prefix (codes "cpu ") line then times_of (words line) else rest

unfoldable pub parse_cpu_times : Text → Option CpuTimes
unfolding find_times split
parse_cpu_times content = find_times (split newline content)

-- The two numbers of /proc/meminfo, as far as they were found.
pub record Found : Type 0 where
  pub total : Option ℕ
  pub available : Option ℕ

-- The first word of the rest of a line, in bytes.
abbrev kilobytes : List Text → Option ℕ
kilobytes [] = none
kilobytes (f ∷ _) = elim (parse_uint word f) [ none ↦ none | some v ↦ some (v * 1024 % word) ]

abbrev or_kept : Option ℕ → Option ℕ → Option ℕ
or_kept none old = old
or_kept (some v) old = some v

abbrev found_in : Text → Text → Found → Found
found_in key rest f =
    if same_codes key (codes "MemTotal")
    then record f { total = or_kept (kilobytes (words rest)) f.total }
    else if same_codes key (codes "MemAvailable")
    then record f { available = or_kept (kilobytes (words rest)) f.available }
    else f

unfoldable pub read_memory : List Text → Found → Found
unfolding words trim cut parse_uint
read_memory [] f = f
read_memory (line ∷ lines) f = elim (cut b':' line) [
  | none ↦ read_memory lines f
  | some (key, rest) ↦ read_memory lines (found_in (trim key) rest f)
]

abbrev both : Found → Option (ℕ × ℕ)
both f = elim f.total [
  | none ↦ none
  | some total ↦ elim f.available [ none ↦ none | some available ↦ some (total, available) ]
]

unfoldable pub parse_meminfo : Text → Option (ℕ × ℕ)
unfolding read_memory split
parse_meminfo content =
    both (read_memory (split newline content) (record { total = none; available = none }))

abbrev pub counters : List Text → Option NetTimes
counters (rx ∷ _ ∷ _ ∷ _ ∷ _ ∷ _ ∷ _ ∷ _ ∷ tx ∷ _) = elim (parse_uint word rx) [
  | none ↦ none
  | some r ↦ elim (parse_uint word tx) [ none ↦ none | some t ↦ some record { rx = r; tx = t } ]
]
counters _ = none

abbrev pub is_loopback : Text → Bool
is_loopback name = same_codes name [] || same_codes name (codes "lo")

abbrev pub note_counters : Text → Option NetTimes → Map Text NetTimes → Map Text NetTimes
note_counters name none out = out
note_counters name (some t) out = if is_loopback name then out else insert name t out

unfoldable pub read_interfaces : List Text → Map Text NetTimes → Map Text NetTimes
unfolding words trim cut parse_uint insert
read_interfaces [] out = out
read_interfaces (line ∷ lines) out = elim (cut b':' line) [
  | none ↦ read_interfaces lines out
  | some (name, rest) ↦
      read_interfaces lines (note_counters (trim name) (counters (words rest)) out)
]

unfoldable pub parse_net_dev : Text → Map Text NetTimes
unfolding read_interfaces split
parse_net_dev content = read_interfaces (split newline content) []

unfoldable pub is_listed : Text → List Text → Bool
is_listed mount [] = false
is_listed mount (m ∷ mounts) = same_codes m mount || is_listed mount mounts

-- A mount of a device that is no loop device, once.
abbrev note_mount : List Text → List Text → List Text
note_mount (device ∷ mount ∷ _) out =
    if not (has_prefix (codes "/dev/") device) || has_prefix (codes "/dev/loop") device
    then out
    else if is_listed mount out
    then out
    else out ++ mount ∷ []
note_mount _ out = out

unfoldable pub read_mounts : List Text → List Text → List Text
unfolding words has_prefix is_listed
read_mounts [] out = out
read_mounts (line ∷ lines) out = read_mounts lines (note_mount (words line) out)

unfoldable pub parse_mounts : Text → List Text
unfolding read_mounts split
parse_mounts content = read_mounts (split newline content) []

abbrev or_root : List Text → List Text
or_root [] = codes "/" ∷ []
or_root (m ∷ mounts) = m ∷ mounts

unfoldable pub real_mounts : Option Text → List Text
unfolding parse_mounts
real_mounts none = codes "/" ∷ []
real_mounts (some content) = or_root (parse_mounts content)
