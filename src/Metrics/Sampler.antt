-- ===== src/Metrics/Sampler.antt =====
-- `Sampler` of server/internal/system/metrics.go. Floating-point numbers are a parameter: `percent` is
-- the rounded share of a total, `per_second` the rounded rate of a number of bytes in so many nanoseconds.
pub mod Consistent
mod Examples
use lumio_os.Prelude.{
  ℕ, ◌+◌, ◌-◌, ◌%◌, Bool, true, false, ◌||◌, Option, none, some, List, [], ◌∷◌, ltb, leb, ◌==◌,
  if◌then◌else◌,
}
use lumio_os.Prelude.Text.{codes_eq, words, trim}
use lumio_os.Prelude.Sort.{before, sorted}
use lumio_os.Prelude.Map.{Map, lookup}
use lumio_os.Metrics.Parse.{
  Text, word, CpuTimes, NetTimes, parse_cpu_times, parse_meminfo, parse_net_dev, real_mounts,
}

pub record Floats {ℓ} (F : Type ℓ) : Type ℓ where
  pub zero_float : F
  pub parse : Text → Option F
  pub percent : ℕ → ℕ → F
  pub per_second : ℕ → ℕ → ℕ

pub record DiskUsage : Type 0 where
  pub mount : Text
  pub total_bytes : ℕ
  pub used_bytes : ℕ

pub record NetUsage : Type 0 where
  pub interface : Text
  pub rx_bytes_per_sec : ℕ
  pub tx_bytes_per_sec : ℕ

pub record MemoryUsage : Type 0 where
  pub total_bytes : ℕ
  pub used_bytes : ℕ
  pub available_bytes : ℕ

pub record Sample {ℓ} (F : Type ℓ) : Type ℓ where
  pub ts : ℕ
  pub usage_percent : F
  pub load1 : F
  pub load5 : F
  pub load15 : F
  pub cores : ℕ
  pub memory : MemoryUsage
  pub disks : List DiskUsage
  pub network : List NetUsage

-- `prev_cpu` is none before the first sample, and `prev_net_at` as long as it is Go's zero time.
pub record Sampler : Type 0 where
  pub prev_cpu : Option CpuTimes
  pub prev_net : Map Text NetTimes
  pub prev_net_at : Option ℕ

-- The files of /proc, statfs, the number of processors, and the clock in nanoseconds.
pub record Machine : Type 0 where
  pub stat : Option Text
  pub loadavg : Option Text
  pub meminfo : Option Text
  pub net_dev : Option Text
  pub mounts : Option Text
  pub statfs : Text → Option (ℕ × ℕ)
  pub cores : ℕ
  pub now : ℕ
  pub unix_milli : ℕ

-- A difference of two uint64, which wraps around.
abbrev pub minus : ℕ → ℕ → ℕ
minus a b = (a + word - b) % word

-- The guard in front of it.
abbrev pub below : ℕ → ℕ → ℕ
below total part = if leb part total then minus total part else 0

abbrev no_memory : MemoryUsage
no_memory = record { total_bytes = 0; used_bytes = 0; available_bytes = 0 }

abbrev pub memory_usage : Option (ℕ × ℕ) → MemoryUsage
memory_usage none = no_memory
memory_usage (some (total, available)) = record {
  total_bytes = total;
  used_bytes = below total available;
  available_bytes = available;
}

abbrev pub memory_of : Option Text → MemoryUsage
memory_of none = no_memory
memory_of (some content) = memory_usage (parse_meminfo content)

abbrev pub disk_entry : Text → Option (ℕ × ℕ) → List DiskUsage → List DiskUsage
disk_entry mount none rest = rest
disk_entry mount (some (total, free)) rest =
    if total == 0
    then rest
    else record { mount = mount; total_bytes = total; used_bytes = below total free } ∷ rest

unfoldable pub disks_of : (Text → Option (ℕ × ℕ)) → List Text → List DiskUsage
disks_of statfs [] = []
disks_of statfs (mount ∷ mounts) = disk_entry mount (statfs mount) (disks_of statfs mounts)

unfoldable pub names_of : Map Text NetTimes → List Text
names_of [] = []
names_of ((name, t) ∷ cur) = name ∷ names_of cur

module _ {ℓ} {F : Type ℓ} (floats : Floats F) where
  unfoldable pub cpu_usage_percent : CpuTimes → CpuTimes → F
  cpu_usage_percent prev cur =
      let d_total = minus cur.total prev.total in
      let d_idle = below cur.idle prev.idle in
      if leb cur.total prev.total || leb d_total d_idle
      then floats.zero_float
      else floats.percent (minus d_total d_idle) d_total

  unfoldable pub rate : ℕ → ℕ → ℕ → ℕ
  rate prev cur dt = if ltb cur prev then 0 else floats.per_second (minus cur prev) dt

  abbrev pub usage_of : Option CpuTimes → Option CpuTimes → F
  usage_of none cur = floats.zero_float
  usage_of (some prev) none = floats.zero_float
  usage_of (some prev) (some cur) = cpu_usage_percent prev cur

  abbrev pub net_entry :
      ℕ → Text → Option NetTimes → Option NetTimes → List NetUsage → List NetUsage
  net_entry dt name (some prev) (some cur) rest =
      record {
        interface = name;
        rx_bytes_per_sec = rate prev.rx cur.rx dt;
        tx_bytes_per_sec = rate prev.tx cur.tx dt;
      }
      ∷ rest
  net_entry dt name prev cur rest = rest

  unfoldable pub net_entries : Map Text NetTimes → Map Text NetTimes → ℕ → List Text → List NetUsage
  unfolding rate lookup
  net_entries prev cur dt [] = []
  net_entries prev cur dt (name ∷ names) =
      net_entry dt name (lookup name prev) (lookup name cur) (net_entries prev cur dt names)

  abbrev pub network_of :
      Map Text NetTimes → Option ℕ → ℕ → Option (Map Text NetTimes) → List NetUsage
  network_of prev at now (some cur) = elim at [
    | none ↦ []
    | some before_now ↦
        if ltb before_now now
        then net_entries prev cur (now - before_now) (sorted before (names_of cur))
        else []
  ]
  network_of prev at now none = []

  abbrev parsed_load : List Text → Option (F × F × F)
  parsed_load (a ∷ b ∷ c ∷ _) = elim (floats.parse a) [
    | none ↦ none
    | some l1 ↦ elim (floats.parse b) [
      | none ↦ none
      | some l5 ↦ elim (floats.parse c) [ none ↦ none | some l15 ↦ some (l1, l5, l15) ]
    ]
  ]
  parsed_load _ = none

  unfoldable pub parse_loadavg : Text → Option (F × F × F)
  unfolding words
  parse_loadavg line = parsed_load (words line)

  abbrev loads : Option (F × F × F) → F × F × F
  loads none = (floats.zero_float, floats.zero_float, floats.zero_float)
  loads (some l) = l

  abbrev load_of : Option Text → F × F × F
  load_of none = loads none
  load_of (some content) = loads (parse_loadavg (trim content))

  abbrev pub times_of : Option Text → Option CpuTimes
  times_of none = none
  times_of (some content) = parse_cpu_times content

  abbrev pub counters_of : Option Text → Option (Map Text NetTimes)
  counters_of none = none
  counters_of (some content) = some (parse_net_dev content)

  abbrev next_cpu : Option CpuTimes → Option CpuTimes → Option CpuTimes
  next_cpu old none = old
  next_cpu old (some cur) = some cur

  abbrev next_net : ℕ → Option (Map Text NetTimes) → Sampler → Sampler
  next_net now none s = s
  next_net now (some cur) s = record s { prev_net = cur; prev_net_at = some now }

  unfoldable pub sample : Machine → Sampler → Sample F × Sampler
  unfolding parse_cpu_times parse_meminfo parse_net_dev real_mounts disks_of names_of net_entries
      cpu_usage_percent parse_loadavg sorted before trim
  sample m s =
      let (l1, l5, l15) = load_of m.loadavg in
      let cur = times_of m.stat in
      let net = counters_of m.net_dev in
      (
        record {
          ts = m.unix_milli;
          usage_percent = usage_of s.prev_cpu cur;
          load1 = l1;
          load5 = l5;
          load15 = l15;
          cores = m.cores;
          memory = memory_of m.meminfo;
          disks = disks_of m.statfs (real_mounts m.mounts);
          network = network_of s.prev_net s.prev_net_at m.now net;
        },
        next_net m.now net (record s { prev_cpu = next_cpu s.prev_cpu cur }),
      )
