-- ===== src/Metrics/Sampler/Examples.antt =====
-- Two samples of a small machine.
use lumio_os.Prelude.{ℕ, ◌+◌, ◌*◌, ◌≤◌, ◌≡◌, refl, none, some, [], ◌∷◌}
use lumio_os.Prelude.Text.{codes}
use lumio_os.Metrics.Parse.{parse_cpu_times, parse_meminfo, parse_net_dev, parse_mounts}
use lumio_os.Metrics.Sampler.{Floats, Sampler, Machine, times_of, sample}
use lumio_os.Metrics.Sampler.Consistent.{DisksFit, NetsFit, Rest, Usage, sample_consistent}

-- Ten times the percentage, by a whole division.
abbrev floats : Floats ℕ
floats = record {
  zero_float = 0;
  parse = λ t. none;
  percent = λ part total. part * 1000 + total;
  per_second = λ bytes dt. bytes;
}

two_times :
    parse_cpu_times (codes "intr 5\ncpu  1 2 3 4 5 6\ncpu0 9 9 9 9")
    ≡ some record { total = 21; idle = 9 }
unfolding parse_cpu_times
two_times = refl

too_short : parse_cpu_times (codes "cpu  1 2 3") ≡ none
unfolding parse_cpu_times
too_short = refl

memory_found :
    parse_meminfo (codes "MemTotal:  4 kB\nMemFree: 1 kB\nMemAvailable: 3 kB") ≡ some (4096, 3072)
unfolding parse_meminfo
memory_found = refl

no_loopback :
    parse_net_dev (codes "x | y\n lo: 1 0 0 0 0 0 0 0 2\n eth0: 7 0 0 0 0 0 0 0 8")
    ≡ (codes "eth0", record { rx = 7; tx = 8 }) ∷ []
unfolding parse_net_dev
no_loopback = refl

one_mount :
    parse_mounts (codes "proc /proc\n/dev/loop1 /snap\n/dev/sda1 / ext4\n/dev/sda1 / ext4")
    ≡ codes "/" ∷ []
unfolding parse_mounts
one_mount = refl

abbrev machine : Machine
machine = record {
  stat = some (codes "cpu  10 0 0 5");
  loadavg = none;
  meminfo = some (codes "MemTotal: 4 kB\nMemAvailable: 3 kB");
  net_dev = some (codes "eth0: 7 0 0 0 0 0 0 0 8");
  mounts = none;
  statfs = λ m. some (10, 4);
  cores = 2;
  now = 5;
  unix_milli = 0;
}

abbrev before_it : Sampler
before_it = record {
  prev_cpu = some record { total = 5; idle = 5 };
  prev_net = (codes "eth0", record { rx = 9; tx = 5 }) ∷ [];
  prev_net_at = some 4;
}

-- A counter that fell, as after a restart of the interface, has the rate 0.
second_sample :
    (sample floats machine before_it).0.network
    ≡ record { interface = codes "eth0"; rx_bytes_per_sec = 0; tx_bytes_per_sec = 3 } ∷ []
unfolding sample
second_sample = refl

sample_consistent_example :
    let r = (sample floats machine before_it).0 in
    Rest r.memory.total_bytes r.memory.available_bytes r.memory.used_bytes
    × (r.memory.used_bytes ≤ r.memory.total_bytes)
    × DisksFit machine.statfs r.disks
    × Usage floats before_it.prev_cpu (times_of floats machine.stat) r.usage_percent
    × NetsFit before_it.prev_net r.network
sample_consistent_example = sample_consistent floats machine before_it
