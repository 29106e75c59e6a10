-- ===== src/Metrics/Sampler/Consistent.antt =====
-- What every sample keeps to, whatever the files of /proc hold.
use lumio_os.Prelude.{
  ℕ, ◌-◌, ◌%◌, ◌≤◌, ◌<◌, ◌≡◌, ◌≢◌, refl, ap, ◌∙◌, ◌⊎◌, inl, inr, true, false, Option, none, some,
  List, [], ◌∷◌, ltb, leb, ◌==◌, arith, Bool-cases, Option-cases,
}
use lumio_os.Prelude.Text.{codes_eq, same_codes_iff, same_codes, cut, trim, words, split}
use lumio_os.Prelude.Map.{Map, lookup, lookup-insert}
use lumio_os.Metrics.Parse.{
  Text, word, CpuTimes, NetTimes, is_loopback, note_counters, counters, read_interfaces,
  parse_net_dev, parse_meminfo, newline, real_mounts,
}
use lumio_os.Metrics.Sampler.{
  Floats, DiskUsage, NetUsage, Sampler, Machine, minus, below, memory_of, memory_usage, disk_entry,
  disks_of, cpu_usage_percent, usage_of, net_entry, net_entries, network_of, counters_of, sample,
  times_of,
}

-- The difference of a total and a part, and nothing when the part is more than that.
abbrev pub Rest : ℕ → ℕ → ℕ → Type 0
Rest total part rest =
    ((part ≤ total) × (rest ≡ (total - part) % word)) ⊎ ((total < part) × (rest ≡ 0))

-- Every disk has a total that is not 0, and what statfs tells of it in use.
abbrev pub DisksFit : (Text → Option (ℕ × ℕ)) → List DiskUsage → Type 0
DisksFit statfs [] = Unit
DisksFit statfs (d ∷ disks) =
    ((free : ℕ) × (statfs d.mount ≡ some (d.total_bytes, free))
      × (0 < d.total_bytes)
      × Rest d.total_bytes free d.used_bytes
      × (d.used_bytes ≤ d.total_bytes))
    × DisksFit statfs disks

-- An interface that was there at the sample before, and is not the loopback.
abbrev pub NetsFit : Map Text NetTimes → List NetUsage → Type 0
NetsFit prev [] = Unit
NetsFit prev (n ∷ nets) =
    (lookup n.interface prev ≢ none) × (is_loopback n.interface ≡ false) × NetsFit prev nets

minus_is : (a b : ℕ) → b ≤ a → minus a b ≡ (a - b) % word
minus_is a b h = omega arith

below-Rest : (total part : ℕ) → Rest total part (below total part)
below-Rest total part = elim (Bool-cases (leb part total)) [
  | inl e ↦ let h : part ≤ total = ground arith in rw e (inl (h, minus_is total part h))
  | inr e ↦ rw e (inr (ground arith, refl))
]

Rest-le : (total part rest : ℕ) → Rest total part rest → rest ≤ total
Rest-le total part rest (inl (h, e)) = omega arith
Rest-le total part rest (inr (h, e)) = omega arith

memory_of-Rest :
    (content : Option Text)
    → Rest
        (memory_of content).total_bytes
        (memory_of content).available_bytes
        (memory_of content).used_bytes
memory_of-Rest none = inl (omega arith, refl)
memory_of-Rest (some content) = go (parse_meminfo content)
  where
    go :
        (f : Option (ℕ × ℕ))
        → Rest
            (memory_usage f).total_bytes
            (memory_usage f).available_bytes
            (memory_usage f).used_bytes
    go none = inl (omega arith, refl)
    go (some (total, available)) = below-Rest total available

disk_entry-DisksFit :
    (statfs : Text → Option (ℕ × ℕ)) (mount : Text) (space : Option (ℕ × ℕ)) (rest : List DiskUsage)
    → statfs mount ≡ space
    → DisksFit statfs rest
    → DisksFit statfs (disk_entry mount space rest)
disk_entry-DisksFit statfs mount none rest e h = h
disk_entry-DisksFit statfs mount (some (total, free)) rest e h = elim (Bool-cases (total == 0)) [
  | inl z ↦ rw z h
  | inr z ↦
      let fits = below-Rest total free in
      rw z ((free, e, ground arith, fits, Rest-le total free _ fits), h)
]

disks_of-DisksFit :
    (statfs : Text → Option (ℕ × ℕ)) (mounts : List Text) → DisksFit statfs (disks_of statfs mounts)
unfolding disks_of
disks_of-DisksFit statfs [] = tt
disks_of-DisksFit statfs (mount ∷ mounts) =
    disk_entry-DisksFit statfs mount (statfs mount) _ refl (disks_of-DisksFit statfs mounts)

-- The loopback is never noted.
note_counters-loopback :
    (name : Text) (t : Option NetTimes) (out : Map Text NetTimes) (k : Text)
    → is_loopback k ≡ true
    → lookup k (note_counters name t out) ≡ lookup k out
note_counters-loopback name none out k h = refl
note_counters-loopback name (some t) out k h = elim (Bool-cases (is_loopback name)) [
  | inl e ↦ rw e
  | inr e ↦
      let other : same_codes name k ≡ false = elim (Bool-cases (same_codes name k)) [
        | inl q ↦ absurd (cc (h, e, ap is_loopback ((same_codes_iff name k).0 q)))
        | inr q ↦ q
      ] in
      rw e (lookup-insert name k t out ∙ rw other)
]

read_interfaces-loopback :
    (lines : List Text) (out : Map Text NetTimes) (k : Text)
    → is_loopback k ≡ true
    → lookup k (read_interfaces lines out) ≡ lookup k out
unfolding read_interfaces
read_interfaces-loopback [] out k h = refl
read_interfaces-loopback (line ∷ lines) out k h = elim (Option-cases (cut b':' line)) [
  | inl e ↦ rw (e, read_interfaces) (read_interfaces-loopback lines out k h)
  | inr ((name, rest), e) ↦
      rw (e, read_interfaces)
        (read_interfaces-loopback lines _ k h
          ∙ note_counters-loopback (trim name) (counters (words rest)) out k h)
]

parse_net_dev-loopback :
    (content k : Text) (t : NetTimes)
    → lookup k (parse_net_dev content) ≡ some t
    → is_loopback k ≡ false
unfolding parse_net_dev lookup
parse_net_dev-loopback content k t h = elim (Bool-cases (is_loopback k)) [
  | inl e ↦ absurd (cc (h, read_interfaces-loopback (split newline content) [] k e))
  | inr e ↦ e
]

module _ {ℓ} {F : Type ℓ} (floats : Floats F) where
  -- The use between two readings: the share of the whole time that was not idle, or nothing when no
  -- time went by, or none but idle time.
  abbrev pub Share : CpuTimes → CpuTimes → F → Type ℓ
  Share prev cur x =
      (idle : ℕ) × Rest cur.idle prev.idle idle
      × (((cur.total ≤ prev.total) × (x ≡ floats.zero_float))
          ⊎ ((prev.total < cur.total)
              × ((cur.total - prev.total) % word ≤ idle)
              × (x ≡ floats.zero_float))
          ⊎ ((prev.total < cur.total)
              × (idle < (cur.total - prev.total) % word)
              × (x
                  ≡ floats.percent ((cur.total - prev.total) % word - idle)
                      ((cur.total - prev.total) % word))))

  -- The use is nothing when one of the readings is missing.
  abbrev pub Usage : Option CpuTimes → Option CpuTimes → F → Type ℓ
  Usage (some prev) (some cur) x = Share prev cur x
  Usage prev cur x = x ≡ floats.zero_float

  minus_small : (a b : ℕ) → b < a % word → minus (a % word) b ≡ a % word - b
  minus_small a b h = omega arith

  cpu_usage_percent-Share :
      (prev cur : CpuTimes) → Share prev cur (cpu_usage_percent floats prev cur)
  unfolding cpu_usage_percent
  cpu_usage_percent-Share prev cur =
      let idle = below cur.idle prev.idle in
      elim (Bool-cases (leb cur.total prev.total)) [
        | inl e ↦ rw e (idle, below-Rest cur.idle prev.idle, inl (ground arith, refl))
        | inr e ↦
            let h : prev.total < cur.total = ground arith in
            let d = minus_is cur.total prev.total (omega (arith, h)) in
            rw (e, d)
              (elim (Bool-cases (leb ((cur.total - prev.total) % word) idle)) [
                | inl g ↦
                    rw g (idle, below-Rest cur.idle prev.idle, inr (inl (h, ground arith, refl)))
                | inr g ↦
                    let small : idle < (cur.total - prev.total) % word = ground arith in
                    rw (g, minus_small (cur.total - prev.total) idle small)
                      (idle, below-Rest cur.idle prev.idle, inr (inr (h, small, refl)))
              ])
      ]

  usage_of-Usage : (prev cur : Option CpuTimes) → Usage prev cur (usage_of floats prev cur)
  usage_of-Usage none none = refl
  usage_of-Usage none (some cur) = refl
  usage_of-Usage (some prev) none = refl
  usage_of-Usage (some prev) (some cur) = cpu_usage_percent-Share prev cur

  net_entry-NetsFit :
      (prev : Map Text NetTimes) (dt : ℕ) (name : Text) (was is : Option NetTimes)
      (rest : List NetUsage)
      → lookup name prev ≡ was
      → ((t : NetTimes) → is ≡ some t → is_loopback name ≡ false)
      → NetsFit prev rest
      → NetsFit prev (net_entry floats dt name was is rest)
  net_entry-NetsFit prev dt name (some p) (some c) rest e other h =
      (λ gone. cc (e, gone), other c refl, h)
  net_entry-NetsFit prev dt name none is rest e other h = h
  net_entry-NetsFit prev dt name (some p) none rest e other h = h

  net_entries-NetsFit :
      (prev : Map Text NetTimes) (content : Text) (dt : ℕ) (names : List Text)
      → NetsFit prev (net_entries floats prev (parse_net_dev content) dt names)
  unfolding net_entries
  net_entries-NetsFit prev content dt [] = tt
  net_entries-NetsFit prev content dt (name ∷ names) =
      net_entry-NetsFit prev dt name _ _ _ refl (λ t e. parse_net_dev-loopback content name t e)
        (net_entries-NetsFit prev content dt names)

  network_of-NetsFit :
      (prev : Map Text NetTimes) (at : Option ℕ) (now : ℕ) (content : Option Text)
      → NetsFit prev (network_of floats prev at now (counters_of floats content))
  network_of-NetsFit prev at now none = tt
  network_of-NetsFit prev none now (some content) = tt
  network_of-NetsFit prev (some t) now (some content) = elim (Bool-cases (ltb t now)) [
    | inl e ↦ rw e (net_entries-NetsFit prev content (now - t) _)
    | inr e ↦ rw e tt
  ]

  -- Whatever the files of /proc hold and whatever was sampled before: the memory in use is the total
  -- less what is available, in 64 bits, nothing when that is more, and at most the total; the same holds
  -- for every disk with what statfs tells of its mount, and its total is not 0; the use of the processors
  -- is the share of the time since the last reading that was not idle, and nothing when there is no such
  -- time or a reading is missing; and every interface that has a rate was there at the sample before and
  -- is not the loopback.
  pub sample_consistent :
      (m : Machine) (s : Sampler)
      → let r = (sample floats m s).0 in
        Rest r.memory.total_bytes r.memory.available_bytes r.memory.used_bytes
        × (r.memory.used_bytes ≤ r.memory.total_bytes)
        × DisksFit m.statfs r.disks
        × Usage s.prev_cpu (times_of floats m.stat) r.usage_percent
        × NetsFit s.prev_net r.network
  unfolding sample
  sample_consistent m s = (
    memory_of-Rest m.meminfo,
    Rest-le (memory_of m.meminfo).total_bytes _ _ (memory_of-Rest m.meminfo),
    disks_of-DisksFit m.statfs (real_mounts m.mounts),
    usage_of-Usage s.prev_cpu (times_of floats m.stat),
    network_of-NetsFit s.prev_net s.prev_net_at m.now m.net_dev,
  )
