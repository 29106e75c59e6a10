-- ===== src/Gateway/Limiter.antt =====
-- server/internal/gateway/limiter.go: the delays after failed logins.
-- A time is a number of nanoseconds since the year 1, where Go's zero `time.Time` lies, and each
-- call of `time.Now` is an argument. A `time.Duration` is an int64, kept as its bit pattern below
-- 2 ^ 64. The failure count is an int that is incremented once a call, and does not wrap.
pub mod Delay
pub mod History
mod Examples
use Prim.Native.Nat.{min}
use lumio_os.Prelude.{
  ℕ, ◌+◌, ◌-◌, ◌*◌, ◌%◌, ◌^◌, [], String, Bool, ◌&&◌, Option, none, some, ltb, leb, if◌then◌else◌,
  string_eq,
}
use lumio_os.Prelude.Map.{Map, lookup, insert, delete}

abbrev pub second : ℕ
second = 1000000000

abbrev pub limiter_threshold : ℕ
limiter_threshold = 3

abbrev pub limiter_max_delay : ℕ
limiter_max_delay = 60 * second

-- The largest positive int64.
abbrev pub max_duration : ℕ
max_duration = 2 ^ 63 - 1

-- 1 << k in an int: 0 from 64 on, and the sign bit alone at 63.
abbrev pub shift_one : ℕ → ℕ
shift_one k = 2 ^ k % 2 ^ 64

-- d > e for int64 patterns, where e is not negative.
abbrev pub duration_gt : ℕ → ℕ → Bool
duration_gt d e = ltb d (2 ^ 63) && ltb e d

-- t.Add(d): a pattern from 2 ^ 63 on is a negative duration.
abbrev pub add_duration : ℕ → ℕ → ℕ
add_duration t d = if ltb d (2 ^ 63) then t + d else t - (2 ^ 64 - d)

-- time.Duration(1<<(count-limiterThreshold+1)) * time.Second, capped, as `record` computes it.
pub penalty : ℕ → ℕ
penalty count =
    let delay = (shift_one (count - limiter_threshold + 1) * second) % 2 ^ 64 in
    if duration_gt delay limiter_max_delay then limiter_max_delay else delay

pub record Entry : Type 0 where
  pub count : ℕ
  pub blocked : ℕ

abbrev pub Limiter : Type 0
Limiter = Map String Entry

abbrev pub new_limiter : Limiter
new_limiter = []

-- The entry that `record` works on: the one in the map, or a new zero value.
abbrev pub entry_or_new : Option Entry → Entry
entry_or_new none = record { count = 0; blocked = 0 }
entry_or_new (some entry) = entry

unfoldable pub bump : Entry → ℕ → Entry
bump entry now =
    let count = entry.count + 1 in
    if leb limiter_threshold count
    then record { count = count; blocked = add_duration now (penalty count) }
    else record { count = count; blocked = entry.blocked }

-- blocked(key): how long a login of this key is still refused.
unfoldable pub blocked : Limiter → String → ℕ → ℕ
blocked l key now = elim (lookup key l) [
  | none ↦ 0
  | some entry ↦ if ltb now entry.blocked then min (entry.blocked - now) max_duration else 0
]

-- record(key): one more failure.
unfoldable pub record_failure : Limiter → String → ℕ → Limiter
record_failure l key now = insert key (bump (entry_or_new (lookup key l)) now) l

-- reset(key): after a successful login.
pub reset : Limiter → String → Limiter
reset l key = delete key l
