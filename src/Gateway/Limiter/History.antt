-- ===== src/Gateway/Limiter/History.antt =====
-- The limiter after any sequence of failed and successful logins.
use Prim.Native.Nat.{min}
use lumio_os.Prelude.{
  ℕ, ◌+◌, ◌-◌, ◌*◌, ◌^◌, ◌≤◌, ◌<◌, String, ◌≡◌, refl, Option, List, [], ◌∷◌, ◌≢◌, arith, ltb,
  if◌then◌else◌, string_eq, str_eq, eq_iff,
}
use lumio_os.Prelude.Map.{lookup, lookup-insert, lookup-delete}
use lumio_os.Gateway.Limiter.{
  second, max_duration, Entry, Limiter, new_limiter, entry_or_new, bump, blocked, record_failure,
  reset,
}
use lumio_os.Gateway.Limiter.Delay.{penalty_doubles, penalty_vanishes}

pub data Event : Type 0 where
  failure : String → ℕ → Event
  success : String → Event

-- The newest event stands first.
abbrev pub run : List Event → Limiter
run [] = new_limiter
run (failure key now ∷ h) = record_failure (run h) key now
run (success key ∷ h) = reset (run h) key

-- The failures of a key since its last success.
abbrev pub failures : String → List Event → ℕ
failures key [] = 0
failures key (failure j now ∷ h) = if str_eq j key then failures key h + 1 else failures key h
failures key (success j ∷ h) = if str_eq j key then 0 else failures key h

abbrev count_of : Option Entry → ℕ
count_of o = (entry_or_new o).count

-- The limiter counts, for each key, exactly the failures since the key's last success.
pub run_count :
    (key : String) (h : List Event) → (entry_or_new (lookup key (run h))).count ≡ failures key h
unfolding lookup record_failure bump reset
run_count key [] = refl
run_count key (failure j now ∷ h) = ground (
  arith,
  lookup-insert j key (bump (entry_or_new (lookup j (run h))) now) (run h),
  run_count key h,
  eq_iff j key,
)
run_count key (success j ∷ h) = ground (arith, lookup-delete j key (run h), run_count key h)

-- What `blocked` answers right after a failure.
blocked-record_failure :
    (l : Limiter) (key : String) (t now : ℕ)
    → blocked (record_failure l key t) key now ≡ (
        let until = (bump (entry_or_new (lookup key l)) t).blocked in
        if ltb now until then min (until - now) max_duration else 0)
unfolding blocked record_failure
blocked-record_failure l key t now =
    ground (arith, lookup-insert key key (bump (entry_or_new (lookup key l)) t) l, eq_iff key key)

-- Right after the n-th failure in a row of a key, 3 ≤ n ≤ 35, at time t, a login of the key is
-- refused for 2 ^ (n - 2) seconds, at most 60, counted from t: at every later time `now`, `blocked`
-- answers what is left of that delay.
pub lockout :
    (h : List Event) (key : String) (t now : ℕ)
    → 2 ≤ failures key h
    → failures key h < 35
    → t ≤ now
    → blocked (run (failure key t ∷ h)) key now
      ≡ t + min (2 ^ (failures key h - 1)) 60 * second - now
unfolding bump
lockout h key t now low high later =
    let k = failures key h - 2 in
    let e : failures key h + 1 ≡ k + 3 = omega arith in
    let e' : failures key h - 1 ≡ k + 1 = omega arith in
    rw (blocked-record_failure, run_count key h, e, e', penalty_doubles k (omega arith), bump)
      (ground arith)

-- From the 57th failure in a row on the delay has wrapped around to 0: right after the failure, at
-- the same time or later, nothing is refused any more.
pub lockout_lost :
    (h : List Event) (key : String) (t now : ℕ)
    → 56 ≤ failures key h
    → t ≤ now
    → blocked (run (failure key t ∷ h)) key now ≡ 0
unfolding bump
lockout_lost h key t now low later =
    let k = failures key h - 56 in
    let e : failures key h + 1 ≡ k + 57 = omega arith in
    rw (blocked-record_failure, run_count key h, e, penalty_vanishes k, bump) (ground arith)

-- A failure of one key, or its success, does not change what is answered for another key; after a
-- success the key itself is not refused.
pub other_keys :
    (l : Limiter) (key j : String) (t now : ℕ)
    → j ≢ key
    → (blocked (record_failure l key t) j now ≡ blocked l j now)
      × (blocked (reset l key) j now ≡ blocked l j now)
      × (blocked (reset l key) key now ≡ 0)
unfolding blocked record_failure reset
other_keys l key j t now ne = (
  ground (arith, lookup-insert key j (bump (entry_or_new (lookup key l)) t) l, eq_iff key j),
  ground (arith, lookup-delete key j l, eq_iff key j),
  ground (arith, lookup-delete key key l, eq_iff key key),
)
