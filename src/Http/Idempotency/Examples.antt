-- ===== src/Http/Idempotency/Examples.antt =====
-- Tests of the replays, and the theorems at concrete requests.
use lumio_os.Prelude.{ℕ, ◌+◌, ◌≡◌, ◌≢◌, refl, String, [], arith, eq_iff, string_eq}
use lumio_os.Prelude.Map.{lookup, Distinct}
use lumio_os.Http.Idempotency.{IdemStore, Recorder, Clock, mutate, get, put, replay_header}
use lumio_os.Http.Idempotency.Replay.{mutate_twice, mutate_other, mutate-Distinct}

-- The state counts how often a handler ran.
abbrev counter : ℕ → Recorder String × ℕ
counter n = (record { status = 201; body = "made"; header = [] }, n + 1)

abbrev empty : IdemStore String
empty = []

abbrev at : ℕ → Clock
at t = record { looked_up = t; answered = t; stored = t }

first_runs : (mutate empty "r1" (at 5) counter 0).2 ≡ 1
unfolding mutate get put lookup
first_runs = refl

mutate_twice_example : mutate (mutate empty "r1" (at 5) counter 0).1 "r1" (at 9) counter 1 ≡ (
  record { header = replay_header; status = 201; body = "made" },
  (mutate empty "r1" (at 5) counter 0).1,
  1,
)
unfolding get lookup mutate
mutate_twice_example =
    (mutate_twice empty "r1" (at 5) (at 9) counter counter 0 1 refl (omega arith)).3

r2_ne_r1 : ◌≢◌ {A = String} "r2" "r1"
r2_ne_r1 = ground (arith, eq_iff "r2" "r1")

mutate_other_example : (get (mutate empty "r1" (at 5) counter 0).1 "r2" 6).0 ≡ (get empty "r2" 6).0
mutate_other_example = mutate_other empty "r1" "r2" (at 5) counter 0 6 tt r2_ne_r1 (omega arith)

mutate-Distinct_example : Distinct (mutate empty "r1" (at 5) counter 0).1
mutate-Distinct_example = mutate-Distinct empty "r1" (at 5) counter 0 tt
