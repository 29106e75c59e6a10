-- ===== src/Updates/Worker/Starting.antt =====
-- When an update starts: `StartApply`.
use lumio_os.Prelude.{
  ℕ, ◌+◌, ◌≤◌, ◌<◌, ◌≡◌, Bool, List, [], ◌∷◌, refl, ap, ◌∙◌, sym, String, true, not, ◌||◌, Option,
  none, some, ltb, str_eq, string_eq, eq_iff, Bool-cases, Option-cases, inl, inr, arith,
}
use lumio_os.Prelude.Map.{Map, Distinct, lookup, insert, lookup-insert}
use lumio_os.Updates.Worker.{
  Worker, Progress, Plan, started, start_apply, start_plan, queued, hour, prune, set_progress,
  finish,
}

-- What a start needs, and what it leaves.
abbrev pub Starts : String → String → String → ℕ → Worker → Plan → Progress → Worker → Type 0
Starts plan_id expected id now w plan p w' =
    (lookup id w.progress ≡ none)
    × (lookup plan_id w.plans ≡ some plan)
    × (expected ≡ plan_id)
    × (now < plan.expires_at)
    × (w'.available ≡ true)
    × (lookup id w'.progress ≡ some p)
    × (now ≡ p.updated_at)
    × (w'.progress ≡ insert id p w.progress)

start_plan-Starts :
    (plan_id expected id : String) (now : ℕ) (o : Option Plan) (w w' : Worker) (plan : Plan)
    (p : Progress)
    → w.available ≡ true
    → lookup id w.progress ≡ none
    → lookup plan_id w.plans ≡ o
    → start_plan plan_id expected id now o w ≡ (started plan p, w')
    → Starts plan_id expected id now w plan p w'
unfolding start_plan
start_plan-Starts plan_id expected id now none w w' plan p a e f h = absurd (cc h)
start_plan-Starts plan_id expected id now (some found) w w' plan p a e f h =
    elim (Bool-cases (str_eq expected "" || not (str_eq expected plan_id))) [
      | inl k ↦ absurd (cc (rw (k, start_plan) at h))
      | inr k ↦ elim (Bool-cases (ltb now found.expires_at)) [
        | inr l ↦ absurd (cc (rw (k, l, start_plan) at h))
        | inl l ↦
            let all = rw (k, l, start_plan) at h in
            let same : found ≡ plan = cc all in
            let first : queued id plan_id now ≡ p = cc all in
            let left : record w { progress = insert id (queued id plan_id now) w.progress } ≡ w' =
              ap (λ r. r.1) all in
            let valid : now < found.expires_at = ground arith in
            (
              e,
              f ∙ ap some same,
              ground (arith, eq_iff expected plan_id),
              rw (← same) valid,
              sym (ap (λ x. x.available) left) ∙ a,
              sym (ap (λ x. lookup id x.progress) left)
                  ∙ rw (lookup-insert id id _ w.progress, (eq_iff id id).1 refl) (ap some first),
              ap (λ q. q.updated_at) first,
              sym (ap (λ x. x.progress) left) ∙ ap (λ q. insert id q w.progress) first,
            )
      ]
    ]

-- An update starts only for a request that has none, on a saved plan that is the expected one and
-- has not expired.
pub start_apply-Starts :
    (plan_id expected id : String) (now : ℕ) (w w' : Worker) (plan : Plan) (p : Progress)
    → start_apply plan_id expected id now w ≡ (started plan p, w')
    → Starts plan_id expected id now w plan p w'
unfolding start_apply
start_apply-Starts plan_id expected id now w w' plan p h = elim (Bool-cases w.available) [
  | inr a ↦ absurd (cc (rw (a, start_apply) at h))
  | inl a ↦ elim (Option-cases (lookup id w.progress)) [
    | inr (q, e) ↦ absurd (cc (rw (a, e, start_apply) at h))
    | inl e ↦
        start_plan-Starts plan_id expected id now _ w w' plan p a e refl
          (rw (a, e, start_apply) at h)
  ]
]

-- What may happen to the worker later: a prune, a request, and the progress and the end of an update.
pub data Later : Type 0 where
  pruned : ℕ → Later
  requested : String → String → String → ℕ → Later
  reported : String → String → ℕ → String → ℕ → Later
  ended : String → Bool → String → ℕ → Later

abbrev pub time : Later → ℕ
time (pruned t) = t
time (requested plan_id expected id t) = t
time (reported id phase percent message t) = t
time (ended id success error t) = t

abbrev pub happen : Worker → Later → Worker
happen w (pruned t) = prune t w
happen w (requested plan_id expected id t) = (start_apply plan_id expected id t w).1
happen w (reported id phase percent message t) = set_progress id phase percent message t w
happen w (ended id success error t) = finish id success error t w

abbrev pub after : Worker → List Later → Worker
after w [] = w
after w (e ∷ es) = after (happen w e) es

-- All of it is at the time `now` or in the hour after it.
abbrev pub WithinHour : ℕ → List Later → Type 0
WithinHour now [] = Unit
WithinHour now (e ∷ es) = (now ≤ time e) × (time e ≤ now + hour) × WithinHour now es

-- The update of this id has a progress, of the time `now` or later.
abbrev Present : String → ℕ → Worker → Type 0
Present id now w =
    (w.available ≡ true)
    × ((q : Progress) × (lookup id w.progress ≡ some q) × (now ≤ q.updated_at))
    × Distinct w.progress
