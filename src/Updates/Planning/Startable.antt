-- ===== src/Updates/Planning/Startable.antt =====
-- A plan that was calculated can be started.
use mathlib.Core.Path.{subst}
use lumio_os.Prelude.{
  ℕ, ◌+◌, ◌≡◌, refl, sym, ap, ◌∙◌, String, Bool, true, false, not, none, some, ltb, str_eq, eq_iff,
  string_eq, arith, if◌then◌else◌, Bool-cases, inl, inr, refuted,
}
use Prim.Native.String.{◌++◌, len}
use text.Mathlib.TextPositions.{len-append}
use lumio_os.Prelude.Action.{Result, ok, err}
use lumio_os.Prelude.Map.{Distinct, lookup, insert, retain, lookup-insert}
use lumio_os.Prelude.Map.Keys.{lookup-retain, lookup-retain-none, insert-Distinct, retain-Distinct}
use lumio_os.Updates.Worker.{
  Worker, start_apply, start_plan, prune, queued, Start, started, refused, plan_stale, plan_missing,
  keeps_plan, keeps_progress,
}
use lumio_os.Updates.Planning.{
  Tools, Text, FullPlan, plan_lifetime, stored_plan, keep_plan, Planned, simulated, calculate_plan,
  all_sizes, parse_plan_output,
}

-- What a plan that was calculated at `now` needs to be startable.
abbrev Kept : ℕ → FullPlan → Worker → Worker → Type 0
Kept now plan before after =
    (before.available ≡ true)
    × (str_eq plan.id "" ≡ false)
    × (plan.expires_at ≡ now + plan_lifetime)
    × (after ≡ keep_plan plan now before)

has_id : (id : String) → str_eq ("pln_" ++ id) "" ≡ false
has_id id = elim (Bool-cases (str_eq ("pln_" ++ id) "")) [
  | inl e ↦
      let empty : len ("pln_" ++ id) ≡ 0 = ap len ((eq_iff ("pln_" ++ id) "").0 e) in
      let longer : len ("pln_" ++ id) ≡ 4 + len id = len-append "pln_" id in absurd (omega arith)
  | inr e ↦ e
]

-- The answer to an update, after a prune at the time `at`.
abbrev pub verdict : FullPlan → String → ℕ → ℕ → ℕ → Start
verdict plan id at later deadline =
    if ltb at deadline
    then (if ltb later deadline
        then started (stored_plan plan) (queued id plan.id later)
        else refused plan_stale)
    else refused plan_missing

start_pruned :
    (plan : FullPlan) (now : ℕ) (w : Worker) (id : String) (at later : ℕ)
    → w.available ≡ true
    → str_eq plan.id "" ≡ false
    → plan.expires_at ≡ now + plan_lifetime
    → Distinct w.plans
    → lookup id (keep_plan plan now w).progress ≡ none
    → (start_apply plan.id plan.id id later (prune at (keep_plan plan now w))).0
      ≡ verdict plan id at later (now + plan_lifetime)
unfolding start_apply start_plan prune
start_pruned plan now w id at later there named expires keys fresh =
    let pruned = retain (keeps_plan now) w.plans in
    let here = lookup-insert plan.id plan.id (stored_plan plan) pruned in
    let found : lookup plan.id (insert plan.id (stored_plan plan) pruned)
        ≡ some (stored_plan plan) =
      ground (arith, here, eq_iff plan.id plan.id) in
    let kept_plan =
      lookup-retain (keeps_plan at) plan.id (insert plan.id (stored_plan plan) pruned) (
        insert-Distinct plan.id (stored_plan plan) pruned
          (retain-Distinct (keeps_plan now) w.plans keys)) in
    let none_left =
      lookup-retain-none (keeps_progress at) id (keep_plan plan now w).progress fresh in
    ground (arith, found, kept_plan, none_left, eq_iff plan.id plan.id)

module _ {ℓ} {W : Type ℓ} (tools : Tools W) (now : ℕ) (worker : Worker) where
  -- A result with a plan is that of a plan that was kept.
  abbrev IsKept : Planned W → Type 0
  IsKept (ok plan, after, s) = Kept now plan worker after
  IsKept (err e, after, s) = Unit

  simulated-IsKept :
      (r : Result String Text × W) → worker.available ≡ true → IsKept (simulated tools now worker r)
  simulated-IsKept (err e, w) there = tt
  simulated-IsKept (ok output, w) there = (
    there,
    has_id (tools.random_id (all_sizes tools (parse_plan_output tools output) w).1).0,
    refl,
    refl,
  )

  calculate_plan-IsKept : (busy : Bool) (w : W) → IsKept (calculate_plan tools busy now worker w)
  unfolding calculate_plan
  calculate_plan-IsKept busy w = elim (Bool-cases (not worker.available)) [
    | inl e ↦ rw e tt
    | inr there ↦ rw there (elim (Bool-cases busy) [
      | inl e ↦ rw e tt
      | inr e ↦ rw e (simulated-IsKept (tools.simulate w) (refuted worker.available there))
    ])
  ]

  -- A plan that was calculated is kept for 15 minutes: an update asks for it that has no progress yet.
  -- When the worker is pruned in between, as it is by every further calculation, before the plan expires,
  -- then the update starts with the plan's packages if it comes before that too, and is refused as stale
  -- otherwise; when it is pruned later, the plan is gone, and the update is refused as one without a plan.
  -- The plans of the worker had different ids before.
  pub start_apply-calculate_plan :
      (busy : Bool) (w w' : W) (plan : FullPlan) (after : Worker) (id : String) (at later : ℕ)
      → Distinct worker.plans
      → calculate_plan tools busy now worker w ≡ (ok plan, after, w')
      → lookup id after.progress ≡ none
      → (start_apply plan.id plan.id id later (prune at after)).0
        ≡ verdict plan id at later (now + plan_lifetime)
  start_apply-calculate_plan busy w w' plan after id at later keys e fresh =
      let (there, named, expires, kept) = subst IsKept e (calculate_plan-IsKept busy w) in
      ap (λ a. (start_apply plan.id plan.id id later (prune at a)).0) kept
      ∙ start_pruned plan now worker id at later there named expires keys
          (ap (λ a. lookup id a.progress) (sym kept) ∙ fresh)
