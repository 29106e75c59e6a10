-- ===== src/Updates/Worker/Progressing.antt =====
-- How an update proceeds: `apply`, `setProgress` and `finish`.
use text.Mathlib.Text.{starts_with}
use lumio_os.Prelude.{
  ℕ, ◌+◌, ◌≤◌, ◌≡◌, refl, String, true, false, Option, none, some, List, [], ◌∷◌, ◌==◌, string_eq,
  eq_iff, Bool-cases, inl, inr, arith,
}
use lumio_os.Prelude.Lists.{length}
use lumio_os.Prelude.Map.{lookup, lookup-insert}
use lumio_os.Updates.Worker.{
  Worker, Progress, Plan, Run, Line, set_progress, finished, on_line, on_lines, conclude_run, apply,
  setup_percent, run_error,
}

-- The update of this id is under way, at 95 percent at most.
abbrev pub Running : String → Worker → Type 0
Running id w =
    (p : Progress) × ((lookup id w.progress ≡ some p) × (p.percent ≤ 95) × (p.is_done ≡ false))

set_progress-Running :
    (id phase : String) (percent : ℕ) (message : String) (now : ℕ) (w : Worker)
    → percent ≤ 95
    → Running id w
    → Running id (set_progress id phase percent message now w)
unfolding set_progress
set_progress-Running id phase percent message now w le (p, (e, _, d)) = (
  record p { phase = phase; percent = percent; message = message; updated_at = now },
  (rw (lookup-insert id id _ w.progress, (eq_iff id id).1 refl, e) refl, le, d),
)

setup_percent-le : (configured total : ℕ) → setup_percent configured total ≤ 95
setup_percent-le configured total = omega arith

on_line-Running :
    (id : String) (total : ℕ) (run : Run) (line : Line)
    → Running id run.worker
    → Running id (on_line id total run line).worker
unfolding on_line
on_line-Running id total run line r = elim (Bool-cases (starts_with line.trimmed "Get:")) [
  | inl e ↦ rw (e, on_line) (set_progress-Running id _ 10 _ _ run.worker (omega arith) r)
  | inr e ↦ elim (Bool-cases (starts_with line.trimmed "Unpacking ")) [
    | inl f ↦ rw (e, f, on_line) (set_progress-Running id _ 45 _ _ run.worker (omega arith) r)
    | inr f ↦ elim (Bool-cases (starts_with line.trimmed "Setting up ")) [
      | inl g ↦
          rw (e, f, g, on_line)
            (set_progress-Running id _ _ _ _ run.worker
              (setup_percent-le (run.configured + 1) total) r)
      | inr g ↦ rw (e, f, g, on_line) r
    ]
  ]
]

-- Whatever apt-get prints, an update that is under way stays so, at 95 percent at most, until
-- apt-get has ended.
pub on_lines-Running :
    (id : String) (total : ℕ) (run : Run) (lines : List Line)
    → Running id run.worker
    → Running id (on_lines id total run lines).worker
unfolding on_lines
on_lines-Running id total run [] r = r
on_lines-Running id total run (line ∷ lines) r =
    on_lines-Running id total (on_line id total run line) lines
      (on_line-Running id total run line r)

-- What an update comes to: all or at most 95 percent, by how apt-get ended.
abbrev pub Ends : Option String → Progress → Type 0
Ends none p = (p.is_done ≡ true) × (p.success ≡ true) × (p.percent ≡ 100)
Ends (some error) p = (p.is_done ≡ true) × (p.success ≡ false) × (p.percent ≤ 95)

conclude_run-Ends :
    (id : String) (now : ℕ) (error : Option String) (run : Run)
    → Running id run.worker
    → (p : Progress) × ((lookup id (conclude_run id now error run).progress ≡ some p)
        × Ends error p)
unfolding conclude_run
conclude_run-Ends id now none run (p, (e, le, _)) = (
  finished true "" now p,
  (
    rw (lookup-insert id id _ run.worker.progress, (eq_iff id id).1 refl, e) refl,
    (refl, refl, refl),
  ),
)
conclude_run-Ends id now (some error) run (p, (e, le, _)) = (
  finished false (run_error error run.last_line) now p,
  (rw (lookup-insert id id _ run.worker.progress, (eq_iff id id).1 refl, e) refl, (refl, refl, le)),
)

-- An update of at least one package that is under way ends: if apt-get succeeds, as a success at 100
-- percent, and otherwise as a failure at 95 percent at most, whatever apt-get printed.
pub apply-Ends :
    (plan : Plan) (id : String) (before : ℕ) (lines : List Line) (error : Option String) (after : ℕ)
    (w : Worker)
    → (length plan.packages == 0) ≡ false
    → Running id w
    → (p : Progress) × ((lookup id (apply plan id before lines error after w).progress ≡ some p)
        × Ends error p)
unfolding apply
apply-Ends plan id before lines error after w some_package r =
    rw (some_package, apply)
      (conclude_run-Ends id after error _ (
        on_lines-Running id (length plan.packages) _ lines
          (set_progress-Running id _ 2 _ _ w (omega arith) r)))
