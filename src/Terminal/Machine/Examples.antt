-- ===== src/Terminal/Machine/Examples.antt =====
-- The theorems on the interleavings, at a short life of a terminal.
use lumio_os.Prelude.{ℕ, ◌+◌, ◌≡◌, ◌⊎◌, refl, true, false, some, List, [], ◌∷◌, arith}
use lumio_os.Terminal.Session.{kill, attach, detach, arm_timer, wait}
use lumio_os.Terminal.Machine.{
  Step, Machine, attaches, detaches, arms, forgets, waits, Reach, start, next, here, opened,
}
use lumio_os.Terminal.Machine.Orphans.{kept_while_running, killed_in_the_end}
use lumio_os.Terminal.Machine.Race.{held, killed_while_held}

-- Opened, held and left again at 10, with a grace time of 5.
abbrev left : Machine
left = record {
  session = record (opened 5).session { gen = 1; grace_timer = some 15 };
  registered = true;
  holders = [];
  todo = [];
}

comes_and_goes : Reach (opened 5) left
unfolding attach detach arm_timer
comes_and_goes =
    next (next (next start (attaches (opened 5) _ _ refl refl)) (detaches _ 1 [] (here [])))
      (arms _ 10 [] (here []))

-- Then the process ends.
abbrev over : Machine
over = record left {
  session = record left.session { exited = true; exit_code = 3 };
  registered = false;
}

ends : Reach (opened 5) over
unfolding wait
ends = next (next comes_and_goes (waits left 3 refl)) (forgets _ [] (here []))

kept_while_running_example :
    (true ≡ false → false ≡ true)
    × (◌≡◌ true true → ◌≡◌ {A = List ℕ} [] [] → over.todo ≡ [] → ◌≡◌ false false)
kept_while_running_example = kept_while_running 5 over ends

killed_in_the_end_example : (false ≡ true) ⊎ ((at : ℕ) × (some 15 ≡ some at))
killed_in_the_end_example = killed_in_the_end 5 left comes_and_goes refl refl refl (omega arith)

killed_while_held_example :
    (m : Machine) × (Reach (held (opened 5).session []) m
      × (m.session.attached ≡ true)
      × (m.holders ≡ (0 + 1) ∷ [])
      × (m.session.grace_timer ≡ some (10 + (opened 5).session.grace))
      × (m.session.signalled ≡ (opened 5).session.signalled)
      × Step m (record m { session = kill m.session })
      × ((kill m.session).signalled ≡ true))
killed_while_held_example = killed_while_held (opened 5).session [] 10
