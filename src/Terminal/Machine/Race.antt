-- ===== src/Terminal/Machine/Race.antt =====
-- A connection that comes back while another one leaves.
use lumio_os.Prelude.{ℕ, ◌+◌, ◌≡◌, refl, true, false, some, none, List, [], ◌∷◌, ==_iff, arith}
use lumio_os.Terminal.Session.{Session, Todo, start_timer, attach, detach, arm_timer, kill}
use lumio_os.Terminal.Machine.{
  Machine, Step, attaches, detaches, arms, fires, Reach, start, next, here,
}

-- A running terminal with one holder, and any other state.
abbrev pub held : Session → List Todo → Machine
held s todo = record {
  session = record s { attached = true; exited = false };
  registered = true;
  holders = s.gen ∷ [];
  todo = todo;
}

-- The holder has left, but for the timer.
abbrev leaving : Session → List Todo → Machine
leaving s todo = record {
  session = record s { attached = false; exited = false; events = none };
  registered = true;
  holders = [];
  todo = start_timer ∷ todo;
}

-- Another one has come, and then the timer was set.
abbrev raced : Session → List Todo → ℕ → Machine
raced s todo now = record {
  session = record s {
    attached = true;
    exited = false;
    gen = s.gen + 1;
    events = some [];
    grace_timer = some (now + s.grace);
  };
  registered = true;
  holders = (s.gen + 1) ∷ [];
  todo = todo;
}

leaves : (s : Session) (todo : List Todo) → Step (held s todo) (leaving s todo)
unfolding detach
leaves s todo = rw ((==_iff s.gen s.gen).1 refl) at (detaches (held s todo) s.gen [] (here []))

race : (s : Session) (todo : List Todo) (now : ℕ) → Reach (held s todo) (raced s todo now)
unfolding attach arm_timer
race s todo now =
    next (next (next start (leaves s todo)) (attaches (leaving s todo) _ _ refl refl))
      (arms _ now todo (here todo))

-- Whenever a running terminal has one holder, that holder may leave and another may come so that the
-- grace timer of the first is set while the second has the terminal. Up to then the process has got no
-- signal, and the timer, when it fires, kills it under the hands of the second.
pub killed_while_held :
    (s : Session) (todo : List Todo) (now : ℕ)
    → (m : Machine) × (Reach (held s todo) m
        × (m.session.attached ≡ true)
        × (m.holders ≡ (s.gen + 1) ∷ [])
        × (m.session.grace_timer ≡ some (now + s.grace))
        × (m.session.signalled ≡ s.signalled)
        × Step m (record m { session = kill m.session })
        × ((kill m.session).signalled ≡ true))
unfolding kill
killed_while_held s todo now = (
  raced s todo now,
  (
    race s todo now,
    refl,
    refl,
    refl,
    refl,
    fires (raced s todo now) (now + s.grace) refl,
    ground arith,
  ),
)
