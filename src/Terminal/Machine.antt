-- ===== src/Terminal/Machine.antt =====
-- The interleavings of the goroutines that share one terminal of
-- server/internal/terminal/terminal.go: its connections, `readLoop`, `waitLoop` and the grace timer.
pub mod Orphans
pub mod Race
mod Examples
use lumio_os.Prelude.{ℕ, ◌+◌, ◌≡◌, Bool, true, false, Option, none, some, List, [], ◌∷◌}
use lumio_os.Terminal.Session.{
  Session, Todo, gone, start_timer, Attachment, Attached, granted, attach, detach, arm_timer, kill,
  read_chunk, wait,
}

-- `registered`: the manager's map holds the terminal. `holders`: the attachments whose `done` has not
-- run. `todo`: what is left to do of calls that have left the mutex.
pub record Machine : Type 0 where
  pub session : Session
  pub registered : Bool
  pub holders : List ℕ
  pub todo : List Todo

abbrev pub opened : ℕ → Machine
opened grace = record {
  session = record {
    grace = grace;
    scrollback = [];
    attached = false;
    gen = 0;
    events = none;
    exited = false;
    exit_code = 0;
    grace_timer = none;
    signalled = false;
    closed = false;
  };
  registered = true;
  holders = [];
  todo = [];
}

-- Taking one element out of a list.
pub data Remove {ℓ} {A : Type ℓ} (x : A) : List A → List A → Type ℓ where
  here : (xs : List A) → Remove x (x ∷ xs) xs
  there : (y : A) {xs ys : List A} → Remove x xs ys → Remove x (y ∷ xs) (y ∷ ys)

abbrev pub add_todo : Option Todo → List Todo → List Todo
add_todo none todo = todo
add_todo (some t) todo = t ∷ todo

pub data Step : Machine → Machine → Type 0 where
  -- Manager.Attach
  attaches :
      (m : Machine) (a : Attachment) (s : Session)
      → m.registered ≡ true
      → attach m.session ≡ (granted a, s)
      → Step m (record m { session = s; holders = a.gen ∷ m.holders })
  -- Attachment.Detach, which runs once
  detaches :
      (m : Machine) (gen : ℕ) (holders : List ℕ)
      → Remove gen m.holders holders
      → Step m (record m {
        session = (detach gen m.session).1;
        holders = holders;
        todo = (detach gen m.session).0 ∷ m.todo;
      })
  -- the manager's onGone
  forgets :
      (m : Machine) (todo : List Todo)
      → Remove gone m.todo todo
      → Step m (record m { registered = false; todo = todo })
  -- the end of `detach`, at a time
  arms :
      (m : Machine) (now : ℕ) (todo : List Todo)
      → Remove start_timer m.todo todo
      → Step m (record m { session = arm_timer now m.session; todo = todo })
  -- the grace timer, or a call of `Kill`
  fires :
      (m : Machine) (at : ℕ)
      → m.session.grace_timer ≡ some at
      → Step m (record m { session = kill m.session })
  kills : (m : Machine) → Step m (record m { session = kill m.session })
  reads :
      (m : Machine) (chunk : List ℕ) → Step m (record m { session = read_chunk chunk m.session })
  -- the process ends, once
  waits :
      (m : Machine) (code : ℕ)
      → m.session.exited ≡ false
      → Step m (record m {
        session = (wait code m.session).1;
        todo = add_todo (wait code m.session).0 m.todo;
      })

pub data Reach (m : Machine) : Machine → Type 0 where
  start : Reach m m
  next : {u v : Machine} → Reach m u → Step u v → Reach m v
