-- ===== src/Terminal/Session/Examples.antt =====
-- Tests of a terminal session, and the theorem on its scrollback at concrete reads.
use lumio_os.Prelude.{ℕ, ◌-◌, ◌≤◌, ◌≡◌, refl, false, none, some, List, [], ◌∷◌, arith}
use lumio_os.Prelude.Lists.{length, drop}
use lumio_os.Terminal.Session.{
  Session, attach, detach, read_all, refused, err_conflict, start_timer, max_scrollback, resize,
  err_validation,
}
use lumio_os.Terminal.Session.Scrollback.{scrollback_tail}

abbrev terminal : Session
terminal = record {
  grace = 5;
  scrollback = 7 ∷ [];
  attached = false;
  gen = 0;
  events = none;
  exited = false;
  exit_code = 0;
  grace_timer = some 9;
  signalled = false;
  closed = false;
}

abbrev held : Session
held = (attach terminal).1

stops_the_timer : held.grace_timer ≡ none
unfolding attach
stops_the_timer = refl

one_holder : (attach held).0 ≡ refused err_conflict
unfolding attach
one_holder = refl

leaves : (detach 1 held).0 ≡ start_timer
unfolding attach detach
leaves = refl

too_small : resize 0 10 ≡ some err_validation
unfolding resize
too_small = refl

reads : (read_all ((1 ∷ []) ∷ (2 ∷ 3 ∷ []) ∷ []) held).events ≡ some ((1 ∷ []) ∷ (2 ∷ 3 ∷ []) ∷ [])
unfolding attach read_all
reads = refl

abbrev everything : List ℕ
everything = 7 ∷ 1 ∷ 2 ∷ 3 ∷ []

reads_at_the_end :
    ((read_all ((1 ∷ []) ∷ (2 ∷ 3 ∷ []) ∷ []) terminal).scrollback
      ≡ drop (length everything - max_scrollback) everything)
    × (length (read_all ((1 ∷ []) ∷ (2 ∷ 3 ∷ []) ∷ []) terminal).scrollback ≤ max_scrollback)
reads_at_the_end = scrollback_tail ((1 ∷ []) ∷ (2 ∷ 3 ∷ []) ∷ []) terminal (omega arith)
