-- ===== src/Terminal/Machine/Orphans.antt =====
-- No terminal is forgotten while its process runs, none is kept for ever, and none is left running
-- without an end in sight.
use lumio_os.Prelude.{
  ℕ, ◌≡◌, refl, ap, ◌+◌, ◌<◌, ◌⊎◌, Option-cases, Bool, true, false, ◌&&◌, ◌||◌, not, Option, none,
  some, List, [], ◌∷◌, ◌==◌, arith, ==_iff, Bool-cases, inl, inr, if◌then◌else◌,
}
use lumio_os.Terminal.Session.{
  Session, Todo, gone, start_timer, Attachment, granted, attach, detach, arm_timer, kill,
  read_chunk, wait,
}
use lumio_os.Terminal.Machine.{
  Machine, Step, attaches, detaches, forgets, arms, fires, kills, reads, waits, Reach, start, next,
  Remove, here, there, opened,
}

unfoldable pub has_gone : List Todo → Bool
has_gone [] = false
has_gone (gone ∷ todo) = true
has_gone (start_timer ∷ todo) = has_gone todo

unfoldable pub has_timer : List Todo → Bool
has_timer [] = false
has_timer (start_timer ∷ todo) = true
has_timer (gone ∷ todo) = has_timer todo

Remove-gone-has : (xs ys : List Todo) → Remove gone xs ys → has_gone xs ≡ true
unfolding has_gone
Remove-gone-has _ _ (here xs) = refl
Remove-gone-has _ _ (there gone r) = refl
Remove-gone-has _ _ (there start_timer r) = Remove-gone-has _ _ r

Remove-gone-timer : (xs ys : List Todo) → Remove gone xs ys → has_timer ys ≡ has_timer xs
unfolding has_timer
Remove-gone-timer _ _ (here xs) = refl
Remove-gone-timer _ _ (there gone r) = Remove-gone-timer _ _ r
Remove-gone-timer _ _ (there start_timer r) = refl

Remove-timer-gone : (xs ys : List Todo) → Remove start_timer xs ys → has_gone ys ≡ has_gone xs
unfolding has_gone
Remove-timer-gone _ _ (here xs) = refl
Remove-timer-gone _ _ (there gone r) = refl
Remove-timer-gone _ _ (there start_timer r) = Remove-timer-gone _ _ r

abbrev is_set : Option ℕ → Bool
is_set none = false
is_set (some at) = true

-- An ended terminal that nobody holds is out of the map, or about to be.
abbrev dropped : Machine → Bool
dropped m = not m.session.exited || m.session.attached || not m.registered || has_gone m.todo

-- A running terminal is in the map, and nobody is about to drop it.
abbrev kept : Machine → Bool
kept m = m.session.exited || (m.registered && not (has_gone m.todo))

-- A running terminal that nobody holds was never held, or was killed, or its timer runs or is about
-- to be set.
abbrev doomed : Machine → Bool
doomed m =
    m.session.exited
    || m.session.attached
    || m.session.signalled
    || is_set m.session.grace_timer
    || has_timer m.todo
    || m.session.gen == 0

abbrev Holds : Session → List ℕ → Type 0
Holds s holders = holders ≡ (if s.attached then s.gen ∷ [] else [])

abbrev Inv : Machine → Type 0
Inv m = (dropped m ≡ true) × (kept m ≡ true) × (doomed m ≡ true) × Holds m.session m.holders

Remove-nil : (g : ℕ) (xs ys : List ℕ) → Remove g xs ys → xs ≡ [] → ⊥
Remove-nil g _ _ (here xs) e = cc e
Remove-nil g _ _ (there y r) e = cc e

-- Whoever detaches is the one holder.
Remove-holder :
    (attached : Bool) (h g : ℕ) (xs ys : List ℕ)
    → Remove g xs ys
    → xs ≡ (if attached then h ∷ [] else [])
    → (attached ≡ true) × (h ≡ g) × (ys ≡ [])
Remove-holder true h g _ _ (here xs) e = (refl, cc e, cc e)
Remove-holder true h g _ _ (there y r) e = absurd (Remove-nil g _ _ r (cc e))
Remove-holder false h g xs ys r e = absurd (Remove-nil g xs ys r e)

attaches-Inv :
    (m : Machine) (a : Attachment) (s : Session)
    → attach m.session ≡ (granted a, s)
    → Inv m
    → Inv (record m { session = s; holders = a.gen ∷ m.holders })
unfolding attach
attaches-Inv m a s h (d, k, f, l) = elim (Bool-cases m.session.exited) [
  | inl e ↦ absurd (cc (rw (e, attach) at h))
  | inr e ↦ elim (Bool-cases m.session.attached) [
    | inl g ↦ absurd (cc (rw (e, g, attach) at h))
    | inr g ↦
        let all = rw (e, g, attach) at h in
        let left : _ ≡ s = ap (λ r. r.1) all in
        let holder : record { replay = m.session.scrollback; gen = m.session.gen + 1 } ≡ a =
          cc all in
        let nobody : m.holders ≡ [] = rw g at l in
        rw (← left, ← holder, nobody) (refl, rw e at k, refl, refl)
  ]
]

detaches-Inv :
    (m : Machine) (gen : ℕ) (holders : List ℕ)
    → Remove gen m.holders holders
    → Inv m
    → Inv (record m {
      session = (detach gen m.session).1;
      holders = holders;
      todo = (detach gen m.session).0 ∷ m.todo;
    })
unfolding detach has_gone has_timer
detaches-Inv m gen holders r (d, k, f, l) =
    let (attached, same, empty) = Remove-holder m.session.attached m.session.gen gen _ _ r l in
    elim (Bool-cases m.session.exited) [
      | inl e ↦ rw (same, (==_iff gen gen).1 refl, e, empty) (ground arith, refl, refl, refl)
      | inr e ↦ rw (same, (==_iff gen gen).1 refl, e, empty) (refl, rw e at k, ground arith, refl)
    ]

forgets-Inv :
    (m : Machine) (todo : List Todo)
    → Remove gone m.todo todo
    → Inv m
    → Inv (record m { registered = false; todo = todo })
forgets-Inv m todo r (d, k, f, l) =
    let was = Remove-gone-has m.todo todo r in
    let same = Remove-gone-timer m.todo todo r in (ground arith, ground arith, ground arith, l)

Step-Inv : {m n : Machine} → Step m n → Inv m → Inv n
unfolding arm_timer kill read_chunk wait has_gone has_timer
Step-Inv (attaches m a s r h) inv = attaches-Inv m a s h inv
Step-Inv (detaches m gen holders r) inv = detaches-Inv m gen holders r inv
Step-Inv (forgets m todo r) inv = forgets-Inv m todo r inv
Step-Inv (arms m now todo r) (d, k, f, l) =
    let same = Remove-timer-gone m.todo todo r in (rw same d, rw same k, ground arith, l)
Step-Inv (fires m at h) (d, k, f, l) = (d, k, ground arith, l)
Step-Inv (kills m) (d, k, f, l) = (d, k, ground arith, l)
Step-Inv (reads m chunk) inv = inv
Step-Inv (waits m code h) (d, k, f, l) = elim (Bool-cases m.session.attached) [
  | inl e ↦ rw e (refl, refl, refl, ground arith)
  | inr e ↦ rw e (ground arith, refl, refl, ground arith)
]

Reach-Inv : {m n : Machine} → Reach m n → Inv m → Inv n
Reach-Inv start inv = inv
Reach-Inv (next r st) inv = Step-Inv st (Reach-Inv r inv)

opened-Inv : (grace : ℕ) → Inv (opened grace)
unfolding has_gone has_timer
opened-Inv grace = (refl, refl, refl, refl)

unheld : (m : Machine) → Holds m.session m.holders → m.holders ≡ [] → m.session.attached ≡ false
unheld m l nobody = elim (Bool-cases m.session.attached) [
  | inl e ↦ absurd (cc (rw (nobody, e) at l))
  | inr e ↦ e
]

-- Whatever the connections, the process and the timers of a terminal do, in any order: while its
-- process runs, the manager has the terminal. Once the process has ended, nobody holds it and
-- nothing is left to do, the manager has it no longer.
pub kept_while_running :
    (grace : ℕ) (m : Machine)
    → Reach (opened grace) m
    → (m.session.exited ≡ false → m.registered ≡ true)
      × (m.session.exited ≡ true → m.holders ≡ [] → m.todo ≡ [] → m.registered ≡ false)
unfolding has_gone
kept_while_running grace m r =
    let (d, k, f, l) = Reach-Inv r (opened-Inv grace) in
    (
      λ e. ground arith,
      λ e nobody nothing.
          let free = unheld m l nobody in
          let idle : has_gone m.todo ≡ false = rw nothing refl in ground arith,
    )

-- A terminal that was held and is held no longer, while its process runs and nothing is left to do,
-- was killed, or its grace timer runs.
pub killed_in_the_end :
    (grace : ℕ) (m : Machine)
    → Reach (opened grace) m
    → m.session.exited ≡ false
    → m.holders ≡ []
    → m.todo ≡ []
    → 0 < m.session.gen
    → (m.session.signalled ≡ true) ⊎ ((at : ℕ) × (m.session.grace_timer ≡ some at))
unfolding has_timer
killed_in_the_end grace m r running nobody nothing held =
    let (d, k, f, l) = Reach-Inv r (opened-Inv grace) in
    let free = unheld m l nobody in
    let idle : has_timer m.todo ≡ false = rw nothing refl in
    elim (Option-cases m.session.grace_timer) [
      | inr (deadline, e) ↦ inr (deadline, e)
      | inl e ↦
          let none_set : is_set m.session.grace_timer ≡ false = rw e refl in inl (ground arith)
    ]
