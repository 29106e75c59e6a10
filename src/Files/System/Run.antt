-- ===== src/Files/System/Run.antt =====
-- Actions from a given state, whose first steps change nothing.
use lumio_os.Prelude.{◌≡◌, refl, Bool, true, false, if◌then◌else◌}
use lumio_os.Prelude.Action.{Result, ok, err, ◌>>=◌, ◌>>◌, next, guard, lift, Post}
use lumio_os.Files.System.{Error, State, M, read}

-- What an action does from the state `s0`.
pub record Run {W : Type 0} {A : Type 0} (s0 : State W) (m : M W A) (Q : A → State W → Type 0)
    (R : State W → Type 0) : Type 0 where
  pub holds : Post Q R (m s0)

module _ {W : Type 0} (s0 : State W) where
  -- What changes nothing is followed by the rest, or its error leaves the state as it is.
  module _ {A B : Type 0} {Q : B → State W → Type 0} {R : State W → Type 0} where
    pub after-lift :
        (r : Result Error A) (f : A → M W B)
        → R s0
        → ((a : A) → r ≡ ok a → Run s0 (f a) Q R)
        → Run s0 (lift r >>= f) Q R
    after-lift (ok a) f unchanged rest = record { holds = (rest a refl).holds }
    after-lift (err e) f unchanged rest = record { holds = unchanged }

    pub after-read :
        (op : W → Result Error A) (f : A → M W B)
        → R s0
        → ((a : A) → op s0.world ≡ ok a → Run s0 (f a) Q R)
        → Run s0 (read op >>= f) Q R
    after-read op f unchanged rest = record {
      holds = (after-lift (op s0.world) f unchanged rest).holds;
    }

  module _ {B : Type 0} {Q : B → State W → Type 0} {R : State W → Type 0} where
    pub after-check :
        (b : Bool) (e : Error) (m : M W B)
        → R s0
        → (b ≡ false → Run s0 m Q R)
        → Run s0 (guard b e >> m) Q R
    unfolding guard
    after-check true e m unchanged rest = record { holds = unchanged }
    after-check false e m unchanged rest = record { holds = (rest refl).holds }

  module _ {A B : Type 0} {Q : B → State W → Type 0} {R : State W → Type 0} {F : A → Type 0} where
    pub after-run :
        (m : M W A) (f : A → M W B)
        → Run s0 m (λ a s. (s ≡ s0) × F a) (λ s. s ≡ s0)
        → R s0
        → ((a : A) → F a → Run s0 (f a) Q R)
        → Run s0 (m >>= f) Q R
    after-run m f first unchanged rest = record { holds = go (m s0) first.holds }
      where
        go :
            (x : Result Error A × State W)
            → Post (λ a s. (s ≡ s0) × F a) (λ s. s ≡ s0) x
            → Post Q R (next f x)
        go (ok a, s) (p, h) = rw (p) (rest a h).holds
        go (err e, s) p = rw (p) unchanged

  module _ {Q : Unit {0} → State W → Type 0} {R : State W → Type 0} where
    pub last-check : (b : Bool) (e : Error) → R s0 → (b ≡ false → Q tt s0) → Run s0 (guard b e) Q R
    unfolding guard
    last-check true e unchanged rest = record { holds = unchanged }
    last-check false e unchanged rest = record { holds = rest refl }

  module _ {A : Type 0} {Q : A → State W → Type 0} {R : State W → Type 0} where
    pub Run-if :
        (b : Bool) (m n : M W A)
        → (b ≡ true → Run s0 m Q R)
        → (b ≡ false → Run s0 n Q R)
        → Run s0 (if b then m else n) Q R
    Run-if true m n on_true on_false = on_true refl
    Run-if false m n on_true on_false = on_false refl
