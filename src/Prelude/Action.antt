-- ===== src/Prelude/Action.antt =====
-- Actions on a state that may fail, and their postconditions: one for a result and one for an error.
use mathlib.Core.Bool.{Bool, true, false}
use mathlib.Core.Path.{◌≡◌, refl}
use lumio_os.Prelude.Tests.{if◌then◌else◌}

pub data Result {ℓ κ} (E : Type ℓ) (A : Type κ) : Type (ℓ ⊔ κ) where
  ok : A → Result E A
  err : E → Result E A

abbrev pub Action {ℓ κ ι} : Type ℓ → Type κ → Type ι → Type (ℓ ⊔ κ ⊔ ι)
Action S E A = S → Result E A × S

module _ {ℓ κ ι μ} {S : Type ℓ} {E : Type κ} {A : Type ι} {B : Type μ} where
  abbrev pub next : (A → Action S E B) → Result E A × S → Result E B × S
  next f (ok a, s) = f a s
  next f (err e, s) = (err e, s)

infixl 5 ◌>>=◌ ◌>>◌
abbrev pub ◌>>=◌ {ℓ κ ι μ} :
    {S : Type ℓ} {E : Type κ} {A : Type ι} {B : Type μ}
    → Action S E A
    → (A → Action S E B)
    → Action S E B
◌>>=◌ m f s = next f (m s)

abbrev pub ◌>>◌ {ℓ κ μ} :
    {S : Type ℓ} {E : Type κ} {B : Type μ} → Action S E (Unit {0}) → Action S E B → Action S E B
m >> k = m >>= λ _. k

abbrev pub pure {ℓ κ ι} : {S : Type ℓ} {E : Type κ} {A : Type ι} → A → Action S E A
pure a s = (ok a, s)

abbrev pub fail {ℓ κ ι} : {S : Type ℓ} {E : Type κ} {A : Type ι} → E → Action S E A
fail e s = (err e, s)

abbrev pub lift {ℓ κ ι} : {S : Type ℓ} {E : Type κ} {A : Type ι} → Result E A → Action S E A
lift r s = (r, s)

-- if fails { return error }
unfoldable pub guard {ℓ κ} : {S : Type ℓ} {E : Type κ} → Bool → E → Action S E (Unit {0})
guard fails e s = if fails then (err e, s) else (ok tt, s)

module _ {ℓ κ ι} {S : Type ℓ} {E : Type κ} {A : Type ι} where
  abbrev pub Post : (A → S → Type 0) → (S → Type 0) → Result E A × S → Type 0
  Post Q R (ok a, s) = Q a s
  Post Q R (err e, s) = R s

pub record Triple {ℓ κ ι} {S : Type ℓ} {E : Type κ} {A : Type ι} (P : S → Type 0) (m : Action S E A)
    (Q : A → S → Type 0) (R : S → Type 0) : Type (ℓ ⊔ κ ⊔ ι) where
  pub holds : (s : S) → P s → Post Q R (m s)

module _ {ℓ κ ι} {S : Type ℓ} {E : Type κ} {A : Type ι} {P R : S → Type 0}
    {Q : A → S → Type 0} where
  pub Triple-pure : (a : A) → ((s : S) → P s → Q a s) → Triple {E = E} P (pure a) Q R
  Triple-pure a h = record { holds = h }

module _ {ℓ κ ι} {S : Type ℓ} {E : Type κ} {A : Type ι} {P : S → Type 0} where
  pub Triple-lift : (r : Result E A) → Triple P (lift r) (λ _. P) P
  Triple-lift (ok a) = record { holds = λ s p. p }
  Triple-lift (err e) = record { holds = λ s p. p }

module _ {ℓ κ ι μ} {S : Type ℓ} {E : Type κ} {A : Type ι} {B : Type μ} {P R : S → Type 0}
    {M : A → S → Type 0} {Q : B → S → Type 0} where
  pub Triple-bind :
      (m : Action S E A) (f : A → Action S E B)
      → Triple P m M R
      → ((a : A) → Triple (M a) (f a) Q R)
      → Triple P (m >>= f) Q R
  Triple-bind m f tm tf = record { holds = λ s p. go (m s) (tm.holds s p) }
    where
      go : (x : Result E A × S) → Post M R x → Post Q R (next f x)
      go (ok a, s) h = (tf a).holds s h
      go (err e, s) h = h

module _ {ℓ κ} {S : Type ℓ} {E : Type κ} {P : S → Type 0} where
  pub Triple-guard : (b : Bool) (e : E) → Triple P (guard b e) (λ _. P) P
  unfolding guard
  Triple-guard true e = record { holds = λ s p. p }
  Triple-guard false e = record { holds = λ s p. p }

  -- A check that was passed is known to hold after it.
  pub Triple-check : (b : Bool) (e : E) → Triple P (guard b e) (λ _ s. P s × (b ≡ false)) P
  unfolding guard
  Triple-check true e = record { holds = λ s p. p }
  Triple-check false e = record { holds = λ s p. (p, refl) }

module _ {ℓ κ ι} {S : Type ℓ} {E : Type κ} {A : Type ι} {P R : S → Type 0}
    {Q : A → S → Type 0} where
  pub Triple-if :
      (b : Bool) (m n : Action S E A)
      → (b ≡ true → Triple P m Q R)
      → (b ≡ false → Triple P n Q R)
      → Triple P (if b then m else n) Q R
  Triple-if true m n on_true on_false = on_true refl
  Triple-if false m n on_true on_false = on_false refl

module _ {ℓ κ ι} {S : Type ℓ} {E : Type κ} {A : Type ι} {P P' R R' : S → Type 0}
    {Q Q' : A → S → Type 0} where
  pub Triple-imp :
      (m : Action S E A)
      → ((s : S) → P' s → P s)
      → ((a : A) (s : S) → Q a s → Q' a s)
      → ((s : S) → R s → R' s)
      → Triple P m Q R
      → Triple P' m Q' R'
  Triple-imp m before after failed t = record { holds = λ s p. go (m s) (t.holds s (before s p)) }
    where
      go : (x : Result E A × S) → Post Q R x → Post Q' R' x
      go (ok a, s) h = after a s h
      go (err e, s) h = failed s h
