-- ===== src/Network/Controller/Rules.antt =====
-- Postconditions of the controller's actions: one for a result and one for an error.
use lumio_os.Prelude.{Bool, true, false}
use lumio_os.Network.Controller.Defs.{
  State, Result, Error, ok, err, M, ◌>>=◌, next, pure, fail, guard, lift,
}

abbrev pub Post {ℓ κ} :
    {W : Type ℓ} {A : Type κ}
    → (A → State W → Type 0)
    → (State W → Type 0)
    → Result A × State W
    → Type 0
Post Q E (ok a, s) = Q a s
Post Q E (err e, s) = E s

pub record Triple {ℓ κ} {W : Type ℓ} {A : Type κ} (P : State W → Type 0) (m : M W A)
    (Q : A → State W → Type 0) (E : State W → Type 0) : Type (ℓ ⊔ κ) where
  pub at : (s : State W) → P s → Post Q E (m s)

module _ {ℓ κ} {W : Type ℓ} {A : Type κ} {P E : State W → Type 0} {Q : A → State W → Type 0} where
  pub Triple-pure : (a : A) → ((s : State W) → P s → Q a s) → Triple P (pure a) Q E
  Triple-pure a h = record { at = h }

  pub Triple-fail : (e : Error) → ((s : State W) → P s → E s) → Triple P (fail e) Q E
  Triple-fail e h = record { at = h }

module _ {ℓ κ} {W : Type ℓ} {A : Type κ} {P : State W → Type 0} where
  pub Triple-lift : (r : Result A) → Triple P (lift r) (λ _. P) P
  Triple-lift (ok a) = record { at = λ s p. p }
  Triple-lift (err e) = record { at = λ s p. p }

module _ {ℓ κ ι} {W : Type ℓ} {A : Type κ} {B : Type ι} {P E : State W → Type 0}
    {R : A → State W → Type 0} {Q : B → State W → Type 0} where
  pub Triple-bind :
      (m : M W A) (f : A → M W B)
      → Triple P m R E
      → ((a : A) → Triple (R a) (f a) Q E)
      → Triple P (m >>= f) Q E
  Triple-bind m f tm tf = record { at = λ s p. go (m s) (tm.at s p) }
    where
      go : (x : Result A × State W) → Post R E x → Post Q E (next f x)
      go (ok a, s) h = (tf a).at s h
      go (err e, s) h = h

module _ {ℓ} {W : Type ℓ} {P : State W → Type 0} where
  pub Triple-guard : (b : Bool) (e : Error) → Triple P (guard b e) (λ _. P) P
  Triple-guard true e = record { at = λ s p. p }
  Triple-guard false e = record { at = λ s p. p }
