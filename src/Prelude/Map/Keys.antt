-- ===== src/Prelude/Map/Keys.antt =====
-- The keys of a map stay distinct, and what that gives for `retain`.
use mathlib.Core.Path.{◌≡◌, refl}
use mathlib.Core.Logic.{inl, inr}
use mathlib.Core.Bool.{Bool}
use mathlib.Core.Option.{Option, none, some}
use mathlib.Core.List.{[], ◌∷◌}
use native.Mathlib.Omega.{arith}
use lumio_os.Prelude.Tests.{Eq, if◌then◌else◌, Bool-cases}
use lumio_os.Prelude.Map.{
  Map, lookup, insert, delete, retain, Distinct, lookup-insert, lookup-delete,
}

-- What `retain` leaves of the answer of a lookup.
abbrev pub kept {ℓ} : {V : Type ℓ} → (V → Bool) → Option V → Option V
kept keep none = none
kept keep (some v) = if keep v then some v else none

module _ {ℓ κ} {K : Type ℓ} {V : Type κ} ⦃e : Eq K⦄ where
  pub lookup-retain-none :
      (keep : V → Bool) (k : K) (m : Map K V) → lookup k m ≡ none → lookup k (retain keep m) ≡ none
  unfolding lookup retain
  lookup-retain-none keep k [] h = refl
  lookup-retain-none keep k ((j, w) ∷ m) h = ground (arith, lookup-retain-none keep k m)

  pub lookup-retain :
      (keep : V → Bool) (k : K) (m : Map K V)
      → Distinct m
      → lookup k (retain keep m) ≡ kept keep (lookup k m)
  unfolding lookup retain
  lookup-retain keep k [] d = refl
  lookup-retain keep k ((j, w) ∷ m) d =
      ground (arith, lookup-retain keep k m d.1, lookup-retain-none keep j m d.0, e.beq_iff j k)

  pub insert-Distinct : (k : K) (v : V) (m : Map K V) → Distinct m → Distinct (insert k v m)
  unfolding insert lookup
  insert-Distinct k v [] d = (refl, tt)
  insert-Distinct k v ((j, w) ∷ m) d = elim (Bool-cases (e.beq j k)) [
    | inl same ↦ rw same (rw (← (e.beq_iff j k).0 same) d.0, d.1)
    | inr other ↦ rw other (
      ground (arith, lookup-insert k j v m, e.beq_iff k j, e.beq_iff j k),
      insert-Distinct k v m d.1,
    )
  ]

  pub delete-Distinct : (k : K) (m : Map K V) → Distinct m → Distinct (delete k m)
  unfolding delete
  delete-Distinct k [] d = d
  delete-Distinct k ((j, w) ∷ m) d = ground (arith, delete-Distinct k m d.1, lookup-delete k j m)

  pub retain-Distinct : (keep : V → Bool) (m : Map K V) → Distinct m → Distinct (retain keep m)
  unfolding retain
  retain-Distinct keep [] d = d
  retain-Distinct keep ((j, w) ∷ m) d =
      ground (arith, retain-Distinct keep m d.1, lookup-retain-none keep j m d.0)
