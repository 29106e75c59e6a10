-- ===== src/Files/System/Quiet.antt =====
-- What the calls that leave the targets alone keep.
use lumio_os.Prelude.{◌≡◌, refl, String, Bool, true, false, Option, none, some, List, ◌∷◌}
use lumio_os.Prelude.Action.{Result, ok, err, Triple, Post}
use lumio_os.Files.System.{
  Error, Call, closed, replaced, State, System, M, call, read, or_close, sync_dir, logged, ignored,
  on_error,
}

-- A call that replaces no target.
abbrev pub is_quiet : Call → Bool
is_quiet (replaced tmp path) = false
is_quiet c = true

-- A predicate on the calls that further quiet calls do not break.
abbrev pub Stable : (List Call → Type 0) → Type 0
Stable P = (c : Call) (cs : List Call) → is_quiet c ≡ true → P cs → P (c ∷ cs)

abbrev pub On {ℓ} : {W : Type ℓ} → (List Call → Type 0) → State W → Type 0
On P s = P s.calls

module _ {ℓ} {W : Type ℓ} (P : List Call → Type 0) where
  pub Triple-read {κ} :
      {A : Type κ} (op : W → Result Error A) → Triple (On P) (read op) (λ _. On P) (On P)
  Triple-read {A = A} op = record { holds = λ s p. go s (op s.world) p }
    where
      go : (s : State W) (r : Result Error A) → P s.calls → Post (λ _. On P) (On P) (r, s)
      go s (ok a) p = p
      go s (err e) p = p

  module _ (sys : System W) where
    pub Triple-sync_dir :
        (R : List Call → Type 0) (dir : String)
        → Triple (On P) (sync_dir sys dir) (λ _. On P) (On R)
    unfolding sync_dir
    Triple-sync_dir R dir = record { holds = λ s p. p }

module _ {ℓ} {W : Type ℓ} (R : List Call → Type 0) where
  ignored-Stable :
      (c : Call) (s : State W) (r : Option Error × W)
      → Stable R
      → is_quiet c ≡ true
      → R s.calls
      → R (ignored c s r).calls
  ignored-Stable c s (none, w) st q p = st c s.calls q p
  ignored-Stable c s (some e, w) st q p = p

module _ {ℓ κ} {W : Type ℓ} {A : Type κ} (P Q R : List Call → Type 0) (sys : System W) where
  pub Triple-or_close :
      (path : String) (m : M W A)
      → Stable R
      → Triple (On P) m (λ _. On Q) (On R)
      → Triple (On P) (or_close sys path m) (λ _. On Q) (On R)
  unfolding or_close
  Triple-or_close path m sr t = record { holds = λ s p. go (m s) (t.holds s p) }
    where
      go :
          (x : Result Error A × State W)
          → Post (λ _. On Q) (On R) x
          → Post
              (λ _. On Q)
              (On R)
              (on_error (λ u. ignored (closed path) u (sys.close path u.world)) x)
      go (ok a, s) h = h
      go (err e, s) h = ignored-Stable R (closed path) s (sys.close path s.world) sr refl h

module _ {ℓ} {W : Type ℓ} (P Q R : List Call → Type 0) where
  -- A call that leads from one predicate to another.
  pub Triple-step :
      (c : Call) (op : W → Option Error × W)
      → ((cs : List Call) → P cs → Q (c ∷ cs))
      → ((cs : List Call) → P cs → R cs)
      → Triple (On P) (call c op) (λ _. On Q) (On R)
  Triple-step c op done failed = record { holds = λ s p. go s (op s.world) p }
    where
      go : (s : State W) (r : Option Error × W) → P s.calls → Post (λ _. On Q) (On R) (logged c s r)
      go s (none, w) p = done s.calls p
      go s (some e, w) p = failed s.calls p
