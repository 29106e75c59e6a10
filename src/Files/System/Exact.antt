-- ===== src/Files/System/Exact.antt =====
-- Actions whose calls are known one by one.
use lumio_os.Prelude.{ℕ, ◌≡◌, refl, ap, ◌∙◌, ◌⊎◌, inl, inr, String, Option, none, some, List, ◌∷◌}
use lumio_os.Prelude.Action.{Result, ok, err, Triple, Triple-imp, Post}
use lumio_os.Files.System.{
  Error, Call, created, removed, State, System, M, call, read, create_temp, with_removal, or_close,
  made, ignored, finally,
}
use lumio_os.Files.System.Quiet.{Stable, On, Triple-step, Triple-or_close, Triple-read}
use lumio_os.Files.System.Count.{replacements, replacements-quiet}

abbrev pub At {ℓ} : {W : Type ℓ} → List Call → State W → Type 0
At calls s = s.calls ≡ calls

abbrev pub Same : ℕ → List Call → Type 0
Same n cs = replacements cs ≡ n

pub Same-Stable : (n : ℕ) → Stable (Same n)
Same-Stable n c cs q p = replacements-quiet c cs q ∙ p

-- The calls, and then perhaps the removal of a temporary file.
abbrev pub Cleaned : String → List Call → List Call → Type 0
Cleaned tmp calls cs = (cs ≡ calls) ⊎ (cs ≡ removed tmp ∷ calls)

pub Cleaned-replacements :
    (tmp : String) (calls cs : List Call)
    → Cleaned tmp calls cs
    → replacements cs ≡ replacements calls
unfolding replacements
Cleaned-replacements tmp calls cs (inl e) = ap replacements e
Cleaned-replacements tmp calls cs (inr e) = ap replacements e

module _ {ℓ κ} {W : Type ℓ} {A : Type κ} where
  pub each :
      (P : List Call → Type 0) (Q : A → State W → Type 0) (R : State W → Type 0) (m : M W A)
      → ((calls : List Call) → P calls → Triple (At calls) m Q R)
      → Triple (On P) m Q R
  each P Q R m t = record { holds = λ s p. (t s.calls p).holds s refl }

module _ {ℓ} {W : Type ℓ} (n : ℕ) (calls : List Call) (h : Same n calls) where
  pub exact-call :
      (c : Call) (op : W → Option Error × W)
      → Triple (At calls) (call c op) (λ _. At (c ∷ calls)) (On (Same n))
  exact-call c op =
      Triple-step (λ cs. cs ≡ calls) (λ cs. cs ≡ c ∷ calls) (Same n) c op
        (λ cs e. ap (λ l. c ∷ l) e) (λ cs e. ap replacements e ∙ h)

  pub exact-read {κ} :
      {A : Type κ} (op : W → Result Error A)
      → Triple (At calls) (read op) (λ _. At calls) (On (Same n))
  exact-read op =
      Triple-imp _ (λ s p. p) (λ a s q. q) (λ s e. ap replacements e ∙ h)
        (Triple-read (λ cs. cs ≡ calls) op)

  module _ (sys : System W) where
    -- A step on a temporary file, which is closed when it fails.
    pub exact-step :
        (tmp : String) (c : Call) (op : W → Option Error × W)
        → Triple (At calls) (or_close sys tmp (call c op)) (λ _. At (c ∷ calls)) (On (Same n))
    exact-step tmp c op =
        Triple-or_close (λ cs. cs ≡ calls) (λ cs. cs ≡ c ∷ calls) (Same n) sys tmp (call c op)
          (Same-Stable n) (exact-call c op)

    pub exact-create_temp :
        (dir pattern : String)
        → Triple
            (At calls)
            (create_temp sys dir pattern)
            (λ tmp. At (created tmp ∷ calls))
            (On (Same n))
    unfolding create_temp
    exact-create_temp dir pattern = record {
      holds = λ s e. go s e (sys.create_temp dir pattern s.world);
    }
      where
        go :
            (s : State W)
            → s.calls ≡ calls
            → (r : Result Error String × W)
            → Post (λ tmp. At (created tmp ∷ calls)) (On (Same n)) (made s r)
        go s e (ok tmp, w) = ap (λ l. created tmp ∷ l) e
        go s e (err x, w) = ap replacements e ∙ h

module _ {ℓ κ} {W : Type ℓ} {A : Type κ} (n : ℕ) (sys : System W) where
  pub exact-with_removal :
      (P : State W → Type 0) (Q : A → List Call → Type 0) (tmp : String) (m : M W A)
      → Triple P m (λ a. On (Q a)) (On (Same n))
      → Triple P
          (with_removal sys tmp m)
          (λ a. On λ cs. (done : List Call) × Q a done × Cleaned tmp done cs)
          (On (Same n))
  unfolding with_removal replacements
  exact-with_removal P Q tmp m t = record { holds = λ s p. go (m s) (t.holds s p) }
    where
      cleaned :
          (a : A) (s : State W) (r : Option Error × W)
          → Q a s.calls
          → (done : List Call) × Q a done × Cleaned tmp done (ignored (removed tmp) s r).calls
      cleaned a s (none, w) q = (s.calls, q, inr refl)
      cleaned a s (some e, w) q = (s.calls, q, inl refl)

      failed :
          (s : State W) (r : Option Error × W)
          → Same n s.calls
          → Same n (ignored (removed tmp) s r).calls
      failed s (none, w) q = q
      failed s (some e, w) q = q

      go :
          (x : Result Error A × State W)
          → Post (λ a. On (Q a)) (On (Same n)) x
          → Post
              (λ a. On λ cs. (done : List Call) × Q a done × Cleaned tmp done cs)
              (On (Same n))
              (finally (λ u. ignored (removed tmp) u (sys.remove tmp u.world)) x)
      go (ok a, s) q = cleaned a s (sys.remove tmp s.world) q
      go (err e, s) q = failed s (sys.remove tmp s.world) q
