-- ===== src/Network/Controller/Candidates.antt =====
-- What becomes of a Netplan candidate: a cancel call, an apply call that succeeds, or the pending change.
use lumio_os.Prelude.{
  ℕ, ◌+◌, ◌≤◌, String, ◌≡◌, refl, Bool, true, false, not, ◌||◌, Option, none, some, List, [], ◌∷◌,
  arith, ltb, str_eq, Bool-cases, Option-cases, inl, inr,
}
use lumio_os.Prelude.Int.{ℤ}
use lumio_os.Network.Config.{Config, EthernetConfig}
use lumio_os.Network.Controller.Defs.{
  State, Result, ok, err, M, next, Backend, Environment, Pending, PendingState, Act, created,
  applied, cancelled, ObjectPath, Clock, rollback_and_verify, clear_expired, verify_rollback,
  forget_pending, retry_later, set_all, stage, install, draw, cancel_on_error, begin, check_request,
  apply, confirm, expire, drop_pending, accept, record_create, call_cancel, call_create, call_set,
  call_try, call_apply, sort_names, outcome,
}
use lumio_os.Network.Controller.Rules.{
  Post, Triple, Triple-pure, Triple-fail, Triple-bind, Triple-guard, Triple-lift,
}

abbrev one_if : Bool → ℕ
one_if true = 1
one_if false = 0

-- How often a candidate's path was created.
abbrev pub created_at : String → List Act → ℕ
created_at p [] = 0
created_at p (created q ∷ acts) = one_if (str_eq q p) + created_at p acts
created_at p (_ ∷ acts) = created_at p acts

-- How often it was applied without an error, or a cancel was called for it. Nobody can do more about a
-- candidate than call `cancel`: the source goes on when that fails.
abbrev pub settled_at : String → List Act → ℕ
settled_at p [] = 0
settled_at p (applied q none ∷ acts) = one_if (str_eq q p) + settled_at p acts
settled_at p (cancelled q e ∷ acts) = one_if (str_eq q p) + settled_at p acts
settled_at p (_ ∷ acts) = settled_at p acts

abbrev pub held_at : String → Option PendingState → ℕ
held_at p none = 0
held_at p (some x) = one_if (str_eq x.path p)

-- The same as often as it was created, but for the pending change.
abbrev pub NoLeak {ℓ} : {W : Type ℓ} → State W → Type 0
NoLeak s = (p : String) → created_at p s.calls ≤ settled_at p s.calls + held_at p s.pending

abbrev Idle {ℓ} : {W : Type ℓ} → State W → Type 0
Idle s = (s.pending ≡ none) × NoLeak s

-- The same with one more candidate, which is still being staged.
abbrev Owes {ℓ} : {W : Type ℓ} → String → State W → Type 0
Owes q s =
    (s.pending ≡ none)
    × ((p : String) → created_at p s.calls ≤ settled_at p s.calls + one_if (str_eq q p))

Post-outcome {ℓ} :
    {W : Type ℓ} (Q : State W → Type 0) {s : State W} (o : Option String)
    → Q s
    → Post (λ _. Q) Q (outcome o, s)
Post-outcome Q none q = q
Post-outcome Q (some message) q = q

module _ {ℓ} {W : Type ℓ} (backend : Backend W) (env : Environment) where
  call_cancel-Owes : (q : String) (s : State W) → Owes q s → Idle (call_cancel backend q s).1
  unfolding call_cancel
  call_cancel-Owes q s h = (h.0, λ p. ground (arith, h.1 p))

  call_cancel-NoLeak : (q : String) (s : State W) → NoLeak s → NoLeak (call_cancel backend q s).1
  unfolding call_cancel
  call_cancel-NoLeak q s h = λ p. ground (arith, h p)

  call_set-Owes :
      (q path text : String) → Triple (Owes q) (call_set backend path text) (λ _. Owes q) (Owes q)
  unfolding call_set
  call_set-Owes q path text = record {
    at = λ s h. Post-outcome (Owes q) (backend.set path text s.world).0 h;
  }

  set_all-Owes :
      (q path : String) (l : List (String × EthernetConfig))
      → Triple (Owes q) (set_all backend env path l) (λ _. Owes q) (Owes q)
  unfolding set_all
  set_all-Owes q path [] = Triple-pure tt (λ s h. h)
  set_all-Owes q path ((name, e) ∷ rest) =
      Triple-bind _ _ (call_set-Owes q path _) (λ _. set_all-Owes q path rest)

  call_try-Owes :
      (q path : String) (t : ℕ) → Triple (Owes q) (call_try backend path t) (λ _. Owes q) (Owes q)
  unfolding call_try
  call_try-Owes q path t = record {
    at = λ s h. Post-outcome (Owes q) (backend.try path t s.world).0 h;
  }

  draw-Owes :
      (q : String) (random : Option String)
      → Triple (Owes {W = W} q) (draw backend env random) (λ _. Owes q) (Owes q)
  draw-Owes q none = Triple-fail _ (λ s h. h)
  draw-Owes q (some t) = Triple-pure t (λ s h. h)

  install-Owes :
      (q : String) (p : Pending)
      → Triple (Owes {W = W} q) (install backend env q p) (λ _. NoLeak) (Owes q)
  unfolding install
  install-Owes q p = record { at = λ s h k. ground (arith, h.1 k) }

  stage-Owes :
      (config : Config) (expected : String) (timeout started : ℕ) (random : Option String)
      (q merged : String)
      → Triple
          (Owes q)
          (stage backend env config expected timeout started random q merged)
          (λ _. NoLeak)
          (Owes q)
  unfolding stage
  stage-Owes config expected timeout started random q merged =
      Triple-bind _ _ (Triple-guard _ _) λ _.
        Triple-bind _ _ (set_all-Owes q q (sort_names config.ethernets)) λ _.
          Triple-bind _ _ (call_try-Owes q q timeout)
            λ _. Triple-bind _ _ (draw-Owes q random) λ token. install-Owes q _

  cancel_on_error-Owes {κ} :
      {A : Type κ} (q : String) (m : M W A)
      → Triple (Owes q) m (λ _. NoLeak) (Owes q)
      → Triple (Owes q) (cancel_on_error backend env q m) (λ _. NoLeak) Idle
  unfolding cancel_on_error
  cancel_on_error-Owes {A = A} q m t = record { at = λ s h. go (m s) (t.at s h) }
    where
      go :
          (x : Result A × State W)
          → Post (λ _. NoLeak) (Owes q) x
          → Post
              (λ _. NoLeak)
              Idle
              (elim x.0 as (λ _. Result A × State W) [
                | ok a ↦ (ok a, x.1)
                | err e ↦ (err e, (call_cancel backend q x.1).1)
              ])
      go (ok a, s) h = h
      go (err e, s) h = call_cancel-Owes q s h

  made-Idle :
      (s : State W)
      → Idle s
      → (x : Result (ObjectPath × String) × W) → Post (λ c. Owes c.0) Idle (record_create s x)
  made-Idle s h (ok c, w) = (h.0, λ p. ground (arith, h.1 p))
  made-Idle s h (err e, w) = h

  call_create-Idle : Triple Idle (call_create backend) (λ c. Owes c.0) Idle
  unfolding call_create
  call_create-Idle = record { at = λ s h. made-Idle s h (backend.create s.world) }

  begin-Idle :
      (config : Config) (expected : String) (timeout started : ℕ) (random : Option String)
      → Triple Idle (begin backend env config expected timeout started random) (λ _. NoLeak) Idle
  unfolding begin
  begin-Idle config expected timeout started random = Triple-bind _ _ call_create-Idle λ candidate.
      cancel_on_error-Owes candidate.0 _
        (stage-Owes config expected timeout started random candidate.0 candidate.1)

-- Every candidate was settled, the pending change's among them.
abbrev pub Settled {ℓ} : {W : Type ℓ} → State W → Type 0
Settled s = (p : String) → created_at p s.calls ≤ settled_at p s.calls

Settled-NoLeak {ℓ} : {W : Type ℓ} (s : State W) → Settled s → NoLeak s
Settled-NoLeak s h = λ p. omega (arith, h p)

Post-weaken {ℓ κ} :
    {W : Type ℓ} {A : Type κ} (r : Result A × State W)
    → Post (λ _. NoLeak) Idle r
    → Post (λ _. NoLeak) NoLeak r
Post-weaken (ok a, s) h = h
Post-weaken (err e, s) h = h.1

Post-state {ℓ κ} :
    {W : Type ℓ} {A : Type κ} (r : Result A × State W) → Post (λ _. NoLeak) NoLeak r → NoLeak r.1
Post-state (ok a, s) h = h
Post-state (err e, s) h = h

module _ {ℓ} {W : Type ℓ} (backend : Backend W) (env : Environment) where
  cancel-Settled :
      (x : PendingState) (s : State W)
      → s.pending ≡ some x
      → NoLeak s
      → Settled (call_cancel backend x.path s).1
  unfolding call_cancel
  cancel-Settled x s e h = λ p. ground (arith, h p)

  recheck-Settled :
      (q : String) (s : State W)
      → ((p : String) → created_at p s.calls ≤ settled_at p s.calls + one_if (str_eq q p))
      → Settled (call_cancel backend q s).1
  unfolding call_cancel
  recheck-Settled q s h = λ p. ground (arith, h p)

  verify-Settled :
      (cancel_err : Option String) (x : PendingState) (s : State W)
      (r : Result (ObjectPath × String) × W)
      → Settled s
      → Settled (verify_rollback backend env cancel_err x (record_create s r)).1
  unfolding verify_rollback
  verify-Settled cancel_err x s (err e, w) h = h
  verify-Settled cancel_err x s (ok c, w) h =
      elim (Bool-cases (str_eq (env.revision c.1) x.pending.previous_revision)) [
        | inl same ↦ rw same recheck
        | inr changed ↦ rw changed recheck
      ]
    where
      made : State W
      made = record s { calls = created c.0 ∷ s.calls; world = w }

      recheck : Settled (call_cancel backend c.0 made).1
      recheck = recheck-Settled c.0 made (λ p. ground (arith, h p))

  -- A rollback settles the pending change's candidate and its own, whether it succeeds or not.
  rollback-Settled :
      (x : PendingState) (s : State W)
      → s.pending ≡ some x
      → NoLeak s
      → Settled (rollback_and_verify backend env x s).1
  unfolding rollback_and_verify call_create
  rollback-Settled x s e h =
      verify-Settled (call_cancel backend x.path s).0 x (call_cancel backend x.path s).1
        (backend.create (call_cancel backend x.path s).1.world) (cancel-Settled x s e h)

  forget-NoLeak :
      (r : Result (Unit {0}) × State W)
      → Settled r.1
      → Post (λ _. Idle) NoLeak (forget_pending backend env r)
  unfolding forget_pending
  forget-NoLeak (ok u, s) h = (refl, λ p. omega (arith, h p))
  forget-NoLeak (err e, s) h = Settled-NoLeak s h

  clear_expired-NoLeak :
      (now : ℕ) → Triple NoLeak (clear_expired backend env now) (λ _. Idle) NoLeak
  unfolding clear_expired
  clear_expired-NoLeak now = record {
    at = λ s h. elim (Option-cases s.pending) [
      | inl idle ↦ rw (idle, clear_expired) (idle, h)
      | inr (x, busy) ↦ elim (Bool-cases (ltb now x.pending.expires_at)) [
        | inl early ↦ rw (busy, early, clear_expired) h
        | inr late ↦
            rw (busy, late, clear_expired)
              (forget-NoLeak (rollback_and_verify backend env x s) (rollback-Settled x s busy h))
      ]
    ];
  }

  apply-Triple :
      (config : Config) (expected : String) (timeout : ℤ) (clock : Clock) (random : Option String)
      → Triple NoLeak (apply backend env config expected timeout clock random) (λ _. NoLeak) NoLeak
  unfolding apply
  apply-Triple config expected timeout clock random =
      Triple-bind _ _ (Triple-lift (check_request env config expected timeout)) λ t.
        Triple-bind _ _ (clear_expired-NoLeak clock.checked) λ _. record {
          at = λ s h.
              Post-weaken (begin backend env config expected t clock.started random s)
                ((begin-Idle backend env config expected t clock.started random).at s h);
        }

  -- `Apply`, whatever it answers, leaves no candidate behind.
  pub apply-NoLeak :
      (config : Config) (expected : String) (timeout : ℤ) (clock : Clock) (random : Option String)
      (s : State W)
      → NoLeak s
      → NoLeak (apply backend env config expected timeout clock random s).1
  apply-NoLeak config expected timeout clock random s h =
      Post-state _ ((apply-Triple config expected timeout clock random).at s h)

  applied-NoLeak :
      (x : PendingState) (s : State W) (o : Option String) (w : W)
      → s.pending ≡ some x
      → NoLeak s
      → Post
          (λ _. Settled)
          NoLeak
          (outcome o, record s { calls = applied x.path o ∷ s.calls; world = w })
  applied-NoLeak x s none w e h = λ p. ground (arith, h p)
  applied-NoLeak x s (some message) w e h = λ p. ground (arith, h p)

  accept-NoLeak :
      (x : PendingState) (s : State W)
      → s.pending ≡ some x
      → NoLeak s
      → NoLeak (accept backend env x s).1
  unfolding accept call_apply drop_pending
  accept-NoLeak x s busy h =
      finish (backend.apply x.path s.world).0 (
        applied-NoLeak x s (backend.apply x.path s.world).0 (backend.apply x.path s.world).1 busy h)
    where
      t : State W
      t = record s {
        calls = applied x.path (backend.apply x.path s.world).0 ∷ s.calls;
        world = (backend.apply x.path s.world).1;
      }

      finish :
          (o : Option String)
          → Post (λ _. Settled) NoLeak (outcome o, t)
          → NoLeak (next (λ _. drop_pending backend env x.pending) (outcome o, t)).1
      finish none k = λ p. omega (arith, k p)
      finish (some message) k = k

  -- So does `Confirm`,
  pub confirm-NoLeak :
      (token : String) (now : ℕ) (s : State W)
      → NoLeak s
      → NoLeak (confirm backend env token now s).1
  unfolding confirm
  confirm-NoLeak token now s h = elim (Option-cases s.pending) [
    | inl idle ↦ rw (idle, confirm) h
    | inr (x, busy) ↦ elim (Bool-cases (str_eq token "" || not (str_eq token x.pending.token))) [
      | inl wrong ↦ rw (busy, wrong, confirm) h
      | inr right ↦ elim (Bool-cases (not (ltb now x.pending.expires_at))) [
        | inl late ↦ rw (busy, right, late, confirm) h
        | inr early ↦ rw (busy, right, early, confirm) (accept-NoLeak x s busy h)
      ]
    ]
  ]

  retry-NoLeak :
      (x : PendingState) (now : ℕ) (r : Result (Unit {0}) × State W)
      → Settled r.1
      → NoLeak (retry_later backend env x now r)
  unfolding retry_later
  retry-NoLeak x now (ok u, s) h = λ p. omega (arith, h p)
  retry-NoLeak x now (err e, s) h = λ p. omega (arith, h p)

  -- and so does the timer.
  pub expire-NoLeak :
      (token path : String) (now : ℕ) (s : State W)
      → NoLeak s
      → NoLeak (expire backend env token path now s)
  unfolding expire
  expire-NoLeak token path now s h = elim (Option-cases s.pending) [
    | inl idle ↦ rw (idle, expire) h
    | inr (x, busy) ↦
        elim (Bool-cases (not (str_eq x.pending.token token) || not (str_eq x.path path))) [
          | inl stale ↦ rw (busy, stale, expire) h
          | inr mine ↦
              rw (busy, mine, expire)
                (retry-NoLeak x now (rollback_and_verify backend env x s)
                  (rollback-Settled x s busy h))
        ]
  ]
