-- ===== src/Network/Controller/Safety.antt =====
-- When the controller touches the network, and what a pending change is.
use lumio_os.Prelude.{
  ℕ, ◌<◌, String, ◌≡◌, ◌≢◌, refl, ap, ◌∙◌, not, ◌||◌, Option, none, some, List, [], ◌∷◌, arith, ltb,
  str_eq, eq_iff, Bool-cases, Option-cases, ◌⊎◌, inl, inr,
}
use lumio_os.Prelude.Int.{ℤ}
use lumio_os.Network.Config.{Config}
use lumio_os.Network.Controller.Candidates.{NoLeak, apply-NoLeak, confirm-NoLeak, expire-NoLeak}
use lumio_os.Network.Controller.Defs.{
  State, Result, Error, ok, err, err_busy, M, ◌>>◌, next, begin, Backend, Environment, Pending,
  PendingState, applied, ObjectPath, Clock, check_request, clear_expired, apply, confirm, expire,
  accept, drop_pending, call_apply,
}

Result-cases {ℓ} :
    {A : Type ℓ} (r : Result A) → ((a : A) × (r ≡ ok a)) ⊎ ((e : Error) × (r ≡ err e))
Result-cases (ok a) = inl (a, refl)
Result-cases (err e) = inr (e, refl)

-- The requests and the timer of the controller, with what each reads of its surroundings.
pub data Call : Type 0 where
  applies : Config → String → ℤ → Clock → Option String → Call
  confirms : String → ℕ → Call
  fires : String → ObjectPath → ℕ → Call

module _ {ℓ} {W : Type ℓ} (backend : Backend W) (env : Environment) where
  pub step : State W → Call → State W
  step s (applies config expected timeout clock random) =
      (apply backend env config expected timeout clock random s).1
  step s (confirms token now) = (confirm backend env token now s).1
  step s (fires token path now) = expire backend env token path now s

  pub run : State W → List Call → State W
  run s [] = s
  run s (c ∷ cs) = run (step s c) cs

  step-NoLeak : (s : State W) (c : Call) → NoLeak s → NoLeak (step s c)
  unfolding step
  step-NoLeak s (applies config expected timeout clock random) h =
      apply-NoLeak backend env config expected timeout clock random s h
  step-NoLeak s (confirms token now) h = confirm-NoLeak backend env token now s h
  step-NoLeak s (fires token path now) h = expire-NoLeak backend env token path now s h

  run-NoLeak : (s : State W) (cs : List Call) → NoLeak s → NoLeak (run s cs)
  unfolding run
  run-NoLeak s [] h = h
  run-NoLeak s (c ∷ cs) h = run-NoLeak (step s c) cs (step-NoLeak s c h)

  -- Whatever the backend answers, and whatever sequence of changes, confirmations and timers, right
  -- or wrong, a new controller sees: for each Netplan candidate, as often as it was created, an apply
  -- of it succeeded or a cancel of it was called, but for the one of the pending change. A cancel counts
  -- whether it succeeds or not; an apply that fails does not, and leaves the change pending.
  pub no_candidate_left :
      (w : W) (cs : List Call) → NoLeak (run (record { pending = none; calls = []; world = w }) cs)
  no_candidate_left w cs = run-NoLeak _ cs (λ p. omega arith)

  accept-calls :
      (x : PendingState) (s : State W)
      → (accept backend env x s).1.calls ≡ applied x.path (backend.apply x.path s.world).0 ∷ s.calls
  unfolding accept call_apply drop_pending
  accept-calls x s = ground arith

  -- A confirmation leaves the backend alone, or applies exactly the pending candidate, and then the
  -- token is that of the pending change, it is not empty, and the deadline is not reached.
  pub confirm_applies :
      (token : String) (now : ℕ) (s : State W)
      → ((confirm backend env token now s).1 ≡ s)
        ⊎ ((x : PendingState) × (s.pending ≡ some x)
            × (token ≡ x.pending.token)
            × (token ≢ "")
            × (now < x.pending.expires_at)
            × ((confirm backend env token now s).1.calls
                ≡ applied x.path (backend.apply x.path s.world).0 ∷ s.calls))
  unfolding confirm
  confirm_applies token now s = elim (Option-cases s.pending) [
    | inl idle ↦ inl (ground arith)
    | inr (x, busy) ↦ elim (Bool-cases (str_eq token "" || not (str_eq token x.pending.token))) [
      | inl wrong ↦ inl (ground arith)
      | inr right ↦ elim (Bool-cases (not (ltb now x.pending.expires_at))) [
        | inl late ↦ inl (ground arith)
        | inr early ↦ inr (
          x,
          busy,
          ground (arith, eq_iff token "", eq_iff token x.pending.token),
          ground (arith, eq_iff token ""),
          ground arith,
          ground (arith, accept-calls x s),
        )
      ]
    ]
  ]

  clear_busy :
      (now : ℕ) (s : State W) (x : PendingState)
      → s.pending ≡ some x
      → now < x.pending.expires_at
      → clear_expired backend env now s ≡ (err err_busy, s)
  unfolding clear_expired
  clear_busy now s x busy early = ground arith

  -- While a change is pending and its deadline is not reached, a further `Apply` changes nothing and
  -- calls nothing; if its arguments are valid it is told that the controller is busy.
  pub apply_busy :
      (config : Config) (expected : String) (timeout : ℤ) (clock : Clock) (random : Option String)
      (s : State W) (x : PendingState)
      → s.pending ≡ some x
      → clock.checked < x.pending.expires_at
      → (e : Error) × (apply backend env config expected timeout clock random s ≡ (err e, s))
        × ((check_request env config expected timeout ≡ err e)
            ⊎ ((t : ℕ) × (check_request env config expected timeout ≡ ok t) × (e ≡ err_busy)))
  unfolding apply
  apply_busy config expected timeout clock random s x busy early =
      elim (Result-cases (check_request env config expected timeout)) [
        | inr (e, refused) ↦ (e, ap (next changed) (λ i. (refused i, s)), inl refused)
        | inl (t, passed) ↦ (
          err_busy,
          ap (next changed) (λ i. (passed i, s))
              ∙ ap (next (λ _. begin backend env config expected t clock.started random))
                  (clear_busy clock.checked s x busy early),
          inr (t, passed, refl),
        )
      ]
    where
      changed : ℕ → M W Pending
      changed t =
          clear_expired backend env clock.checked
          >> begin backend env config expected t clock.started random

  -- The timer of another change, one that was confirmed or replaced, does nothing.
  pub expire_stale :
      (token path : String) (now : ℕ) (s : State W) (x : PendingState)
      → s.pending ≡ some x
      → (token ≢ x.pending.token) ⊎ (path ≢ x.path)
      → expire backend env token path now s ≡ s
  unfolding expire
  expire_stale token path now s x busy other =
      ground (arith, eq_iff x.pending.token token, eq_iff x.path path)
