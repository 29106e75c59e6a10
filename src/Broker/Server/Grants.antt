-- ===== src/Broker/Server/Grants.antt =====
-- `authorize` of server/internal/broker/broker.go.
use lumio_os.Prelude.{
  false≢true, ==_iff, ℕ, String, true, ◌≡◌, ◌≢◌, ◌⊎◌, inl, inr, refl, ap, ◌∙◌, Option, none, some,
  str_eq, eq_iff, arith, Bool-cases, Option-cases, ◌<◌,
}
use lumio_os.Broker.Request.{ActionRequest}
use lumio_os.Broker.Host.{Host, AuthResult, allow, deny, challenge}
use lumio_os.Broker.Authorise.{
  is_fresh, decide, granted, authorize, reauth_fresh, action_id, action_details,
}

module _ {ℓ} {W : Type ℓ} (host : Host W) where
  reauth_fresh-true :
      (uid : ℕ) (token : String) (now : ℕ) (w : W)
      → (reauth_fresh host uid token now w).0 ≡ true
      → (token ≢ "")
        × ((until : ℕ) × ((host.session_check token w).0 ≡ some (uid, until)) × (now < until))
  unfolding reauth_fresh is_fresh
  reauth_fresh-true uid token now w h = elim (Bool-cases (str_eq token "")) [
    | inl e ↦ absurd (false≢true (rw (e, reauth_fresh) at h))
    | inr e ↦ elim (Option-cases (host.session_check token w).0) [
      | inl f ↦ absurd (false≢true (rw (e, f, reauth_fresh) at h))
      | inr ((owner, until), f) ↦
          let k : is_fresh host uid now (some (owner, until)) ≡ true =
            rw (e, f, reauth_fresh) at h in
          let same : owner ≡ uid = ground (arith, ==_iff owner uid) in
          (
            ground (arith, eq_iff token ""),
            (until, f ∙ ap (λ x. some (x, until)) same, ground arith),
          )
    ]
  ]

  abbrev pub Grounds : ℕ → ActionRequest → ℕ → Option AuthResult × W → String → Type 0
  Grounds uid req now (answer, w) result =
      ((result ≡ "allow") × (answer ≡ some allow))
      ⊎ ((result ≡ "challenge+reauth")
          × (answer ≡ some challenge)
          × (req.session_token ≢ "")
          × ((until : ℕ) × ((host.session_check req.session_token w).0 ≡ some (uid, until))
              × (now < until)))

  decide-granted :
      (uid : ℕ) (req : ActionRequest) (now : ℕ) (answer : Option AuthResult) (w w' : W)
      (result : String)
      → decide host uid req now (answer, w) ≡ (granted result, w')
      → Grounds uid req now (answer, w) result
  unfolding decide
  decide-granted uid req now none w w' result h = absurd (cc h)
  decide-granted uid req now (some allow) w w' result h = inl (cc h, refl)
  decide-granted uid req now (some deny) w w' result h = absurd (cc h)
  decide-granted uid req now (some challenge) w w' result h =
      elim (Bool-cases (reauth_fresh host uid req.session_token now w).0) [
        | inl e ↦
            let (known, window) = reauth_fresh-true uid req.session_token now w e in
            inr (cc (rw (e, decide) at h), refl, known, window)
        | inr e ↦ absurd (cc (rw (e, decide) at h))
      ]

  -- An action is granted only if Polkit allowed it, or asked for a password, and the session daemon
  -- says that the request's session token belongs to this uid, and that its password was given
  -- again, for a time that has not ended.
  pub authorize-granted :
      (uid pid : ℕ) (req : ActionRequest) (now : ℕ) (w w' : W) (result : String)
      → authorize host uid pid req now w ≡ (granted result, w')
      → Grounds uid req now
          (host.check uid pid (action_id req.action) (action_details req) w)
          result
  unfolding authorize
  authorize-granted uid pid req now w w' result h = decide-granted uid req now _ _ w' result h
