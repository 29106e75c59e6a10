-- ===== src/Gateway/Session/Guard.antt =====
-- Which requests reach an agent.
use lumio_os.Prelude.{
  ℕ, String, ◌≡◌, ◌≢◌, refl, ◌⊎◌, inl, inr, false, not, Option, none, some, arith, if◌then◌else◌,
  ◌==◌, str_eq, string_eq, eq_iff, Bool-cases, Option-cases,
}
use lumio_os.Prelude.Map.{lookup}
use lumio_os.Http.Envelope.{ApiError, new_error, code_unauthorized}
use lumio_os.Gateway.Session.{
  SessionInfo, Request, Outcome, ok, rejected, Daemon, session_cookie, validated, require_session,
  check_csrf, csrf_failed, is_mutating, guard_api, handle_api, value_or_empty,
}

-- The browser proves that it has the session's CSRF token twice: in a header and in a cookie.
pub record HasCsrf (r : Request) (sess : SessionInfo) : Type 0 where
  pub token_set : sess.csrf ≢ ""
  pub in_header : lookup "X-Lumio-CSRF" r.header ≡ some sess.csrf
  pub in_cookie : lookup "lumio_csrf" r.cookies ≡ some sess.csrf

value_or_empty-some : (o : Option String) {v : String} → value_or_empty o ≡ v → v ≢ "" → o ≡ some v
value_or_empty-some none e ne = absurd (ne (cc))
value_or_empty-some (some x) e ne = cc

check_csrf-HasCsrf : (r : Request) (sess : SessionInfo) → check_csrf r sess ≡ ok tt → HasCsrf r sess
unfolding check_csrf
check_csrf-HasCsrf r sess h =
    let header : String = value_or_empty (lookup "X-Lumio-CSRF" r.header) in
    let ne : sess.csrf ≢ "" = ground (arith, eq_iff header "", eq_iff header sess.csrf) in
    let same : header ≡ sess.csrf = ground (arith, eq_iff header "", eq_iff header sess.csrf) in
    record {
      token_set = ne;
      in_header = value_or_empty-some _ same ne;
      in_cookie = ground (
        arith,
        eq_iff header "",
        eq_iff header sess.csrf,
        by_cookie (lookup "lumio_csrf" r.cookies),
      );
    }
  where
    by_cookie :
        (o : Option String)
        → elim o [
          | none ↦ rejected csrf_failed
          | some value ↦ if not (str_eq value sess.csrf) then rejected csrf_failed else ok (tt {0})
        ]
          ≡ ok tt
        → o ≡ some sess.csrf
    by_cookie none e = cc
    by_cookie (some v) e = ground (arith, eq_iff v sess.csrf)

HasCsrf-check_csrf : (r : Request) (sess : SessionInfo) → HasCsrf r sess → check_csrf r sess ≡ ok tt
unfolding check_csrf
HasCsrf-check_csrf r sess h =
    ground (
      arith,
      eq_iff sess.csrf "",
      eq_iff sess.csrf sess.csrf,
      h.token_set,
      h.in_header,
      h.in_cookie,
    )

Outcome-cases {ℓ} :
    {A : Type ℓ} (o : Outcome A) → ((a : A) × (o ≡ ok a)) ⊎ ((e : ApiError) × (o ≡ rejected e))
Outcome-cases (ok a) = inl (a, refl)
Outcome-cases (rejected e) = inr (e, refl)

module _ {ℓ} {W : Type ℓ} (validate : Daemon W String SessionInfo) where
  -- The checks that `handleAPI` makes: a session cookie that the daemon validates with status 200,
  -- and for every method but GET and HEAD the CSRF token.
  pub record Admitted (r : Request) (w : W) (sess : SessionInfo) (w' : W) : Type ℓ where
    pub token : String
    pub cookie : session_cookie r ≡ some token
    pub valid : validate token w ≡ (some (200, sess), w')
    pub csrf : (is_mutating r ≡ false) ⊎ HasCsrf r sess

  require_session-ok :
      (r : Request) (w w' : W) (token : String) (sess : SessionInfo)
      → session_cookie r ≡ some token
      → validate token w ≡ (some (200, sess), w')
      → require_session validate r w ≡ (ok sess, w')
  unfolding require_session validated
  require_session-ok r w w' token sess c v = rw (c, v, require_session)

  guard_api-ok :
      (r : Request) (sess : SessionInfo)
      → (is_mutating r ≡ false) ⊎ HasCsrf r sess
      → guard_api r sess ≡ ok sess
  unfolding guard_api
  guard_api-ok r sess (inl safe) = rw safe
  guard_api-ok r sess (inr h) = ground (arith, HasCsrf-check_csrf r sess h)

  -- A request that passes all checks is answered by the agent, on the session that the daemon gave.
  pub handle_api-Admitted {κ} :
      {A : Type κ} (agent : SessionInfo → W → Outcome A × W) (r : Request) (w w' : W)
      (sess : SessionInfo)
      → Admitted r w sess w'
      → handle_api validate agent r w ≡ agent sess w'
  unfolding handle_api
  handle_api-Admitted agent r w w' sess h =
      rw (require_session-ok r w w' h.token sess h.cookie h.valid, guard_api-ok r sess h.csrf)

  guard_api-cases :
      (r : Request) (sess : SessionInfo)
      → ((guard_api r sess ≡ ok sess) × ((is_mutating r ≡ false) ⊎ HasCsrf r sess))
        ⊎ ((e : ApiError) × (guard_api r sess ≡ rejected e))
  unfolding guard_api
  guard_api-cases r sess = elim (Bool-cases (is_mutating r)) [
    | inr safe ↦ inl (rw safe, inl safe)
    | inl mutating ↦ elim (Outcome-cases (check_csrf r sess)) [
      | inl (u, passed) ↦ inl (rw (mutating, passed), inr (check_csrf-HasCsrf r sess passed))
      | inr (e, failed) ↦ inr (e, rw (mutating, failed))
    ]
  ]

  validated-cases :
      (reply : Option (ℕ × SessionInfo))
      → ((sess : SessionInfo) × (reply ≡ some (200, sess)) × (validated reply ≡ ok sess))
        ⊎ ((e : ApiError) × (validated reply ≡ rejected e))
  unfolding validated
  validated-cases none = inr (_, refl)
  validated-cases (some (status, sess)) = elim (Bool-cases (status == 200)) [
    | inl found ↦ inl (sess, ground arith, rw found)
    | inr other ↦ inr (new_error code_unauthorized "Session expired or unknown.", rw other)
  ]

  -- Every request either passes all checks, or is rejected with an error, in a world, that are the
  -- same for any two agents: the agent sees no request that fails a check.
  pub handle_api_guarded {κ} :
      {A : Type κ} (agent agent' : SessionInfo → W → Outcome A × W) (r : Request) (w : W)
      → ((sess : SessionInfo) × (w' : W) × Admitted r w sess w')
        ⊎ ((e : ApiError) × (w' : W) × (handle_api validate agent r w ≡ (rejected e, w'))
            × (handle_api validate agent' r w ≡ (rejected e, w')))
  unfolding handle_api require_session
  handle_api_guarded agent agent' r w = elim (Option-cases (session_cookie r)) [
    | inl missing ↦ inr (
      new_error code_unauthorized "No session.",
      w,
      rw (missing, require_session),
      rw (missing, require_session),
    )
    | inr (token, cookie) ↦ elim (validated-cases (validate token w).0) [
      | inr (e, bad) ↦ inr (
        e,
        (validate token w).1,
        rw (cookie, bad, require_session),
        rw (cookie, bad, require_session),
      )
      | inl (sess, valid, good) ↦ elim (guard_api-cases r sess) [
        | inl (passed, csrf) ↦ inl (
          sess,
          (validate token w).1,
          record {
            token = token;
            cookie = cookie;
            valid = λ i. (valid i, (validate token w).1);
            csrf = csrf;
          },
        )
        | inr (e, failed) ↦ inr (
          e,
          (validate token w).1,
          rw (cookie, good, failed, require_session),
          rw (cookie, good, failed, require_session),
        )
      ]
    ]
  ]
