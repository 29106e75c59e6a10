-- ===== src/Gateway/Login/Throttle.antt =====
-- Logins of a key that the limiter refuses, after logins with wrong passwords.
use Prim.Native.Nat.{min}
use lumio_os.Prelude.{
  ℕ, ◌+◌, ◌-◌, ◌*◌, ◌^◌, ◌≤◌, ◌<◌, ◌≡◌, inl, inr, refl, ap, ◌∙◌, sym, String, Bool, false, not,
  Option, none, some, List, [], ◌∷◌, arith, ltb, lt→ltb, ◌==◌, str_eq, string_eq, if◌then◌else◌,
  Bool-cases,
}
use lumio_os.Http.Envelope.{code_unauthorized}
use lumio_os.Gateway.Limiter.{second, Limiter, new_limiter, blocked, record_failure, reset}
use lumio_os.Gateway.Limiter.History.{Event, failure, success, run, failures, lockout}
use lumio_os.Gateway.Session.{Outcome, ok, rejected, Daemon}
use lumio_os.Gateway.Login.{Credentials, LoginReply, limiter_key, too_many, conclude, handle_login}

-- A login: the body of the request, the client's address, and the two times.
pub record Attempt : Type 0 where
  pub body : Option Credentials
  pub ip : String
  pub before : ℕ
  pub after : ℕ

-- What the answer says of the password.
pub data Verdict : Type 0 where
  wrong right unknown : Verdict

abbrev pub verdict : Outcome LoginReply → Verdict
verdict (ok reply) = right
verdict (rejected e) = if str_eq e.code code_unauthorized then wrong else unknown

abbrev pub is_of : String → Option Credentials → String → Bool
is_of key none ip = false
is_of key (some c) ip = str_eq (limiter_key c.username ip) key

abbrev pub tally : Bool → Verdict → ℕ → ℕ
tally mine wrong n = if mine then n + 1 else n
tally mine right n = if mine then 0 else n
tally mine unknown n = n

module _ {ℓ} {W : Type ℓ} (login : Daemon W Credentials LoginReply) where
  abbrev pub attempt : Attempt → Limiter × W → Outcome LoginReply × Limiter × W
  attempt a (l, w) = handle_login login a.body a.ip a.before a.after l w

  -- The newest login stands first; the gateway starts with an empty limiter.
  abbrev pub attempts : List Attempt → W → Limiter × W
  attempts [] w = (new_limiter, w)
  attempts (a ∷ past) w = let r = attempt a (attempts past w) in (r.1, r.2)

  abbrev pub answer : Attempt → List Attempt → W → Outcome LoginReply
  answer a past w = (attempt a (attempts past w)).0

  -- How many wrong passwords of a key were answered since a right one.
  abbrev pub wrong_in_row : String → List Attempt → W → ℕ
  wrong_in_row key [] w = 0
  wrong_in_row key (a ∷ past) w =
      tally (is_of key a.body a.ip) (verdict (answer a past w)) (wrong_in_row key past w)

  -- What a login does to the limiter, by what its answer says of the password.
  abbrev Done : Limiter → String → ℕ → Verdict → Limiter → Type 0
  Done l key now wrong l' = l' ≡ record_failure l key now
  Done l key now right l' = l' ≡ reset l key
  Done l key now unknown l' = l' ≡ l

  conclude-Done :
      (l : Limiter) (key : String) (now : ℕ) (reply : Option (ℕ × LoginReply))
      → Done l key now (verdict (conclude l key now reply).0) (conclude l key now reply).1
  unfolding conclude
  conclude-Done l key now none = refl
  conclude-Done l key now (some (status, reply)) = elim (Bool-cases (status == 401)) [
    | inl e ↦ rw (e, conclude) refl
    | inr e ↦ elim (Bool-cases (not (status == 200))) [
      | inl f ↦ rw (e, f, conclude) refl
      | inr f ↦ rw (e, f, conclude) refl
    ]
  ]

  handle_login-Done :
      (c : Credentials) (ip : String) (before now : ℕ) (l : Limiter) (w : W)
      → let r = handle_login login (some c) ip before now l w in
        Done l (limiter_key c.username ip) now (verdict r.0) r.1
  unfolding handle_login
  handle_login-Done c ip before now l w =
      elim (Bool-cases (ltb 0 (blocked l (limiter_key c.username ip) before))) [
        | inl e ↦ rw (e, handle_login) refl
        | inr e ↦
            rw (e, handle_login) (conclude-Done l (limiter_key c.username ip) now (login c w).0)
      ]

  abbrev extend : Verdict → String → ℕ → List Event → List Event
  extend wrong key now h = failure key now ∷ h
  extend right key now h = success key ∷ h
  extend unknown key now h = h

  run-extend :
      (v : Verdict) (key : String) (now : ℕ) (l l' : Limiter) (h : List Event)
      → l ≡ run h
      → Done l key now v l'
      → l' ≡ run (extend v key now h)
  run-extend wrong key now l l' h e d = d ∙ ap (λ m. record_failure m key now) e
  run-extend right key now l l' h e d = d ∙ ap (λ m. reset m key) e
  run-extend unknown key now l l' h e d = d ∙ e

  failures-extend :
      (v : Verdict) (j key : String) (now : ℕ) (h : List Event)
      → failures key (extend v j now h) ≡ tally (str_eq j key) v (failures key h)
  failures-extend wrong j key now h = refl
  failures-extend right j key now h = refl
  failures-extend unknown j key now h = refl

  handle_login-history :
      (body : Option Credentials) (ip : String) (before now : ℕ) (l : Limiter) (w : W)
      (h : List Event)
      → l ≡ run h
      → let r = handle_login login body ip before now l w in
        (h' : List Event) × (r.1 ≡ run h')
        × ((key : String)
            → failures key h' ≡ tally (is_of key body ip) (verdict r.0) (failures key h))
  unfolding handle_login
  handle_login-history none ip before now l w h e = (h, e, λ key. refl)
  handle_login-history (some c) ip before now l w h e =
      let r = handle_login login (some c) ip before now l w in
      let j = limiter_key c.username ip in
      (
        extend (verdict r.0) j now h,
        run-extend (verdict r.0) j now l r.1 h e (handle_login-Done c ip before now l w),
        λ key. failures-extend (verdict r.0) j key now h,
      )

  -- The limiter is that of a history, which has as many failures of each key past wrong passwords were
  -- answered.
  attempts-history :
      (past : List Attempt) (w : W)
      → (h : List Event) × ((attempts past w).0 ≡ run h)
        × ((key : String) → failures key h ≡ wrong_in_row key past w)
  attempts-history [] w = ([], refl, λ key. refl)
  attempts-history (a ∷ past) w =
      let (h, e, same) = attempts-history past w in
      let (h', e', grown) =
        handle_login-history a.body a.ip a.before a.after (attempts past w).0 (attempts past w).1 h
          e in
      (
        h',
        e',
        λ key.
            grown key
            ∙ ap (λ n. tally (is_of key a.body a.ip) (verdict (answer a past w)) n) (same key),
      )

  blocked_login :
      (c : Credentials) (ip : String) (before after : ℕ) (l : Limiter) (w : W)
      → 0 < blocked l (limiter_key c.username ip) before
      → handle_login login (some c) ip before after l w
        ≡ (rejected (too_many (blocked l (limiter_key c.username ip) before)), l, w)
  unfolding handle_login
  blocked_login c ip before after l w h = rw (lt→ltb 0 _ h)

  wrong-failure :
      (a : Attempt) (c : Credentials) (l : Limiter) (w : W) (h : List Event)
      → a.body ≡ some c
      → l ≡ run h
      → verdict (attempt a (l, w)).0 ≡ wrong
      → (attempt a (l, w)).1 ≡ run (failure (limiter_key c.username a.ip) a.after ∷ h)
  wrong-failure a c l w h b e v =
      let j = limiter_key c.username a.ip in
      let r = handle_login login (some c) a.ip a.before a.after l w in
      let v' : verdict r.0 ≡ wrong =
        ap (λ x. verdict (handle_login login x a.ip a.before a.after l w).0) (sym b) ∙ v in
      let done = handle_login-Done c a.ip a.before a.after l w in
      ap (λ x. (handle_login login x a.ip a.before a.after l w).1) b
      ∙ run-extend wrong j a.after l r.1 h e (rw v' at done)

  -- Any logins went through the gateway, which started with an empty limiter, and the last of them was
  -- answered with a wrong password of a user, at time t, as the n-th for that user from that address since
  -- a right one, 3 ≤ n ≤ 35. Then a login of the user from there, with any password, before
  -- t + min (2 ^ (n - 2)) 60 seconds is refused: the session daemon is not called, and the limiter is left
  -- as it was.
  pub guesses_delayed :
      (past : List Attempt) (a : Attempt) (c c' : Credentials) (before after : ℕ) (w : W)
      → a.body ≡ some c
      → c'.username ≡ c.username
      → verdict (answer a past w) ≡ wrong
      → 2 ≤ wrong_in_row (limiter_key c.username a.ip) past w
      → wrong_in_row (limiter_key c.username a.ip) past w < 35
      → a.after ≤ before
      → before
        < a.after + min (2 ^ (wrong_in_row (limiter_key c.username a.ip) past w - 1)) 60 * second
      → let s = attempts (a ∷ past) w in
        handle_login login (some c') a.ip before after s.0 s.1 ≡ (
          rejected (
              too_many (
                a.after
                + min (2 ^ (wrong_in_row (limiter_key c.username a.ip) past w - 1)) 60 * second
                - before)),
          s.0,
          s.1,
        )
  guesses_delayed past a c c' before after w b user v low high later soon =
      let key = limiter_key c.username a.ip in
      let (h, e, same) = attempts-history past w in
      let s = attempts (a ∷ past) w in
      let left = wrong-failure a c (attempts past w).0 (attempts past w).1 h b e v in
      let n = same key in
      let answers = lockout h key a.after before (omega (arith, n)) (omega (arith, n)) later in
      let waits : blocked s.0 (limiter_key c'.username a.ip) before
          ≡ a.after + min (2 ^ (wrong_in_row key past w - 1)) 60 * second - before =
        ap (λ u. blocked s.0 (limiter_key u a.ip) before) user
        ∙ ap (λ l. blocked l key before) left
        ∙ answers
        ∙ ap (λ k. a.after + min (2 ^ (k - 1)) 60 * second - before) n in
      blocked_login c' a.ip before after s.0 s.1 (rw waits (omega arith))
      ∙ ap (λ k. (rejected (too_many k), s.0, s.1)) waits
