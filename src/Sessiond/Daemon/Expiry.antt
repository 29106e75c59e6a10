-- ===== src/Sessiond/Daemon/Expiry.antt =====
-- How long a session lives.
use lumio_os.Prelude.{
  ℕ, ◌+◌, ◌≤◌, String, ◌≡◌, refl, sym, ◌∙◌, Bool, true, false, ◌&&◌, Option, none, some, arith, leb,
  if◌then◌else◌, string_eq, eq_iff, Option-cases, inl, inr,
}
use lumio_os.Prelude.Map.{lookup, lookup-insert, lookup-delete}
use lumio_os.Sessiond.Daemon.{
  Daemon, Session, Reply, answered, refused, is_expired, find_session, handle_validate,
  handle_session_check, idle_expiry, absolute_expiry,
}

-- What a lookup answers for the entry of its token.
abbrev pub answer : Bool → ℕ → Option Session → Reply Session
answer touch now none = refused 404
answer touch now (some sess) =
    if is_expired sess now
    then refused 404
    else if touch
    then answered (record sess { last_seen_at = now })
    else answered sess

pub find_session-answer :
    (token : String) (touch : Bool) (now : ℕ) (d : Daemon)
    → d.locked ≡ false
    → (find_session token touch now d).0 ≡ answer touch now (lookup token d.sessions)
unfolding find_session
find_session-answer token touch now d h = ground arith

-- What a lookup leaves of the entry of its token.
abbrev left : Bool → ℕ → Option Session → Option Session
left touch now none = none
left touch now (some sess) =
    if is_expired sess now
    then none
    else if touch
    then some (record sess { last_seen_at = now })
    else some sess

find_session-left :
    (token : String) (touch : Bool) (now : ℕ) (d : Daemon)
    → d.locked ≡ false
    → lookup token (find_session token touch now d).1.sessions
      ≡ left touch now (lookup token d.sessions)
unfolding find_session
find_session-left token touch now d h = elim (Option-cases (lookup token d.sessions)) [
  | inl absent ↦ rw (h, absent, find_session) absent
  | inr (sess, found) ↦
      let seen = record sess { last_seen_at = now } in
      rw (h, found, find_session)
        (ground (
          arith,
          found,
          lookup-insert token token seen d.sessions,
          lookup-delete token token d.sessions,
          eq_iff token token,
        ))
]

find_session-locked :
    (token : String) (touch : Bool) (now : ℕ) (d : Daemon)
    → (find_session token touch now d).1.locked ≡ d.locked
unfolding find_session
find_session-locked token touch now d = ground arith

answer_again :
    (o : Option Session) (t t' : ℕ) (sess : Session)
    → answer true t o ≡ answered sess
    → answer true t' (left true t o) ≡ (
        if leb t' (t + idle_expiry) && leb t' (sess.created_at + absolute_expiry)
        then answered (record sess { last_seen_at = t' })
        else refused 404)
unfolding is_expired
answer_again none t t' sess e = cc
answer_again (some s) t t' sess e = ground arith

answer_after_check :
    (o : Option Session) (t t' : ℕ) → t ≤ t' → answer true t' (left false t o) ≡ answer true t' o
unfolding is_expired
answer_after_check none t t' later = refl
answer_after_check (some s) t t' later = ground arith

-- A session that was just validated at t is validated again at a later time t' exactly if at most
-- seven days have passed since t and at most thirty since its creation.
pub validate_again :
    (token : String) (t t' : ℕ) (d : Daemon) (sess : Session)
    → d.locked ≡ false
    → (handle_validate token t d).0 ≡ answered sess
    → (handle_validate token t' (handle_validate token t d).1).0 ≡ (
        if leb t' (t + idle_expiry) && leb t' (sess.created_at + absolute_expiry)
        then answered (record sess { last_seen_at = t' })
        else refused 404)
unfolding handle_validate
validate_again token t t' d sess h valid =
    let d' : Daemon = (find_session token true t d).1 in
    rw
      (
        find_session-answer token true t' d' (find_session-locked token true t d ∙ h),
        find_session-left token true t d h,
      )
      (answer_again (lookup token d.sessions) t t' sess
        (sym (find_session-answer token true t d h) ∙ valid))

-- A session check does not prolong a session, and does not end one early: a validation after it is
-- answered as if the check had not been made.
pub check_invisible :
    (token : String) (t t' : ℕ) (d : Daemon)
    → d.locked ≡ false
    → t ≤ t'
    → (handle_validate token t' (handle_session_check token t d).1).0
      ≡ (handle_validate token t' d).0
unfolding handle_validate handle_session_check
check_invisible token t t' d h later =
    let d' : Daemon = (find_session token false t d).1 in
    rw
      (
        find_session-answer token true t' d' (find_session-locked token false t d ∙ h),
        find_session-left token false t d h,
        find_session-answer token true t' d h,
      )
      (answer_after_check (lookup token d.sessions) t t' later)
