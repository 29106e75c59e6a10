-- ===== src/Http/Idempotency/Replay.antt =====
-- What a repeated request gets, and what other requests do to an entry.
use lumio_os.Prelude.{
  ℕ, ◌-◌, ◌+◌, ◌≤◌, String, ◌≡◌, ◌≢◌, refl, ap, ◌∙◌, Option, none, some, arith, ltb, if◌then◌else◌,
  eq_iff, string_eq, Option-cases, inl, inr,
}
use lumio_os.Prelude.Map.{Distinct, lookup, lookup-insert, lookup-delete, retain}
use lumio_os.Prelude.Map.Keys.{
  kept, lookup-retain, insert-Distinct, delete-Distinct, retain-Distinct,
}
use lumio_os.Http.Idempotency.{
  IdemEntry, IdemStore, Recorder, Clock, idem_ttl, replay_header, get, put, mutate, fresh_at,
  answer,
}

module _ {ℓ} {B : Type ℓ} where
  lookup-put_self :
      (s : IdemStore B) (key : String) (entry : IdemEntry B) (now : ℕ)
      → lookup key (put s key entry now) ≡ some entry
  unfolding put
  lookup-put_self s key entry now =
      ground
        (arith, lookup-insert key key entry (retain (fresh_at (now - idem_ttl)) s), eq_iff key key)

  -- An entry that was just stored is found for 24 hours, and the lookup changes nothing.
  get-put_self :
      (s : IdemStore B) (key : String) (entry : IdemEntry B) (now later : ℕ)
      → later ≤ entry.at + idem_ttl
      → get (put s key entry now) key later ≡ (some entry, put s key entry now)
  unfolding get
  get-put_self s key entry now later soon = rw (lookup-put_self s key entry now) (ground arith)

  lookup-put_ne :
      (s : IdemStore B) (key j : String) (entry : IdemEntry B) (now : ℕ)
      → Distinct s
      → j ≢ key
      → lookup j (put s key entry now) ≡ kept (fresh_at (now - idem_ttl)) (lookup j s)
  unfolding put
  lookup-put_ne s key j entry now d ne = ground (
    arith,
    lookup-insert key j entry (retain (fresh_at (now - idem_ttl)) s),
    lookup-retain (fresh_at (now - idem_ttl)) j s d,
    eq_iff key j,
  )

  -- A lookup of one key deletes at most that key.
  get-Distinct :
      (s : IdemStore B) (key : String) (now : ℕ) → Distinct s → Distinct (get s key now).1
  unfolding get
  get-Distinct s key now d = elim (Option-cases (lookup key s)) [
    | inl gone ↦ rw (gone, get) d
    | inr (e, found) ↦ rw (found, get) (ground (arith, delete-Distinct key s d))
  ]

  put-Distinct :
      (s : IdemStore B) (key : String) (entry : IdemEntry B) (now : ℕ)
      → Distinct s
      → Distinct (put s key entry now)
  unfolding put
  put-Distinct s key entry now d = insert-Distinct key entry _ (retain-Distinct _ s d)

  -- What a lookup answers for an entry.
  abbrev young : ℕ → Option (IdemEntry B) → Option (IdemEntry B)
  young now none = none
  young now (some entry) = if ltb idem_ttl (now - entry.at) then none else some entry

  get-young :
      (s : IdemStore B) (key : String) (now : ℕ) → (get s key now).0 ≡ young now (lookup key s)
  unfolding get
  get-young s key now = ground arith

  lookup-get_ne :
      (s : IdemStore B) (key j : String) (now : ℕ)
      → j ≢ key
      → lookup j (get s key now).1 ≡ lookup j s
  unfolding get
  lookup-get_ne s key j now ne = ground (arith, lookup-delete key j s, eq_iff key j)

  get-get_ne :
      (s : IdemStore B) (key j : String) (now later : ℕ)
      → j ≢ key
      → (get (get s key now).1 j later).0 ≡ (get s j later).0
  get-get_ne s key j now later ne =
      rw (get-young (get s key now).1 j later, lookup-get_ne s key j now ne, get-young s j later)

  -- An entry of another key is found later exactly as if `put` had not swept the store.
  get-put_ne :
      (s : IdemStore B) (key j : String) (entry : IdemEntry B) (now later : ℕ)
      → Distinct s
      → j ≢ key
      → now ≤ later
      → (get (put s key entry now) j later).0 ≡ (get s j later).0
  unfolding get put
  get-put_ne s key j entry now later d ne h = elim (Option-cases (lookup j s)) [
    | inl gone ↦ rw (
      get-young (put s key entry now) j later,
      get-young s j later,
      lookup-put_ne s key j entry now d ne,
      gone,
    )
    | inr (e, found) ↦
        rw
          (
            get-young (put s key entry now) j later,
            get-young s j later,
            lookup-put_ne s key j entry now d ne,
            found,
          )
          (ground arith)
  ]

module _ {ℓ κ} {B : Type ℓ} {S : Type κ} where
  mutate_hit :
      (s s' : IdemStore B) (id : String) (t : Clock) (fn : S → Recorder B × S) (state : S)
      (entry : IdemEntry B)
      → get s id t.looked_up ≡ (some entry, s')
      → mutate s id t fn state
        ≡ (record { header = replay_header; status = entry.status; body = entry.body }, s', state)
  unfolding mutate
  mutate_hit s s' id t fn state entry e =
      let found : (get s id t.looked_up).0 ≡ some entry = ap (λ p. p.0) e in
      let rest : (get s id t.looked_up).1 ≡ s' = ap (λ p. p.1) e in rw (found, mutate) (rw rest)

  mutate_miss :
      (s : IdemStore B) (id : String) (t : Clock) (fn : S → Recorder B × S) (state : S)
      → (get s id t.looked_up).0 ≡ none
      → mutate s id t fn state ≡ answer (get s id t.looked_up).1 id t fn state
  unfolding mutate
  mutate_miss s id t fn state e = rw (e, mutate)

  -- The first of two requests with one id runs its handler; the second, up to 24 hours after the
  -- answer, gets the same status and the same body marked as a replay, whatever its handler is, and
  -- changes neither the handler's state nor the store.
  pub mutate_twice :
      (s : IdemStore B) (id : String) (t t' : Clock) (fn fn' : S → Recorder B × S)
      (state state' : S)
      → (get s id t.looked_up).0 ≡ none
      → t'.looked_up ≤ t.answered + idem_ttl
      → let first = mutate s id t fn state in
        ((first.0).status ≡ (fn state).0.status)
        × ((first.0).body ≡ (fn state).0.body)
        × (first.2 ≡ (fn state).1)
        × (mutate first.1 id t' fn' state' ≡ (
          record { header = replay_header; status = (first.0).status; body = (first.0).body },
          first.1,
          state',
        ))
  mutate_twice s id t t' fn fn' state state' absent soon = rw (mutate_miss s id t fn state absent) (
    refl,
    refl,
    refl,
    mutate_hit _ _ id t' fn' state' _
        (get-put_self (get s id t.looked_up).1 id _ t.stored t'.looked_up soon),
  )

  -- Whatever another request does, a stored answer that is still young is replayed unchanged: after
  -- a request with another id, the lookup of this id gives, at any later time, what it would have
  -- given without that request.
  pub mutate_other :
      (s : IdemStore B) (id j : String) (t : Clock) (fn : S → Recorder B × S) (state : S)
      (later : ℕ)
      → Distinct s
      → j ≢ id
      → t.stored ≤ later
      → (get (mutate s id t fn state).1 j later).0 ≡ (get s j later).0
  mutate_other s id j t fn state later d ne h = elim (Option-cases (get s id t.looked_up).0) [
    | inl absent ↦ rw (mutate_miss s id t fn state absent) (
        get-put_ne _ id j _ t.stored later (get-Distinct s id t.looked_up d) ne h
        ∙ get-get_ne s id j t.looked_up later ne)
    | inr (entry, found) ↦
        rw (mutate_hit s _ id t fn state entry (λ i. (found i, (get s id t.looked_up).1)))
          (get-get_ne s id j t.looked_up later ne)
  ]

  -- Every request keeps the ids in the store distinct.
  pub mutate-Distinct :
      (s : IdemStore B) (id : String) (t : Clock) (fn : S → Recorder B × S) (state : S)
      → Distinct s
      → Distinct (mutate s id t fn state).1
  mutate-Distinct s id t fn state d = elim (Option-cases (get s id t.looked_up).0) [
    | inl absent ↦
        rw (mutate_miss s id t fn state absent)
          (put-Distinct _ id _ t.stored (get-Distinct s id t.looked_up d))
    | inr (entry, found) ↦
        rw (mutate_hit s _ id t fn state entry (λ i. (found i, (get s id t.looked_up).1)))
          (get-Distinct s id t.looked_up d)
  ]
