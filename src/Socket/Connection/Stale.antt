-- ===== src/Socket/Connection/Stale.antt =====
-- server/internal/wsapi/conn.go: a channel that closes late.
use lumio_os.Prelude.{
  ℕ, suc, ◌≡◌, refl, ap, ◌∙◌, true, false, Option, none, some, if◌then◌else◌, Bool-cases, inl, inr,
  ◌⊎◌, nat_eq,
}
use lumio_os.Prelude.Int.{ℤ, below, int_eq, equal_iff}
use lumio_os.Prelude.Map.{Map, lookup, insert, delete, lookup-insert, lookup-delete}
use lumio_os.Http.Envelope.{ApiError, new_error, code_not_found}
use lumio_os.Socket.Connection.{
  Channel, Connection, Frame, InFrame, error_frame, enqueue, update, cancelled, killed,
  register_channel, remove_channel, capabilities, handle_subscribe, handle_unsubscribe,
  handle_input, close_channel,
}

self : (id : ℤ) → int_eq.beq id id ≡ true
self id = (equal_iff id id).1 refl

lookup-insert_self : (id : ℤ) (key : ℕ) (m : Map ℤ ℕ) → lookup id (insert id key m) ≡ some key
lookup-insert_self id key m =
    lookup-insert id id key m ∙ ap (λ b. if b then some key else lookup id m) (self id)

lookup-delete_self : (id : ℤ) (m : Map ℤ ℕ) → lookup id (delete id m) ≡ none
lookup-delete_self id m =
    lookup-delete id id m ∙ ap (λ b. if b then none else lookup id m) (self id)

module _ {ℓ} {D : Type ℓ} where
  -- The channels of a connection, and the next object.
  abbrev Has : Map ℤ ℕ → ℕ → Connection D → Type 0
  Has m n c = (c.channels ≡ m) × (c.next ≡ n)

  enqueue-Has :
      (frame : Frame D) (m : Map ℤ ℕ) (n : ℕ) (c : Connection D)
      → Has m n c
      → Has m n (enqueue frame c)
  enqueue-Has frame m n c h = elim (Bool-cases c.is_open) [ inl e ↦ rw (e) h | inr e ↦ rw (e) h ]

  update-Has :
      (key : ℕ) (f : Channel → Channel) (m : Map ℤ ℕ) (n : ℕ) (c : Connection D)
      → Has m n c
      → Has m n (update key f c)
  update-Has key f m n c h = go (lookup key c.store)
    where
      go :
          (s : Option Channel)
          → Has m n (elim s [ none ↦ c | some ch ↦ record c { store = insert key (f ch) c.store } ])
      go none = h
      go (some ch) = h

  unsubscribe-Has :
      (id : ℤ) (key : ℕ) (c : Connection D)
      → lookup id c.channels ≡ some key
      → Has (delete id c.channels) c.next (handle_unsubscribe id c)
  unfolding handle_unsubscribe
  unsubscribe-Has id key c found =
      rw (found, handle_unsubscribe)
        (enqueue-Has _ (delete id c.channels) c.next _
          (update-Has key killed (delete id c.channels) c.next (remove_channel id c) (refl, refl)))

  close-Has :
      (key : ℕ) (id : ℤ) (e : Option ApiError) (m : Map ℤ ℕ) (n : ℕ) (c : Connection D)
      → Has m n c
      → Has (delete id m) n (close_channel key id e c)
  unfolding close_channel
  close-Has key id e m n c h =
      let (p, q) = enqueue-Has _ m n c h in
      update-Has key cancelled (delete id m) n _ (ap (delete id) p, q)

  input-missing :
      (input : ℕ → Connection D → Connection D) (id : ℤ) (c : Connection D)
      → lookup id c.channels ≡ none
      → handle_input input id c
        ≡ enqueue (error_frame id (new_error code_not_found "No such channel.")) c
  unfolding handle_input
  input-missing input id c h = rw (h, handle_input) refl

module _ {ℓ κ} {D : Type ℓ} {P : Type κ} (start : InFrame P → ApiError ⊎ Option D) (f : InFrame P)
    (body : Option D) (positive : below f.channel 1 ≡ false)
    (known : capabilities f.capability ≡ true) (starts : start f ≡ inr body) where
  subscribe-Has :
      (c : Connection D)
      → lookup f.channel c.channels ≡ none
      → Has (insert f.channel c.next c.channels) (suc c.next) (handle_subscribe start f c)
  unfolding handle_subscribe register_channel
  subscribe-Has c free =
      rw (handle_subscribe, positive, known, register_channel, free, starts)
        (enqueue-Has _ (insert f.channel c.next c.channels) (suc c.next) _ (refl, refl))

  -- A client that subscribes a channel, ends it, and subscribes it again has the new channel, until the
  -- goroutine of the first one comes to close it: that takes the new channel out of the map, and input to
  -- it is answered as if there were no such channel.
  pub stale_close :
      (input : ℕ → Connection D → Connection D) (c : Connection D)
      → lookup f.channel c.channels ≡ none
      → (let again =
            handle_subscribe start f (handle_unsubscribe f.channel (handle_subscribe start f c)) in
          let late = close_channel c.next f.channel none again in
          (lookup f.channel again.channels ≡ some (suc c.next))
          × (handle_input input f.channel late
              ≡ enqueue (error_frame f.channel (new_error code_not_found "No such channel.")) late))
  stale_close input c free =
      let id = f.channel in
      let c1 = handle_subscribe start f c in
      let (p1, q1) = subscribe-Has c free in
      let found : lookup id c1.channels ≡ some c.next =
        rw (p1) (lookup-insert_self id c.next c.channels) in
      let (p2, q2) = unsubscribe-Has id c.next c1 found in
      let c2 = handle_unsubscribe id c1 in
      let free2 : lookup id c2.channels ≡ none = rw (p2) (lookup-delete_self id c1.channels) in
      let (p3, q3) = subscribe-Has c2 free2 in
      let again = handle_subscribe start f c2 in
      let late = close_channel c.next id none again in
      let (p4, q4) = close-Has c.next id none again.channels again.next again (refl, refl) in
      let gone : lookup id late.channels ≡ none = rw (p4) (lookup-delete_self id again.channels) in
      (
        rw (p3) (lookup-insert_self id c2.next c2.channels ∙ ap some (q2 ∙ q1)),
        input-missing input id late gone,
      )
