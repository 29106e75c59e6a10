-- ===== src/Services/Watch/InStep.antt =====
-- Every run of the manager and one of its subscribers, from the subscription on.
use lumio_os.Prelude.{
  ℕ, ◌+◌, ◌≤◌, ◌<◌, String, true, not, ◌||◌, Option, some, List, [], ◌∷◌, ◌≡◌, ◌≢◌, refl, sym, ap,
  ◌∙◌, str_eq, string_eq, nat_eq, arith, Bool-cases, inl, inr, Option-cases, ==_iff,
}
use lumio_os.Prelude.Lists.{length, List-cases}
use lumio_os.Prelude.Map.{Map, lookup, insert, lookup-insert, lookup-delete}
use lumio_os.Prelude.Action.{ok, err}
use lumio_os.Prelude.Dbus.{Value, value, text, properties, unit_iface, is_service}
use lumio_os.Services.Units.{ServiceUnit, ServiceError, diff_units, Bus, list_units}
use lumio_os.Services.Watch.{
  Manager, subscriber_size, subscribe, unsubscribe, receive, read_patch, apply_named, signal_name,
  handle_properties_changed, poll,
}
use lumio_os.Services.Watch.Client.{View, show_change, catch_up}
use lumio_os.Services.Watch.Following.{Named, Complete, Covers}
use mathlib.Core.Path.{subst}
use lumio_os.Services.Watch.{unit_id}
use lumio_os.Services.Watch.Steps.{InStep, take_listing-InStep, apply_patch-InStep}

-- The manager, the bus, and what the subscriber shows.
pub record Observed {ℓ} (W : Type ℓ) : Type ℓ where
  pub manager : Manager
  pub world : W
  pub view : View

module _ {ℓ} {W : Type ℓ} (bus : Bus W) (k : ℕ) where
  -- A listing that is refused; one that is complete; a signal, which is about no service or about one
  -- that is listed; a change that the subscriber takes; and what others do with their channels. The
  -- subscriber's channel `k` has room for what is published.
  pub data Step : Observed W → Observed W → Type ℓ where
    refused :
        (m : Manager) (w w' : W) (view : View) (e : ServiceError)
        → list_units bus w ≡ (err e, w')
        → Step
            (record { manager = m; world = w; view = view })
            (let (m1, w1) = poll bus m w in record { manager = m1; world = w1; view = view })
    listed :
        (m : Manager) (w w' : W) (view : View) (us queue : List ServiceUnit)
        → list_units bus w ≡ (ok us, w')
        → Complete m.units us
        → Covers m.units us
        → lookup k m.subs ≡ some queue
        → length queue + length (diff_units m.units us) ≤ subscriber_size
        → Step
            (record { manager = m; world = w; view = view })
            (let (m1, w1) = poll bus m w in record { manager = m1; world = w1; view = view })
    told :
        (m : Manager) (w : W) (view : View) (path iface : String) (changed : Map String Value)
        (queue : List ServiceUnit)
        → (is_service (signal_name bus path changed m w).0 ≡ true
            → (p : ServiceUnit) × (lookup (signal_name bus path changed m w).0 m.units ≡ some p))
        → lookup k m.subs ≡ some queue
        → length queue < subscriber_size
        → Step
            (record { manager = m; world = w; view = view })
            (let (m1, w1) =
                handle_properties_changed bus path
                  (value (text iface) ∷ properties changed ∷ [])
                  m
                  w in
              record { manager = m1; world = w1; view = view })
    took :
        (m m1 : Manager) (w : W) (view : View) (u : ServiceUnit)
        → receive k m ≡ (some u, m1)
        → Step
            (record { manager = m; world = w; view = view })
            (record { manager = m1; world = w; view = show_change u view })
    other_took :
        (j : ℕ) (m : Manager) (w : W) (view : View)
        → j ≢ k
        → Step
            (record { manager = m; world = w; view = view })
            (record { manager = (receive j m).1; world = w; view = view })
    other_joined :
        (m : Manager) (w : W) (view : View)
        → Step
            (record { manager = m; world = w; view = view })
            (record { manager = (subscribe m).1; world = w; view = view })
    other_left :
        (j : ℕ) (m : Manager) (w : W) (view : View)
        → j ≢ k
        → Step
            (record { manager = m; world = w; view = view })
            (record { manager = unsubscribe j m; world = w; view = view })

  pub data Steps : Observed W → Observed W → Type ℓ where
    stay : (s : Observed W) → Steps s s
    go : (s t r : Observed W) → Steps s t → Step t r → Steps s r

module _ (k : ℕ) (view : View) where
  -- What neither touches the units nor the queue of `k`.
  InStep-apart :
      (m m1 : Manager)
      → (v : InStep k m view) → m1.units ≡ m.units
      → lookup k m1.subs ≡ lookup k m.subs
      → m.next_channel ≤ m1.next_channel
      → InStep k m1 view
  InStep-apart m m1 v units subs channels = record {
    queue = v.queue;
    buffered = subs ∙ v.buffered;
    named = rw units v.named;
    opened = let o = v.opened in omega arith;
    agrees = λ n. v.agrees n ∙ ap (λ us. lookup n us) (sym units);
  }

  taken :
      (m m1 : Manager) (u x : ServiceUnit) (rest : List ServiceUnit)
      → (v : InStep k m view) → v.queue ≡ x ∷ rest
      → ◌≡◌ {A = Option ServiceUnit × Manager}
          (some x, record m { subs = insert k rest m.subs })
          (some u, m1)
      → InStep k m1 (show_change u view)
  unfolding catch_up
  taken m m1 u x rest v e h =
      let head : x ≡ u = cc h in
      let left : record m { subs = insert k rest m.subs } ≡ m1 = ap (λ r. r.1) h in
      subst (λ c. InStep k c (show_change u view)) left
        record {
          queue = rest;
          buffered = lookup-insert k k rest m.subs ∙ ground (arith, ==_iff k k);
          named = v.named;
          opened = v.opened;
          agrees = λ n.
              ap (λ a. lookup n (catch_up rest (show_change a view))) (sym head)
              ∙ (ap (λ q. lookup n (catch_up q view)) (sym e) ∙ v.agrees n);
        }

  receive-InStep :
      (m m1 : Manager) (u : ServiceUnit)
      → InStep k m view
      → receive k m ≡ (some u, m1)
      → InStep k m1 (show_change u view)
  unfolding receive catch_up
  receive-InStep m m1 u v h = elim (List-cases v.queue) [
    | inl e ↦ absurd (cc (rw (v.buffered ∙ ap some e, receive) at h))
    | inr (x, rest, e) ↦ taken m m1 u x rest v e (rw (v.buffered ∙ ap some e, receive) at h)
  ]

  receive_apart :
      (j : ℕ) (m : Manager)
      → j ≢ k
      → ((receive j m).1.units ≡ m.units)
        × (lookup k (receive j m).1.subs ≡ lookup k m.subs)
        × ((receive j m).1.next_channel ≡ m.next_channel)
  unfolding receive
  receive_apart j m other = elim (Option-cases (lookup j m.subs)) [
    | inl e ↦ rw (e, receive) (refl, refl, refl)
    | inr ([], e) ↦ rw (e, receive) (refl, refl, refl)
    | inr (u ∷ q, e) ↦
        rw (e, receive) (refl, lookup-insert j k q m.subs ∙ ground (arith, ==_iff j k), refl)
  ]

module _ {ℓ} {W : Type ℓ} (bus : Bus W) where
  unit_id_apart :
      (path : String) (m : Manager) (w : W)
      → ((unit_id bus path m w).1.units ≡ m.units)
        × ((unit_id bus path m w).1.subs ≡ m.subs)
        × ((unit_id bus path m w).1.next_channel ≡ m.next_channel)
  unfolding unit_id
  unit_id_apart path m w = ground arith

  signal_name_apart :
      (path : String) (changed : Map String Value) (m : Manager) (w : W)
      → ((signal_name bus path changed m w).1.units ≡ m.units)
        × ((signal_name bus path changed m w).1.subs ≡ m.subs)
        × ((signal_name bus path changed m w).1.next_channel ≡ m.next_channel)
  unfolding signal_name
  signal_name_apart path changed m w = ground (arith, unit_id_apart path m w)

module _ {ℓ} {W : Type ℓ} (bus : Bus W) (k : ℕ) where
  told-InStep :
      (view : View) (changed : Map String Value) (name : String) (m m1 : Manager) (w : W)
      (queue : List ServiceUnit)
      → InStep k m view
      → m1.units ≡ m.units
      → m1.subs ≡ m.subs
      → m1.next_channel ≡ m.next_channel
      → (is_service name ≡ true → (p : ServiceUnit) × (lookup name m.units ≡ some p))
      → lookup k m.subs ≡ some queue
      → length queue < subscriber_size
      → InStep k (apply_named changed (name, m1, w)).0 view
  unfolding InStep-apart
  told-InStep view changed name m m1 w queue v units subs channels known has room =
      let v1 = InStep-apart k view m m1 v units (ap (λ s. lookup k s) subs) (omega arith) in
      elim (Bool-cases (str_eq name "" || not (is_service name))) [
        | inl e ↦ rw e v1
        | inr e ↦
            let (p, is_p) = known (ground arith) in
            rw e (
              apply_patch-InStep k m1 view name p (read_patch name changed) v1
                (ap (λ us. lookup name us) units ∙ is_p)
                (let fits : length v.queue ≡ length queue = cc (v.buffered, has) in omega arith))
      ]

  Step-InStep :
      (s t : Observed W) → Step bus k s t → InStep k s.manager s.view → InStep k t.manager t.view
  unfolding poll handle_properties_changed subscribe unsubscribe
  Step-InStep _ _ (Step.refused m w w' view e h) v = rw h v
  Step-InStep _ _ (Step.listed m w w' view us queue h complete covers has room) v =
      let fits : length v.queue ≡ length queue = cc (v.buffered, has) in
      rw h (take_listing-InStep k m view us v complete covers (omega arith))
  Step-InStep _ _ (Step.told m w view path iface changed queue known has room) v =
      let (units, subs, channels) = signal_name_apart bus path changed m w in
      elim (Bool-cases (str_eq iface unit_iface)) [
        | inl e ↦ rw e (
            told-InStep view changed (signal_name bus path changed m w).0 m
              (signal_name bus path changed m w).1 (signal_name bus path changed m w).2 queue v
              units subs channels known has room)
        | inr e ↦ rw e v
      ]
  Step-InStep _ _ (Step.took m m1 w view u h) v = receive-InStep k view m m1 u v h
  Step-InStep _ _ (Step.other_took j m w view other) v =
      let (units, subs, channels) = receive_apart k view j m other in
      InStep-apart k view m (receive j m).1 v units subs (omega arith)
  Step-InStep _ _ (Step.other_joined m w view) v =
      InStep-apart k view m (subscribe m).1 v refl
        (lookup-insert m.next_channel k [] m.subs
          ∙ (let o = v.opened in ground (arith, ==_iff m.next_channel k)))
        (omega arith)
  Step-InStep _ _ (Step.other_left j m w view other) v =
      InStep-apart k view m (unsubscribe j m) v refl
        (lookup-delete j k m.subs ∙ ground (arith, ==_iff j k)) (omega arith)

  Steps-InStep :
      (s t : Observed W) → Steps bus k s t → InStep k s.manager s.view → InStep k t.manager t.view
  Steps-InStep s _ (Steps.stay _) v = v
  Steps-InStep s _ (Steps.go _ t r before step) v = Step-InStep t r step (Steps-InStep s t before v)

module _ {ℓ} {W : Type ℓ} (bus : Bus W) where
  -- A subscriber that shows the manager's units when it subscribes, and that applies what it
  -- receives as the browser does, is in step in every state that a run reaches: once it has applied
  -- what its channel still buffers, it shows for every name what the manager has for it. In the run
  -- every listing that succeeds has each unit once and every unit that the manager has, empties no
  -- field and gives a new unit every field but its description; a signal is about no service or about
  -- a unit that the manager has; and the channel has room for what is published.
  pub view_in_step :
      (m : Manager) (w : W) (view : View) (t : Observed W)
      → Named m.units
      → ((n : String) → lookup n view ≡ lookup n m.units)
      → Steps bus m.next_channel (record { manager = (subscribe m).1; world = w; view = view }) t
      → InStep m.next_channel t.manager t.view
  unfolding subscribe catch_up
  view_in_step m w view t named same_units steps =
      Steps-InStep bus m.next_channel (record { manager = (subscribe m).1; world = w; view = view })
        t steps
        record {
          queue = [];
          buffered =
              lookup-insert m.next_channel m.next_channel [] m.subs
              ∙ ground (arith, ==_iff m.next_channel m.next_channel);
          named = named;
          opened = omega arith;
          agrees = same_units;
        }
