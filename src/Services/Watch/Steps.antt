-- ===== src/Services/Watch/Steps.antt =====
-- The manager and one of its subscribers, step by step.
-- `Step` is one turn of the goroutine `watch`, or of the subscriber, or of somebody else's channel.
use lumio_os.Prelude.{
  ℕ, ◌+◌, ◌≤◌, ◌<◌, String, some, List, [], ◌∷◌, ◌++◌, ◌≡◌, refl, ap, ◌∙◌, eq_iff, string_eq,
  nat_eq, arith, Bool-cases, inl, inr,
}
use lumio_os.Prelude.Lists.{length, length-append, append_assoc, append-nil}
use lumio_os.Prelude.Map.{Map, lookup, insert, lookup-insert}
use lumio_os.Services.Units.{ServiceUnit, diff_units, index_units}
use lumio_os.Services.Watch.{
  Manager, subscriber_size, offer, offer_all, publish, publish_all, fill, says_nothing,
  replace_unit, apply_patch, take_listing,
}
use lumio_os.Services.Watch.Client.{View, catch_up, catch_up-append}
use lumio_os.Services.Watch.Following.{Named, Complete, Covers, listed, patched, index_units-Named}

-- What a subscriber's queue is after a publication that it has room for.
publish_one :
    (k : ℕ) (u : ServiceUnit) (subs : Map ℕ (List ServiceUnit)) (queue : List ServiceUnit)
    → lookup k subs ≡ some queue
    → lookup k (offer_all u subs) ≡ some (offer u queue)
unfolding offer_all lookup
publish_one k u [] queue h = absurd (cc h)
publish_one k u ((j, q) ∷ subs) queue h = ground (arith, publish_one k u subs queue)

publish_all-queue :
    (k : ℕ) (us : List ServiceUnit) (m : Manager) (queue : List ServiceUnit)
    → lookup k m.subs ≡ some queue
    → length queue + length us ≤ subscriber_size
    → lookup k (publish_all us m).subs ≡ some (queue ++ us)
unfolding publish_all publish
publish_all-queue k [] m queue h room = ground (arith, append-nil queue)
publish_all-queue k (u ∷ us) m queue h room =
    let first : lookup k (offer_all u m.subs) ≡ some (queue ++ u ∷ []) =
      publish_one k u m.subs queue h ∙ ground arith in
    publish_all-queue k us (publish u m) (queue ++ u ∷ []) first
      (omega (arith, length-append queue (u ∷ [])))
    ∙ ap some (append_assoc queue (u ∷ []) us)

-- Nothing else of the manager changes.
publish_all-rest :
    (us : List ServiceUnit) (m : Manager)
    → ((publish_all us m).units ≡ m.units) × ((publish_all us m).next_channel ≡ m.next_channel)
unfolding publish_all publish
publish_all-rest [] m = (refl, refl)
publish_all-rest (u ∷ us) m = publish_all-rest us (publish u m)

-- The view, once the subscriber has taken all that its channel `k` buffers, is the manager's map; a
-- channel that is made later is another one.
pub record InStep (k : ℕ) (m : Manager) (view : View) : Type 0 where
  pub queue : List ServiceUnit
  pub buffered : lookup k m.subs ≡ some queue
  pub named : Named m.units
  pub opened : k < m.next_channel
  pub agrees : (n : String) → lookup n (catch_up queue view) ≡ lookup n m.units

-- What a change of the units does that publishes `us` and has room for it.
published :
    (k : ℕ) (m : Manager) (view : View) (units : Map String ServiceUnit) (us : List ServiceUnit)
    → (v : InStep k m view) → length v.queue + length us ≤ subscriber_size
    → Named units
    → ((n : String) → lookup n (catch_up us (catch_up v.queue view)) ≡ lookup n units)
    → InStep k (publish_all us (record m { units = units })) view
published k m view units us v room named agree =
    let m' = record m { units = units } in
    let rest = publish_all-rest us m' in
    record {
      queue = v.queue ++ us;
      buffered = publish_all-queue k us m' v.queue v.buffered room;
      named = rw rest.0 named;
      opened = rw rest.1 v.opened;
      agrees = λ n. rw (catch_up-append v.queue us view) (rw rest.0 (agree n));
    }

length-diff_units :
    (prev : Map String ServiceUnit) (us : List ServiceUnit)
    → length (diff_units prev us) ≤ length us
unfolding diff_units
length-diff_units prev [] = omega arith
length-diff_units prev (u ∷ us) = ground (arith, length-diff_units prev us)

insert-Named :
    (name : String) (u : ServiceUnit) (units : Map String ServiceUnit)
    → u.name ≡ name
    → Named units
    → Named (insert name u units)
insert-Named name u units own named n v h =
    ground (arith, lookup-insert name n u units, eq_iff name n, named n v)

pub take_listing-InStep :
    (k : ℕ) (m : Manager) (view : View) (us : List ServiceUnit) (v : InStep k m view)
    → Complete m.units us
    → Covers m.units us
    → length v.queue + length (diff_units m.units us) ≤ subscriber_size
    → InStep k (take_listing us m) view
unfolding take_listing
take_listing-InStep k m view us v complete covers room =
    published k m view (index_units us) (diff_units m.units us) v room
      (index_units-Named m.units us complete)
      (listed m.units us complete (catch_up v.queue view) v.named covers v.agrees)

pub apply_patch-InStep :
    (k : ℕ) (m : Manager) (view : View) (name : String) (p patch : ServiceUnit)
    → (v : InStep k m view) → lookup name m.units ≡ some p
    → length v.queue < subscriber_size
    → InStep k (apply_patch name patch m) view
unfolding apply_patch replace_unit
apply_patch-InStep k m view name p patch v known room = elim (Bool-cases (says_nothing patch)) [
  | inl e ↦ rw e v
  | inr e ↦ rw e (
      rw known (
        published k m view (insert name (fill p patch) m.units)
          (diff_units ((name, p) ∷ []) (fill p patch ∷ [])) v
          (omega (arith, length-diff_units ((name, p) ∷ []) (fill p patch ∷ [])))
          (insert-Named name (fill p patch) m.units (v.named name p known) v.named)
          (patched m.units (catch_up v.queue view) name p patch v.named known v.agrees)))
]
