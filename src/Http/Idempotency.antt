-- ===== src/Http/Idempotency.antt =====
-- server/internal/httpapi/idempotency.go: replays of mutating requests.
-- Times are nanoseconds since the year 1, and each call of `time.Now` is an argument. The handler
-- `fn` is any function of the agent's remaining state `S` that returns what it wrote.
use lumio_os.Prelude.{
  ℕ, ◌-◌, ◌*◌, String, Bool, true, false, ◌&&◌, ◌||◌, not, Option, none, some, List, [], ◌∷◌, ltb,
  leb, if◌then◌else◌, str_eq, string_eq,
}
pub mod Replay
mod Examples
use Prim.Native.String.{len}
use lumio_os.Prelude.Map.{Map, lookup, insert, delete, retain}
use lumio_os.Prelude.Text.{codes, all_in}

abbrev pub idem_ttl : ℕ
idem_ttl = 24 * 3600 * 1000000000

-- `B` stands for the bytes of a body.
pub record IdemEntry {ℓ} (B : Type ℓ) : Type ℓ where
  pub status : ℕ
  pub body : B
  pub at : ℕ

abbrev pub IdemStore {ℓ} : Type ℓ → Type ℓ
IdemStore B = Map String (IdemEntry B)

abbrev pub Header : Type 0
Header = List (String × String)

-- What a handler wrote to its responseRecorder.
pub record Recorder {ℓ} (B : Type ℓ) : Type ℓ where
  pub status : ℕ
  pub body : B
  pub header : Header

-- What the client gets.
pub record Reply {ℓ} (B : Type ℓ) : Type ℓ where
  pub header : Header
  pub status : ℕ
  pub body : B

abbrev pub replay_header : Header
replay_header =
    ("Content-Type", "application/json; charset=utf-8") ∷ ("X-Lumio-Idempotent-Replay", "true") ∷ []

visible : ℕ → Bool
visible c = not (ltb c 0x21 || ltb 0x7e c)

unfoldable pub valid_request_id : String → Bool
unfolding visible all_in
valid_request_id id = not (str_eq id "" || ltb 128 (len id)) && all_in visible (codes id)

module _ {ℓ} {B : Type ℓ} where
  -- The second part of `get`: an entry that is too old is deleted.
  abbrev expire :
      IdemStore B → String → ℕ → Option (IdemEntry B) → Option (IdemEntry B) × IdemStore B
  expire s key now none = (none, s)
  expire s key now (some entry) =
      if ltb idem_ttl (now - entry.at) then (none, delete key s) else (some entry, s)

  unfoldable pub get : IdemStore B → String → ℕ → Option (IdemEntry B) × IdemStore B
  get s key now = expire s key now (lookup key s)

  -- !e.at.Before(cutoff)
  abbrev fresh_at : ℕ → IdemEntry B → Bool
  fresh_at cutoff entry = not (ltb entry.at cutoff)

  pub put : IdemStore B → String → IdemEntry B → ℕ → IdemStore B
  put s key entry now = insert key entry (retain (fresh_at (now - idem_ttl)) s)

-- The times at which `mutate` reads the clock: in `get`, for the new entry, and in `put`.
pub record Clock : Type 0 where
  pub looked_up : ℕ
  pub answered : ℕ
  pub stored : ℕ

module _ {ℓ} {B : Type ℓ} where
  abbrev store_answer : IdemStore B → String → Clock → Recorder B → IdemStore B
  store_answer s id t rec =
      put s id (record { status = rec.status; body = rec.body; at = t.answered }) t.stored

module _ {ℓ κ} {B : Type ℓ} {S : Type κ} where
  -- (the reply, the store, the state that the handler left)
  abbrev answer :
      IdemStore B → String → Clock → (S → Recorder B × S) → S → Reply B × IdemStore B × S
  answer s id t fn state =
      let (rec, state') = fn state in
      (
        record { header = rec.header; status = rec.status; body = rec.body },
        store_answer s id t rec,
        state',
      )

  pub mutate : IdemStore B → String → Clock → (S → Recorder B × S) → S → Reply B × IdemStore B × S
  mutate s id t fn state =
      let (found, s') = get s id t.looked_up in
      elim found [
        | some entry ↦
            (record { header = replay_header; status = entry.status; body = entry.body }, s', state)
        | none ↦ answer s' id t fn state
      ]
