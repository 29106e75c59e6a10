-- ===== src/Broker/Audit.antt =====
-- server/internal/broker/audit.go: the audit log, which also answers repeated requests.
-- The rows stand in the order of their ids. A row has what later queries read; its time and its
-- duration are left out. SQLite is a parameter in one respect: it may fail to take a row, and then
-- the source goes on.
use lumio_os.Prelude.{
  ℕ, String, Bool, false, ◌&&◌, ◌||◌, Option, none, some, List, [], ◌∷◌, ◌++◌, ◌==◌, if◌then◌else◌,
  str_eq, ◌≡◌, arith,
}

pub data Kind : Type 0 where
  begin_row end_row deny_row : Kind

pub record Row : Type 0 where
  pub kind : Kind
  pub request_id : String
  pub uid : ℕ
  pub user_name : String
  pub action : String
  pub arguments_hash : String
  pub polkit_result : String
  pub outcome : String
  pub error : String
  pub result_json : String

-- How a stored row answers: the data of a success, or the code and the message of an error.
pub data Stored : Type 0 where
  stored_data : String → Stored
  stored_error : String → String → Stored

-- The `switch` on the kind: a status with a body, or `none` for the next row.
unfoldable pub replay_row : Row → Option (ℕ × Stored)
replay_row row = elim row.kind [
  | begin_row ↦ none
  | end_row ↦
      if str_eq row.outcome "success"
      then some (200, stored_data row.result_json)
      else some (500, stored_error "internal" row.error)
  | deny_row ↦ some (403, stored_error "forbidden" row.error)
]

abbrev or_else {ℓ} : {A : Type ℓ} → Option A → Option A → Option A
or_else none rest = rest
or_else (some a) rest = some a

-- The loop over the rows of a request.
unfoldable pub stored_result : String → List Row → Option (ℕ × Stored)
unfolding replay_row
stored_result id [] = none
stored_result id (row ∷ rows) =
    let rest = stored_result id rows in
    if str_eq row.request_id id then or_else (replay_row row) rest else rest

unfoldable pub request_owned : String → ℕ → List Row → Bool
request_owned id uid [] = false
request_owned id uid (row ∷ rows) =
    (str_eq row.request_id id && row.uid == uid) || request_owned id uid rows

-- What a further row adds: it is read after the others.
pub stored_result-append :
    (id : String) (rows : List Row) (row : Row)
    → stored_result id (rows ++ (row ∷ []))
      ≡ or_else (stored_result id rows) (if str_eq row.request_id id then replay_row row else none)
unfolding stored_result
stored_result-append id [] row = ground arith
stored_result-append id (r ∷ rows) row = ground (arith, stored_result-append id rows row)
