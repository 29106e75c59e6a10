-- ===== src/Network/Controller/Defs.antt =====
-- The controller of server/internal/network/network.go.
use lumio_os.Prelude.{
  ℕ, ◌+◌, ◌*◌, String, Bool, true, false, ◌||◌, not, Option, none, some, List, [], ◌∷◌, ltb,
  if◌then◌else◌, ◌==◌, str_eq,
}
use lumio_os.Prelude.Int.{ℤ, pos, negsuc}
use lumio_os.Network.Config.{
  Config, EthernetConfig, Netip, valid, invalid, validate_config, valid_revision,
}
use Prim.Native.String
use Prim.Native.String.{compare}
use Prim.Native.Nat.{Ordering}

abbrev pub default_confirm_timeout : ℕ
default_confirm_timeout = 90

abbrev pub min_confirm_timeout : ℕ
min_confirm_timeout = 30

abbrev pub max_confirm_timeout : ℕ
max_confirm_timeout = 300

abbrev pub second : ℕ
second = 1000000000

pub data Error : Type 0 where
  err_busy err_expired err_token : Error
  err_validation : String → Error
  stale_error : String → String → Error
  backend_error : String → Error
  rollback_mismatch random_error : Error
  -- errors.Join(cancelErr, err)
  joined : String → Error → Error

pub data Result {ℓ} (A : Type ℓ) : Type ℓ where
  ok : A → Result A
  err : Error → Result A

-- A D-Bus object path.
abbrev pub ObjectPath : Type 0
ObjectPath = String

-- `none` is success, and a text is the error of a call.
pub record Backend {ℓ} (W : Type ℓ) : Type ℓ where
  pub create : W → Result (ObjectPath × String) × W
  pub set : ObjectPath → String → W → Option String × W
  pub try : ObjectPath → ℕ → W → Option String × W
  pub apply : ObjectPath → W → Option String × W
  pub cancel : ObjectPath → W → Option String × W

-- What the program takes from elsewhere: net/netip, crypto/sha256 as `Revision` uses it, and
-- encoding/json.
pub record Environment : Type 0 where
  pub netip : Netip
  pub revision : String → String
  pub encode : EthernetConfig → String

pub record Pending : Type 0 where
  pub token : String
  pub previous_revision : String
  pub expires_at : ℕ
  pub confirm_timeout : ℕ

-- `fires_at` is when the timer calls `expire`.
pub record PendingState : Type 0 where
  pub pending : Pending
  pub path : ObjectPath
  pub fires_at : ℕ

-- The calls of the backend; `created` is a `create` that gave a path. An `apply` and a `cancel` stand
-- with the error that they gave, if any.
pub data Act : Type 0 where
  created : ObjectPath → Act
  applied cancelled : ObjectPath → Option String → Act
  did_set : ObjectPath → String → Act
  tried : ObjectPath → ℕ → Act

pub record State {ℓ} (W : Type ℓ) : Type ℓ where
  pub pending : Option PendingState
  pub calls : List Act
  pub world : W

abbrev pub M {ℓ κ} : Type ℓ → Type κ → Type (ℓ ⊔ κ)
M W A = State W → Result A × State W

abbrev pub next {ℓ κ ι} :
    {W : Type ℓ} {A : Type κ} {B : Type ι} → (A → M W B) → Result A × State W → Result B × State W
next f (ok a, s) = f a s
next f (err e, s) = (err e, s)

infixl 5 ◌>>=◌ ◌>>◌
abbrev pub ◌>>=◌ {ℓ κ ι} : {W : Type ℓ} {A : Type κ} {B : Type ι} → M W A → (A → M W B) → M W B
◌>>=◌ m f s = next f (m s)

abbrev pub ◌>>◌ {ℓ κ} : {W : Type ℓ} {B : Type κ} → M W (Unit {0}) → M W B → M W B
m >> k = m >>= λ _. k

abbrev pub pure {ℓ κ} : {W : Type ℓ} {A : Type κ} → A → M W A
pure a s = (ok a, s)

abbrev pub fail {ℓ κ} : {W : Type ℓ} {A : Type κ} → Error → M W A
fail e s = (err e, s)

abbrev pub lift {ℓ κ} : {W : Type ℓ} {A : Type κ} → Result A → M W A
lift r s = (r, s)

-- if fails { return error }
abbrev pub guard {ℓ} : {W : Type ℓ} → Bool → Error → M W (Unit {0})
guard fails e s = if fails then (err e, s) else (ok tt, s)

abbrev pub outcome : Option String → Result (Unit {0})
outcome none = ok tt
outcome (some message) = err (backend_error message)

-- sort.Strings
abbrev pub str_le : String → String → Bool
str_le a b = elim (compare a b) [ Ordering.gt ↦ false | _ ↦ true ]

unfoldable pub sorted_insert {ℓ} : {A : Type ℓ} → String × A → List (String × A) → List (String × A)
sorted_insert x [] = x ∷ []
sorted_insert x (y ∷ ys) = if str_le x.0 y.0 then x ∷ y ∷ ys else y ∷ sorted_insert x ys

unfoldable pub sort_names {ℓ} : {A : Type ℓ} → List (String × A) → List (String × A)
unfolding sorted_insert
sort_names [] = []
sort_names (x ∷ xs) = sorted_insert x (sort_names xs)

-- What a `create` leaves.
abbrev pub record_create {ℓ} :
    {W : Type ℓ}
    → State W
    → Result (ObjectPath × String) × W
    → Result (ObjectPath × String) × State W
record_create s (ok candidate, w) =
    (ok candidate, record s { calls = created candidate.0 ∷ s.calls; world = w })
record_create s (err e, w) = (err e, record s { world = w })

module _ {ℓ} {W : Type ℓ} (backend : Backend W) where
  unfoldable pub call_cancel : ObjectPath → State W → Option String × State W
  call_cancel path s =
      let (e, w) = backend.cancel path s.world in
      (e, record s { calls = cancelled path e ∷ s.calls; world = w })

  unfoldable pub call_create : M W (ObjectPath × String)
  call_create s = record_create s (backend.create s.world)

  unfoldable pub call_set : ObjectPath → String → M W (Unit {0})
  call_set path delta s =
      let (e, w) = backend.set path delta s.world in
      (outcome e, record s { calls = did_set path delta ∷ s.calls; world = w })

  unfoldable pub call_try : ObjectPath → ℕ → M W (Unit {0})
  call_try path timeout s =
      let (e, w) = backend.try path timeout s.world in
      (outcome e, record s { calls = tried path timeout ∷ s.calls; world = w })

  unfoldable pub call_apply : ObjectPath → M W (Unit {0})
  call_apply path s =
      let (e, w) = backend.apply path s.world in
      (outcome e, record s { calls = applied path e ∷ s.calls; world = w })

abbrev pub join : Option String → Error → Error
join none e = e
join (some cancel_err) e = joined cancel_err e

-- The readings of the clock in `Apply`: at the test of a pending change, and for the new deadline.
pub record Clock : Type 0 where
  pub checked : ℕ
  pub started : ℕ

-- The timeout of a request, where 0 stands for the default, if it is within its bounds.
unfoldable pub check_timeout : ℤ → Result ℕ
check_timeout (pos n) =
    let timeout = if n == 0 then default_confirm_timeout else n in
    if ltb timeout min_confirm_timeout || ltb max_confirm_timeout timeout
    then err (err_validation "confirm timeout must be between 30 and 300 seconds")
    else ok timeout
check_timeout (negsuc n) = err (err_validation "confirm timeout must be between 30 and 300 seconds")

-- The checks of `Apply` before it takes the mutex.
unfoldable pub check_request : Environment → Config → String → ℤ → Result ℕ
unfolding check_timeout
check_request env config expected timeout_sec = elim (validate_config env.netip config) [
  | invalid message ↦ err (err_validation message)
  | valid ↦
      if not (valid_revision expected)
      then err (err_validation "expected revision is required")
      else check_timeout timeout_sec
]

module _ {ℓ} {W : Type ℓ} (backend : Backend W) (env : Environment) where
  -- `rollbackAndVerify` from the result of its `create` on.
  unfoldable pub verify_rollback :
      Option String
      → PendingState
      → Result (ObjectPath × String) × State W
      → Result (Unit {0}) × State W
  unfolding call_cancel
  verify_rollback cancel_err p (err e, s) = (err (join cancel_err e), s)
  verify_rollback cancel_err p (ok (check_path, merged), s) =
      let s' = (call_cancel backend check_path s).1 in
      if not (str_eq (env.revision merged) p.pending.previous_revision)
      then (err (join cancel_err rollback_mismatch), s')
      else (ok tt, s')

  unfoldable pub rollback_and_verify : PendingState → M W (Unit {0})
  unfolding call_cancel call_create verify_rollback
  rollback_and_verify p s =
      let (cancel_err, s') = call_cancel backend p.path s in
      verify_rollback cancel_err p (call_create backend s')

  -- c.pending = nil, if the rollback was verified.
  unfoldable pub forget_pending : Result (Unit {0}) × State W → Result (Unit {0}) × State W
  forget_pending (err e, s) = (err e, s)
  forget_pending (ok _, s) = (ok tt, record s { pending = none })

  -- `Apply` on a pending change: it is left in place until its deadline, and rolled back after it.
  unfoldable pub clear_expired : ℕ → M W (Unit {0})
  unfolding rollback_and_verify forget_pending
  clear_expired now s = elim s.pending [
    | none ↦ (ok tt, s)
    | some p ↦
        if ltb now p.pending.expires_at
        then (err err_busy, s)
        else forget_pending (rollback_and_verify p s)
  ]

  -- ethernets.<name>=<json>
  abbrev pub delta : String → EthernetConfig → String
  delta name e = String.◌++◌ "ethernets." (String.◌++◌ name (String.◌++◌ "=" (env.encode e)))

  unfoldable pub set_all : ObjectPath → List (String × EthernetConfig) → M W (Unit {0})
  unfolding call_set
  set_all path [] = pure tt
  set_all path ((name, e) ∷ rest) = do call_set backend path (delta name e); set_all path rest

  abbrev pub draw : Option String → M W String
  draw none = fail random_error
  draw (some token) = pure token

  unfoldable pub install : ObjectPath → Pending → M W Pending
  install path p s = (
    ok p,
    record s { pending = some (record { pending = p; path = path; fires_at = p.expires_at }) },
  )

  -- `Apply` after `create`, up to the new pending state.
  unfoldable pub stage : Config → String → ℕ → ℕ → Option String → ObjectPath → String → M W Pending
  unfolding set_all call_try install
  stage config expected timeout started random path merged = do
    guard (not (str_eq (env.revision merged) expected)) (stale_error expected (env.revision merged))
    set_all path (sort_names config.ethernets)
    call_try backend path timeout
    token ← draw random
    install path (record {
      token = token;
      previous_revision = env.revision merged;
      expires_at = started + timeout * second;
      confirm_timeout = timeout;
    })

  -- defer func() { if cancelCandidate { backend.cancel(path) } }
  unfoldable pub cancel_on_error {κ} : {A : Type κ} → ObjectPath → M W A → M W A
  unfolding call_cancel
  cancel_on_error path m s =
      let (r, s') = m s in
      elim r [ ok a ↦ (ok a, s') | err e ↦ (err e, (call_cancel backend path s').1) ]

  unfoldable pub begin : Config → String → ℕ → ℕ → Option String → M W Pending
  unfolding call_create cancel_on_error stage
  begin config expected timeout started random = do
    candidate ← call_create backend
    cancel_on_error candidate.0
        (stage config expected timeout started random candidate.0 candidate.1)

  unfoldable pub apply : Config → String → ℤ → Clock → Option String → M W Pending
  apply config expected timeout_sec clock random = do
    timeout ← lift (check_request env config expected timeout_sec)
    clear_expired clock.checked
    begin config expected timeout clock.started random

  unfoldable pub drop_pending : Pending → M W Pending
  drop_pending p s = (ok p, record s { pending = none })

  -- `Confirm` once the token and the time are right.
  unfoldable pub accept : PendingState → M W Pending
  unfolding call_apply drop_pending
  accept p = do call_apply backend p.path; drop_pending p.pending

  unfoldable pub confirm : String → ℕ → M W Pending
  unfolding accept
  confirm token now s = elim s.pending [
    | none ↦ (err err_expired, s)
    | some p ↦
        if str_eq token "" || not (str_eq token p.pending.token)
        then (err err_token, s)
        else if not (ltb now p.pending.expires_at)
        then (err err_expired, s)
        else accept p s
  ]

  -- The end of `expire`: on an error the timer is set anew.
  unfoldable pub retry_later : PendingState → ℕ → Result (Unit {0}) × State W → State W
  retry_later p now (ok _, s) = record s { pending = none }
  retry_later p now (err e, s) = record s {
    pending = some (record p { fires_at = now + 5 * second });
  }

  -- The timer's function for the change with this token and path.
  unfoldable pub expire : String → ObjectPath → ℕ → State W → State W
  unfolding rollback_and_verify retry_later
  expire token path now s = elim s.pending [
    | none ↦ s
    | some p ↦
        if not (str_eq p.pending.token token) || not (str_eq p.path path)
        then s
        else retry_later p now (rollback_and_verify p s)
  ]
