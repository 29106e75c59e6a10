-- ===== src/Http/Handlers/Passing.antt =====
-- What a handler of server/internal/httpapi/handlers.go has checked when it forwards a request.
use Prim.Native.String.{◌++◌, len}
use lumio_os.Prelude.{
  ◌==◌, ℕ, ◌≡◌, refl, String, Bool, true, false, ◌||◌, not, ltb, str_eq, eq_iff, arith, Bool-cases,
  inl, inr,
}
use lumio_os.Prelude.Int.{ℤ, pos, negsuc}
use lumio_os.Http.Idempotency.{valid_request_id}
use lumio_os.Network.Config.{Verdict, valid, invalid}
use lumio_os.Broker.Request.{ActionRequest, default_timeout, service_actions}
use lumio_os.Http.Handlers.{
  Forwarded, forwarded, guard, or_default, guard_config, action_name_pattern,
}

-- A handler that forwards has passed each guard.
pub guard-passes :
    (fails : Bool) (message : String) (rest : Forwarded) (req : ActionRequest) (t : ℕ)
    → guard fails message rest ≡ forwarded req t
    → (fails ≡ false) × (rest ≡ forwarded req t)
unfolding guard
guard-passes true message rest req t h = absurd (cc h)
guard-passes false message rest req t h = (refl, h)

pub request_id-fits :
    (id : String) → not (valid_request_id id) ≡ false → (str_eq id "" || ltb 128 (len id)) ≡ false
unfolding valid_request_id
request_id-fits id h = ground arith

pub guard_config-passes :
    (v : Verdict) (rest : Forwarded) (req : ActionRequest) (t : ℕ)
    → guard_config v rest ≡ forwarded req t
    → (v ≡ valid) × (rest ≡ forwarded req t)
unfolding guard_config
guard_config-passes valid rest req t h = (refl, h)
guard_config-passes (invalid message) rest req t h = absurd (cc h)

-- The agent and the broker fill in the same timeout.
pub default_idem :
    (n : ℤ) → default_timeout "network.applyWithRollback" (or_default n) ≡ or_default n
unfolding default_timeout
default_idem (negsuc n) = refl
default_idem (pos n) = elim (Bool-cases (n == 0)) [ inl e ↦ rw e refl | inr e ↦ rw (e, e) refl ]

-- The actions on services are none of the others.
pub action-known :
    (a : String)
    → action_name_pattern a ≡ true
    → (service_actions ("services." ++ a) ≡ true)
      × (str_eq ("services." ++ a) "packages.applyPlan" ≡ false)
      × (str_eq ("services." ++ a) "files.writePrivileged" ≡ false)
      × (str_eq ("services." ++ a) "network.applyWithRollback" ≡ false)
      × (str_eq ("services." ++ a) "network.confirm" ≡ false)
unfolding action_name_pattern service_actions
action-known a h = elim (Bool-cases (str_eq a "start")) [
  | inl e ↦ rw ((eq_iff a "start").0 e) (refl, refl, refl, refl, refl)
  | inr e1 ↦ elim (Bool-cases (str_eq a "stop")) [
    | inl e ↦ rw ((eq_iff a "stop").0 e) (refl, refl, refl, refl, refl)
    | inr e2 ↦ elim (Bool-cases (str_eq a "restart")) [
      | inl e ↦ rw ((eq_iff a "restart").0 e) (refl, refl, refl, refl, refl)
      | inr e3 ↦ elim (Bool-cases (str_eq a "reload")) [
        | inl e ↦ rw ((eq_iff a "reload").0 e) (refl, refl, refl, refl, refl)
        | inr e4 ↦ elim (Bool-cases (str_eq a "enable")) [
          | inl e ↦ rw ((eq_iff a "enable").0 e) (refl, refl, refl, refl, refl)
          | inr e5 ↦
              let e : str_eq a "disable" ≡ true = ground arith in
              rw ((eq_iff a "disable").0 e) (refl, refl, refl, refl, refl)
        ]
      ]
    ]
  ]
]

pub payload : (r s : ActionRequest) (t u : ℕ) → forwarded r t ≡ forwarded s u → r ≡ s
payload r s t u h = cc h
