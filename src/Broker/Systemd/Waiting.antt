-- ===== src/Broker/Systemd/Waiting.antt =====
-- The loops of systemd.go end, and what a success says.
use lumio_os.Prelude.{
  ℕ, zero, suc, ◌+◌, ◌*◌, ◌≤◌, ◌<◌, ltb, String, Bool, true, false, not, Option, none, some, ◌≡◌,
  refl, ap, ◌∙◌, ◌⊎◌, lt→ltb, str_eq, eq_iff, arith, Bool-cases, inl, inr, Option-cases,
  if◌then◌else◌,
}
use lumio_os.Prelude.Action.{Result, ok, err}
use lumio_os.Prelude.Dbus.{Argument, Reply, value, object}
use lumio_os.Broker.Systemd.{
  UnitState, SystemdClient, Answer, Judged, unit_state, first_argument, wait_until, judge_state,
  judge_enabled, is_enabled, wait_state, wait_enabled, execute, wait_time, unknown, with_sub_state,
  with_active_state, with_unit, started, after_job, variant_text,
}

-- What the clock does: no call turns it back, and a pause that is not cancelled takes 100 ms.
pub record Ticks {ℓ} {W : Type ℓ} (c : SystemdClient W) : Type ℓ where
  pub get_unit : (unit : String) (w : W) → c.now w ≤ c.now (c.get_unit unit w).1
  pub get_property : (path prop : String) (w : W) → c.now w ≤ c.now (c.get_property path prop w).1
  pub get_unit_file_state :
      (unit : String) (w : W) → c.now w ≤ c.now (c.get_unit_file_state unit w).1
  pub pause : (w : W) → (c.pause w).0 ≡ none → c.now w + 100 ≤ c.now (c.pause w).1

-- What the success of an action promises of the unit.
abbrev pub achieved : String → UnitState → Bool
achieved action state =
    if str_eq action "services.stop"
    then str_eq state.active_state "inactive"
    else if str_eq action "services.enable"
    then is_enabled state
    else if str_eq action "services.disable"
    then not (is_enabled state)
    else str_eq state.active_state "active"

Judged-cases :
    (j : Judged)
    → (j ≡ Judged.arrived)
      ⊎ ((e : String) × (j ≡ Judged.lost e))
      ⊎ ((late : String) × (j ≡ Judged.waiting late))
Judged-cases Judged.arrived = inl refl
Judged-cases (Judged.lost e) = inr (inl (e, refl))
Judged-cases (Judged.waiting late) = inr (inr (late, refl))

module _ {ℓ} {W : Type ℓ} (c : SystemdClient W) (ticks : Ticks c) where
  with_sub_state_later :
      (state : UnitState) (r : Result String Argument) (w : W)
      → c.now w ≤ c.now (with_sub_state c state (r, w)).world
  with_sub_state_later state (err e) w = omega arith
  with_sub_state_later state (ok a) w = ticks.get_unit_file_state state.name w

  with_active_state_later :
      (path : String) (state : UnitState) (r : Result String Argument) (w : W)
      → c.now w ≤ c.now (with_active_state c path state (r, w)).world
  with_active_state_later path state (err e) w = omega arith
  with_active_state_later path state (ok a) w =
      let one = ticks.get_property path "SubState" w in
      let two =
        with_sub_state_later (record state { active_state = variant_text a })
          (first_argument "Get SubState" (c.get_property path "SubState" w).0)
          (c.get_property path "SubState" w).1 in
      omega arith

  with_unit_later :
      (state : UnitState) (r : Result String Argument) (w : W)
      → c.now w ≤ c.now (with_unit c state r w).world
  with_unit_later state (err e) w = omega arith
  with_unit_later state (ok (value (object path))) w =
      let one = ticks.get_property path "ActiveState" w in
      let two =
        with_active_state_later path state
          (first_argument "Get ActiveState" (c.get_property path "ActiveState" w).0)
          (c.get_property path "ActiveState" w).1 in
      omega arith
  with_unit_later state (ok _) w = omega arith

  unit_state_later : (unit : String) (w : W) → c.now w ≤ c.now (unit_state c unit w).world
  unfolding unit_state
  unit_state_later unit w =
      let one = ticks.get_unit unit w in
      let two =
        with_unit_later (unknown unit) (first_argument "GetUnit" (c.get_unit unit w).0)
          (c.get_unit unit w).1 in
      omega arith

  -- An answer, which has an error or a state as it is wanted.
  abbrev Ended : (UnitState → Type 0) → Option (Answer W) → Type ℓ
  Ended P o = (a : Answer W) × (o ≡ some a) × (((e : String) × (a.error ≡ some e)) ⊎ P a.state)

  module _ (judge : UnitState → Judged) (P : UnitState → Type 0)
      (judged : (state : UnitState) → judge state ≡ Judged.arrived → P state) where
    -- One round, given how the rounds that follow it end.
    round_ends :
        (fuel deadline : ℕ) (unit : String) (w : W)
        → (ltb deadline (c.now (unit_state c unit w).world) ≡ false
            → (c.pause (unit_state c unit w).world).0 ≡ none
            → Ended P
                (wait_until c fuel deadline judge unit (c.pause (unit_state c unit w).world).1))
        → Ended P (wait_until c (suc fuel) deadline judge unit w)
    unfolding wait_until
    round_ends fuel deadline unit w rest =
        let seen = unit_state c unit w in
        elim (Option-cases seen.error) [
          | inr (e, broken) ↦ rw (broken, wait_until) (seen, refl, inl (e, broken))
          | inl fine ↦
              rw (fine, wait_until)
                (elim (Judged-cases (judge seen.state)) [
                  | inl here ↦ rw here (seen, refl, inr (judged seen.state here))
                  | inr (inl (e, gone)) ↦ rw gone (_, refl, inl (_, refl))
                  | inr (inr (late, more)) ↦
                      rw more (elim (Bool-cases (ltb deadline (c.now seen.world))) [
                        | inl over ↦ rw over (_, refl, inl (_, refl))
                        | inr in_time ↦ rw in_time (elim (Option-cases (c.pause seen.world).0) [
                          | inr (e, cancelled) ↦ rw cancelled (_, refl, inl (_, refl))
                          | inl passed ↦ rw passed (rest in_time passed)
                        ])
                      ])
                ])
        ]

    wait_until_ends :
        (fuel deadline : ℕ) (unit : String) (w : W)
        → deadline < c.now w + 100 * fuel
        → Ended P (wait_until c (suc fuel) deadline judge unit w)
    wait_until_ends zero deadline unit w h = round_ends zero deadline unit w (λ in_time passed.
        absurd (
          let later = unit_state_later unit w in
          let l = lt→ltb deadline (c.now (unit_state c unit w).world) (omega arith) in
          cc (l, in_time)))
    wait_until_ends (suc fuel) deadline unit w h =
        round_ends (suc fuel) deadline unit w (λ in_time passed.
          let later = unit_state_later unit w in
          let pause = ticks.pause (unit_state c unit w).world passed in
          wait_until_ends fuel deadline unit (c.pause (unit_state c unit w).world).1 (omega arith))

  wait_state_ends :
      (unit want : String) (w : W)
      → Ended (λ state. state.active_state ≡ want) (wait_state c unit want w)
  unfolding wait_state
  wait_state_ends unit want w =
      wait_until_ends (judge_state c want) (λ state. state.active_state ≡ want)
        (λ state h. ground (arith, eq_iff state.active_state want)) 81 (c.now w + wait_time) unit w
        (omega arith)

  wait_enabled_ends :
      (unit : String) (enabled : Bool) (w : W)
      → Ended (λ state. is_enabled state ≡ enabled) (wait_enabled c unit enabled w)
  unfolding wait_enabled
  wait_enabled_ends unit enabled w =
      wait_until_ends (judge_enabled c enabled) (λ state. is_enabled state ≡ enabled)
        (λ state h. ground arith) 81 (c.now w + wait_time) unit w (omega arith)

  -- A job that is refused ends with an error, and one that is accepted ends as the waiting does.
  started_ends :
      (P Q : UnitState → Type 0) (method unit : String) (w : W) (next : W → Option (Answer W))
      → ((state : UnitState) → P state → Q state)
      → ((w' : W) → Ended P (next w'))
      → Ended Q (started c method unit w next)
  started_ends P Q method unit w next follows ends = go (c.job method unit w).0
    where
      go : (r : Reply) → Ended Q (after_job c method r (c.job method unit w).1 next)
      go (err e) = (_, refl, inl (_, refl))
      go (ok body) =
          let (a, e, p) = ends (c.job method unit w).1 in
          (a, e, elim p [ inl broken ↦ inl broken | inr reached ↦ inr (follows a.state reached) ])

  either_ends :
      (P : UnitState → Type 0) (b : Bool) {x y : Option (Answer W)}
      → (b ≡ true → Ended P x)
      → (b ≡ false → Ended P y)
      → Ended P (if b then x else y)
  either_ends P true f g = f refl
  either_ends P false f g = g refl

  -- Every action on a service returns within the rounds that it has, whatever the unit does. When it
  -- returns without an error, the last state that it saw is the one that was asked for: active after
  -- a start, a restart or a reload, inactive after a stop, enabled (or enabled-runtime, or alias)
  -- after an enable, and none of these after a disable. It is assumed that no call turns the clock
  -- back and that a pause that is not cancelled takes at least 100 ms.
  pub execute_ends :
      (action unit : String) (w : W)
      → Ended (λ state. achieved action state ≡ true) (execute c action unit w)
  unfolding execute
  execute_ends action unit w =
      let Q : UnitState → Type 0 = λ state. achieved action state ≡ true in
      let active : (name method : String)
          → ((state : UnitState) → state.active_state ≡ "active" → achieved name state ≡ true)
          → str_eq action name ≡ true
          → Ended Q (started c method unit w (wait_state c unit "active")) =
        λ name method run e.
          started_ends _ Q method unit w _
            (λ state h. ap (λ a. achieved a state) ((eq_iff action name).0 e) ∙ run state h)
            (wait_state_ends unit "active") in
      let running : (state : UnitState)
          → state.active_state ≡ "active"
          → str_eq state.active_state "active" ≡ true =
        λ state h. (eq_iff state.active_state "active").1 h in
      either_ends Q _ (active "services.start" "StartUnit" running) (λ n0.
        either_ends Q _
          (λ e.
            started_ends _ Q "StopUnit" unit w _
              (λ state h.
                ap (λ a. achieved a state) ((eq_iff action "services.stop").0 e)
                ∙ (eq_iff state.active_state "inactive").1 h)
              (wait_state_ends unit "inactive"))
          (λ n1. either_ends Q _ (active "services.restart" "RestartUnit" running) (λ n2.
            either_ends Q _ (active "services.reload" "ReloadUnit" running) (λ n3.
              either_ends Q _
                (λ e.
                  started_ends _ Q "EnableUnitFiles" unit w _
                    (λ state h.
                      ap (λ a. achieved a state) ((eq_iff action "services.enable").0 e) ∙ h)
                    (λ w'. wait_enabled_ends unit true (c.reload w')))
                (λ n4.
                  either_ends Q _
                    (λ e.
                      started_ends _ Q "DisableUnitFiles" unit w _
                        (λ state h.
                          ap (λ a. achieved a state) ((eq_iff action "services.disable").0 e)
                          ∙ ap not h)
                        (λ w'. wait_enabled_ends unit false (c.reload w')))
                    (λ n5. (_, refl, inl (_, refl))))))))
