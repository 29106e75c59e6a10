-- ===== src/Broker/Authorise.antt =====
-- `authorize` of server/internal/broker/broker.go, with `reauthFresh`.
use lumio_os.Prelude.{
  ℕ, String, Bool, true, false, ◌&&◌, ◌||◌, Option, none, some, List, [], ◌∷◌, ltb, ◌==◌,
  if◌then◌else◌, str_eq,
}
use lumio_os.Http.Envelope.{ApiError, text, flag, new_error}
use lumio_os.Broker.Request.{
  ActionRequest, service_actions, update_actions, file_actions, power_actions, network_actions,
}
use lumio_os.Broker.Host.{AuthResult, deny, allow, challenge, Host}

-- The result of `authorize`: what the log says, and the error of a refusal.
pub data Authorisation : Type 0 where
  granted : String → Authorisation
  refused : String → ApiError → Authorisation

unfoldable pub action_id : String → String
unfolding service_actions update_actions file_actions power_actions network_actions
action_id action =
    if network_actions action
    then "os.lumio.network.apply"
    else if power_actions action
    then "os.lumio.system.power"
    else if file_actions action
    then "os.lumio.files.write-privileged"
    else if update_actions action
    then "os.lumio.packages.apply"
    else "os.lumio.services.manage"

unfoldable pub action_details : ActionRequest → List (String × String)
unfolding service_actions update_actions file_actions power_actions network_actions
action_details req =
    if network_actions req.action || power_actions req.action
    then ("action", req.action) ∷ []
    else if file_actions req.action
    then ("path", req.arguments.path) ∷ []
    else if update_actions req.action
    then ("planId", req.arguments.plan_id) ∷ []
    else ("unit", req.arguments.unit) ∷ []

abbrev denied : String → Bool → ApiError
denied id reauth_required =
    if reauth_required
    then record {
      code = "forbidden";
      message = "The action requires reauthentication.";
      details = ("actionId", text id) ∷ ("reauthRequired", flag true) ∷ [];
    }
    else record {
      code = "forbidden";
      message = "The action was denied by the authorisation policy.";
      details = ("actionId", text id) ∷ [];
    }

module _ {ℓ} {W : Type ℓ} (host : Host W) where
  -- What `reauthFresh` makes of the session daemon's answer.
  unfoldable pub is_fresh : ℕ → ℕ → Option (ℕ × ℕ) → Bool
  is_fresh uid now none = false
  is_fresh uid now (some (owner, until)) = owner == uid && ltb now until

  unfoldable pub reauth_fresh : ℕ → String → ℕ → W → Bool × W
  unfolding is_fresh
  reauth_fresh uid token now w =
      if str_eq token ""
      then (false, w)
      else (let (resp, w') = host.session_check token w in (is_fresh uid now resp, w'))

  -- The end of `authorize`, on Polkit's answer.
  unfoldable pub decide : ℕ → ActionRequest → ℕ → Option AuthResult × W → Authorisation × W
  unfolding action_id reauth_fresh
  decide uid req now (none, w) =
      (refused "error" (new_error "unavailable" "polkit is unavailable"), w)
  decide uid req now (some allow, w) = (granted "allow", w)
  decide uid req now (some deny, w) = (refused "deny" (denied (action_id req.action) false), w)
  decide uid req now (some challenge, w) =
      let (fresh, w') = reauth_fresh uid req.session_token now w in
      (
        if fresh
            then granted "challenge+reauth"
            else refused "challenge" (denied (action_id req.action) true),
        w',
      )

  unfoldable pub authorize : ℕ → ℕ → ActionRequest → ℕ → W → Authorisation × W
  unfolding decide action_id action_details
  authorize uid pid req now w =
      decide uid req now (host.check uid pid (action_id req.action) (action_details req) w)
