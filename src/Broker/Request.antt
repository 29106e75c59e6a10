-- ===== src/Broker/Request.antt =====
-- `ActionRequest` of server/internal/broker/broker.go, and its validation.
-- A request is the decoded JSON, so that an absent text is empty and an absent number is 0.
use Prim.Native.String.{len}
use lumio_os.Prelude.{
  ℕ, String, Bool, true, false, ◌&&◌, ◌||◌, not, Option, none, some, List, [], ◌∷◌, ltb, ◌==◌,
  if◌then◌else◌, str_eq,
}
use lumio_os.Prelude.Int.{ℤ, pos, negsuc, below, above}
use lumio_os.Prelude.Lists.{length}
use lumio_os.Prelude.Text.{codes, all_in, is_digit, is_lower, is_upper, is_lower_hex}
use lumio_os.Network.Config.{
  Config, Netip, Verdict, valid, invalid, reject, validate_config, valid_revision, is_hex64,
}
use lumio_os.Network.Controller.Defs.{
  default_confirm_timeout, min_confirm_timeout, max_confirm_timeout,
}

pub record Arguments : Type 0 where
  pub unit : String
  pub plan_id : String
  pub path : String
  pub content_base64 : String
  pub mode : String
  pub restart_unit : String
  pub config : Config
  pub confirm_timeout_sec : ℤ
  pub token : String

pub record Expected : Type 0 where
  pub active_state : String
  pub plan_id : String
  pub revision : String

pub record ActionRequest : Type 0 where
  pub request_id : String
  pub action : String
  pub arguments : Arguments
  pub expected : Option Expected
  pub session_token : String

-- The keys of the source's maps from actions to true.
abbrev one_of : List String → String → Bool
one_of [] action = false
one_of (a ∷ rest) action = str_eq action a || one_of rest action

unfoldable pub service_actions : String → Bool
service_actions = one_of (
    "services.start" ∷ "services.stop" ∷ "services.restart" ∷ "services.reload" ∷ "services.enable"
    ∷ "services.disable" ∷ [])

unfoldable pub update_actions : String → Bool
update_actions = one_of ("updates.refresh" ∷ "updates.plan" ∷ "packages.applyPlan" ∷ [])

unfoldable pub file_actions : String → Bool
file_actions = one_of ("files.writePrivileged" ∷ [])

unfoldable pub power_actions : String → Bool
power_actions = one_of ("system.reboot" ∷ "system.poweroff" ∷ [])

unfoldable pub network_actions : String → Bool
network_actions = one_of ("network.applyWithRollback" ∷ "network.confirm" ∷ [])

-- What follows a literal prefix, if the text has it.
unfoldable pub cut_prefix : List ℕ → List ℕ → Option (List ℕ)
cut_prefix [] s = some s
cut_prefix (c ∷ p) [] = none
cut_prefix (c ∷ p) (d ∷ s) = let rest = cut_prefix p s in if c == d then rest else none

abbrev after : String → String → (List ℕ → Bool) → Bool
after prefix value p = elim (cut_prefix (codes prefix) (codes value)) [
  | none ↦ false
  | some rest ↦ p rest
]

-- [a-zA-Z0-9@:._\-]+\.service$, where something stands before the last dot.
abbrev is_unit_char : ℕ → Bool
is_unit_char c =
    is_lower c
    || is_upper c
    || is_digit c
    || c == b'@'
    || c == b':'
    || c == b'.'
    || c == b'_'
    || c == b'-'

unfoldable pub unit_tail : List ℕ → Bool
unit_tail [] = false
unit_tail (c ∷ cs) =
    let rest = unit_tail cs in elim (cut_prefix (codes ".service") cs) [ some [] ↦ true | _ ↦ rest ]

unfoldable pub unit_name_pattern : String → Bool
unfolding all_in unit_tail cut_prefix
unit_name_pattern unit = all_in is_unit_char (codes unit) && unit_tail (codes unit)

-- ^pln_[a-f0-9]{24}$
unfoldable pub valid_plan_id : String → Bool
unfolding all_in cut_prefix
valid_plan_id value = after "pln_" value (λ rest. all_in is_lower_hex rest && length rest == 24)

-- ^0[0-6][0-4][0-4]$
unfoldable pub mode_pattern : List ℕ → Bool
mode_pattern (z ∷ u ∷ g ∷ o ∷ []) =
    z == b'0'
    && (not (ltb u b'0') && not (ltb b'6' u))
    && (not (ltb g b'0') && not (ltb b'4' g))
    && (not (ltb o b'0') && not (ltb b'4' o))
mode_pattern _ = false

-- ^[a-f0-9]{64}$
unfoldable pub network_token_pattern : String → Bool
unfolding all_in
network_token_pattern token = is_hex64 (codes token)

abbrev pub is_active_state : String → Bool
is_active_state =
    one_of ("active" ∷ "inactive" ∷ "failed" ∷ "activating" ∷ "deactivating" ∷ "reloading" ∷ [])

-- What the validation uses of other code: net/netip, path/filepath and encoding/base64, of which
-- `decoded_len` is the number of decoded bytes.
pub record Library : Type 0 where
  pub netip : Netip
  pub is_abs : String → Bool
  pub clean : String → String
  pub decoded_len : String → Option ℕ

abbrev pub max_write_bytes : ℕ
max_write_bytes = 1048576

abbrev expects : Option Expected → (Expected → Bool) → Bool
expects none test = false
expects (some expected) test = test expected

-- The default timeout that `validate` writes into the request.
unfoldable pub default_timeout : String → ℤ → ℤ
default_timeout action (pos n) =
    if str_eq action "network.applyWithRollback" && n == 0
    then pos default_confirm_timeout
    else pos n
default_timeout action (negsuc n) = negsuc n

unfoldable pub with_timeout : ActionRequest → ActionRequest
unfolding default_timeout
with_timeout req = record req {
  arguments = record req.arguments {
    confirm_timeout_sec = default_timeout req.action req.arguments.confirm_timeout_sec;
  };
}

-- The tests on the expected state, which every action passes.
unfoldable pub validate_state : Option Expected → Verdict → Verdict
validate_state expected rest =
    reject
      (expects expected λ e. not (str_eq e.active_state "") && not (is_active_state e.active_state))
      "invalid expected activeState." rest

unfoldable pub validate_plan : ActionRequest → Verdict → Verdict
unfolding valid_plan_id
validate_plan req rest =
    if str_eq req.action "packages.applyPlan"
    then reject (not (valid_plan_id req.arguments.plan_id)) "invalid planId." (
        reject (not (expects req.expected λ e. str_eq e.plan_id req.arguments.plan_id))
          "expected planId must match arguments.planId." rest)
    else rest

module _ (lib : Library) where
  -- Whether the decoded content exists and has at most 1 MiB.
  abbrev pub is_content : String → Bool
  is_content text = elim (lib.decoded_len text) [
    | none ↦ false
    | some n ↦ not (ltb max_write_bytes n)
  ]

  abbrev pub is_etc_path : String → Bool
  is_etc_path path =
      not (str_eq path "")
      && lib.is_abs path
      && str_eq (lib.clean path) path
      && after "/etc/" path (λ rest. true)

  unfoldable pub validate_file : ActionRequest → Verdict → Verdict
  unfolding valid_revision mode_pattern unit_name_pattern cut_prefix
  validate_file req rest =
      let args = req.arguments in
      if str_eq req.action "files.writePrivileged"
      then reject (not (is_etc_path args.path)) "path must be a canonical path below /etc." (
          reject (not (expects req.expected λ e. valid_revision e.revision))
            "expected revision is required."
            (reject (not (is_content args.content_base64))
              "contentBase64 must contain at most 1 MiB."
              (reject (not (str_eq args.mode "") && not (mode_pattern (codes args.mode)))
                "invalid mode."
                (reject
                  (not (str_eq args.restart_unit "") && not (unit_name_pattern args.restart_unit))
                  "invalid restart unit." rest))))
      else rest

  abbrev then_config : Verdict → Verdict → Verdict
  then_config valid rest = rest
  then_config (invalid message) rest = invalid message

  unfoldable pub validate_network : ActionRequest → Verdict → Verdict
  unfolding valid_revision validate_config
  validate_network req rest =
      if str_eq req.action "network.applyWithRollback"
      then reject (not (expects req.expected λ e. valid_revision e.revision))
          "expected revision is required."
          (then_config (validate_config lib.netip req.arguments.config) (
            reject
              (below req.arguments.confirm_timeout_sec min_confirm_timeout
                || above req.arguments.confirm_timeout_sec max_confirm_timeout)
              "confirm timeout must be between 30 and 300 seconds." rest))
      else rest

  -- `validate`, on the request that already has the default timeout. Its code is always
  -- "validation_failed".
  unfoldable pub validate : ActionRequest → Verdict
  unfolding service_actions update_actions file_actions power_actions network_actions validate_state
      validate_plan validate_file validate_network unit_name_pattern network_token_pattern
      with_timeout
  validate request =
      let req = with_timeout request in
      reject (str_eq req.request_id "" || ltb 128 (len req.request_id)) "requestId is required." (
        reject
          (not (service_actions req.action)
            && not (update_actions req.action)
            && not (file_actions req.action)
            && not (power_actions req.action)
            && not (network_actions req.action))
          "unknown action."
          (reject (service_actions req.action && not (unit_name_pattern req.arguments.unit))
            "invalid unit name."
            (validate_state req.expected (
              validate_plan req (
                validate_file req (
                  validate_network req (
                    reject
                      (str_eq req.action "network.confirm"
                        && not (network_token_pattern req.arguments.token))
                      "invalid network confirmation token." valid)))))))
