-- ===== src/Network/Controller/Examples.antt =====
-- Tests of the transaction over a small backend, and the theorems at concrete requests.
use lumio_os.Prelude.{
  ◌+◌, ◌*◌, ◌<◌, ◌≡◌, ◌≢◌, ◌⊎◌, refl, true, false, String, none, some, [], ◌∷◌, arith, eq_iff,
}
use lumio_os.Prelude.Int.{pos}
use lumio_os.Network.Config.{
  Config, EthernetConfig, valid_revision, validate_config, valid_addresses,
}
use lumio_os.Network.Controller.Candidates.{NoLeak}
use lumio_os.Network.Controller.Defs.{
  State, ok, Backend, Environment, PendingState, created, applied, did_set, tried, Clock, second,
  apply, confirm, expire, begin, stage, set_all, sort_names, install, cancel_on_error,
  clear_expired, check_request, check_timeout, rollback_and_verify, verify_rollback, retry_later,
  call_create, call_set, call_try, call_cancel,
}
use lumio_os.Network.Controller.Safety.{applies, fires, run, no_candidate_left, confirm_applies}

-- A backend whose candidates are all called "/c", and that accepts everything; the world is the
-- configuration in force.
abbrev backend : Backend String
backend = record {
  create = λ w. (ok ("/c", w), w);
  set = λ path delta w. (none, w);
  try = λ path timeout w. (none, w);
  apply = λ path w. (none, w);
  cancel = λ path w. (none, w);
}

abbrev revision_zero : String
revision_zero = "sha256:0000000000000000000000000000000000000000000000000000000000000000"

abbrev env : Environment
env = record {
  netip = record { parse_prefix = λ s. some s; parse_addr = λ s. true };
  revision = λ merged. revision_zero;
  encode = λ e. "{}";
}

abbrev dhcp : EthernetConfig
dhcp = record {
  dhcp4 = true;
  dhcp6 = false;
  addresses = [];
  nameservers = none;
  routes = [];
  optional = false;
}

abbrev config : Config
config = record { version = pos 2; ethernets = ("eth1", dhcp) ∷ ("eth0", dhcp) ∷ [] }

abbrev clock : Clock
clock = record { checked = 7; started = 7 }

abbrev fresh : State String
fresh = record { pending = none; calls = []; world = "old" }

abbrev change : PendingState
change = record {
  pending = record {
    token = "tok";
    previous_revision = revision_zero;
    expires_at = 7 + 90 * second;
    confirm_timeout = 90;
  };
  path = "/c";
  fires_at = 7 + 90 * second;
}

abbrev waiting : State String
waiting = record {
  pending = some change;
  calls =
      tried "/c" 90
      ∷ did_set "/c" "ethernets.eth1={}"
      ∷ did_set "/c" "ethernets.eth0={}"
      ∷ created "/c"
      ∷ [];
  world = "old";
}

-- The default timeout, and the interfaces in the order of their names.
apply_starts :
    apply backend env config revision_zero (pos 0) clock (some "tok") fresh
    ≡ (ok change.pending, waiting)
unfolding apply check_request validate_config valid_revision check_timeout clear_expired begin stage
    set_all sort_names install cancel_on_error call_create call_set call_try valid_addresses
apply_starts = refl

expire_reverts : (expire backend env "tok" "/c" 99 waiting).pending ≡ none
unfolding expire rollback_and_verify verify_rollback retry_later call_create call_cancel
expire_reverts = refl

no_candidate_left_example : NoLeak (
    run backend env fresh
      (applies config revision_zero (pos 0) clock none ∷ fires "tok" "/c" 99 ∷ []))
no_candidate_left_example = no_candidate_left backend env "old" _

confirm_applies_example :
    ((confirm backend env "tok" 8 waiting).1 ≡ waiting)
    ⊎ ((x : PendingState) × (waiting.pending ≡ some x)
        × (◌≡◌ {A = String} "tok" x.pending.token)
        × (◌≢◌ {A = String} "tok" "")
        × (8 < x.pending.expires_at)
        × ((confirm backend env "tok" 8 waiting).1.calls
            ≡ applied x.path (backend.apply x.path waiting.world).0 ∷ waiting.calls))
confirm_applies_example = confirm_applies backend env "tok" 8 waiting

old_ne_tok : ◌≢◌ {A = String} "old" "tok"
old_ne_tok = ground (arith, eq_iff "old" "tok")
