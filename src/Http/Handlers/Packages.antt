-- ===== src/Http/Handlers/Packages.antt =====
-- server/internal/httpapi/handlers.go: the handlers for package updates.
use lumio_os.Prelude.{ℕ, ◌*◌, String, Bool, not, Option, none, some}
use lumio_os.Http.Idempotency.{valid_request_id}
use lumio_os.Broker.Request.{valid_plan_id}
use lumio_os.Http.Handlers.Forward.{
  Forwarded, forwarded, guard, with_body, second, no_arguments, nothing_expected,
}

-- decodeUpdateRequest, and what its two callers do next, with the action and the seconds.
unfoldable pub handle_update_request : String → ℕ → Bool → String → Option String → Forwarded
handle_update_request action seconds socket session body = with_body socket body λ request_id.
    guard (not (valid_request_id request_id)) "requestId is required." (
      forwarded
        record {
          request_id = request_id;
          action = action;
          arguments = no_arguments;
          expected = none;
          session_token = session;
        }
        (seconds * second))

unfoldable pub handle_updates_refresh : Bool → String → Option String → Forwarded
unfolding handle_update_request
handle_updates_refresh = handle_update_request "updates.refresh" 660

unfoldable pub handle_updates_plan : Bool → String → Option String → Forwarded
unfolding handle_update_request
handle_updates_plan = handle_update_request "updates.plan" 180

pub record PlanBody : Type 0 where
  pub request_id : String
  pub plan_id : String

unfoldable pub handle_updates_apply : Bool → String → Option PlanBody → Forwarded
unfolding valid_plan_id
handle_updates_apply socket session body = with_body socket body λ req.
    guard (not (valid_request_id req.request_id)) "requestId is required." (
      guard (not (valid_plan_id req.plan_id)) "invalid planId." (
        forwarded
          record {
            request_id = req.request_id;
            action = "packages.applyPlan";
            arguments = record no_arguments { plan_id = req.plan_id };
            expected = some record nothing_expected { plan_id = req.plan_id };
            session_token = session;
          }
          (30 * second)))
