-- ===== src/Api/Errors.antt =====
-- backend/src/doda/api/errors.py: the response to each exception. A response is the status, and of
-- the envelope the code and whether a client may try again; the message is a fixed text of the
-- handler, and the trace id is the request's.
use doda.Base.{ℕ, String, Bool, true, false}
use doda.Domain.Security.{Decision, allow, deny, step_up_required, approval_required}
use doda.Db.{
  Error, session_invalid, authorization_error, invalid_action_transition, invalid_task_transition,
  task_parent_not_found, reminder_not_pending, reminder_mismatch, approval_not_pending,
  approval_nonce_mismatch, approval_expired, approval_payload_changed, approval_wrong_status,
  action_not_cancellable, invalid_compensation_outcome, workspace_membership_error,
  customer_membership_error, duplicate_membership, duplicate_workspace_membership,
  notification_preference_error, kill_switch_engaged, budget_exceeded, outbound_content_blocked,
  deep_cost_ceiling, model_not_configured, model_authentication, model_rate_limited, model_timeout,
  model_provider, unsupported_capability, provider_disabled, not_found,
}

pub record Response : Type 0 where
  pub status_code : ℕ
  pub code : String
  pub retryable : Bool

abbrev pub refused : ℕ → String → Response
refused status_code code = record { status_code = status_code; code = code; retryable = false }

abbrev again : ℕ → String → Response
again status_code code = record { status_code = status_code; code = code; retryable = true }

-- `exc.decision.value`
abbrev pub decision_value : Decision → String
decision_value allow = "ALLOW"
decision_value deny = "DENY"
decision_value step_up_required = "STEP_UP_REQUIRED"
decision_value approval_required = "APPROVAL_REQUIRED"

-- The handlers of `ModelGatewayError`s and of the provider settings, and the catch-all.
abbrev pub respond_model : Error → Response
respond_model budget_exceeded = refused 402 "BUDGET_EXCEEDED"
respond_model outbound_content_blocked = refused 422 "OUTBOUND_CONTENT_BLOCKED"
respond_model deep_cost_ceiling = refused 402 "DEEP_COST_CEILING_EXCEEDED"
respond_model model_not_configured = refused 503 "AI_PROVIDER_NOT_CONFIGURED"
respond_model model_authentication = refused 502 "AI_PROVIDER_AUTH_ERROR"
respond_model model_rate_limited = again 429 "AI_PROVIDER_RATE_LIMITED"
respond_model model_timeout = again 504 "AI_PROVIDER_TIMEOUT"
respond_model model_provider = again 502 "AI_PROVIDER_ERROR"
respond_model unsupported_capability = refused 422 "AI_CAPABILITY_UNSUPPORTED"
respond_model (provider_disabled p) = refused 403 "AI_PROVIDER_DISABLED"
respond_model _ = again 500 "INTERNAL_ERROR"

-- The handlers on memberships, preferences and the kill switch.
abbrev pub respond_members : Error → Response
respond_members workspace_membership_error = refused 409 "MEMBERSHIP_INVALID"
respond_members customer_membership_error = refused 409 "LAST_OWNER_PROTECTED"
respond_members duplicate_membership = refused 409 "ALREADY_MEMBER"
respond_members duplicate_workspace_membership = refused 409 "ALREADY_MEMBER"
respond_members notification_preference_error = refused 409 "SECURITY_ALERT_MANDATORY"
respond_members (kill_switch_engaged scope) = refused 403 "KILL_SWITCH_ENGAGED"
respond_members x = respond_model x

-- The handlers on sessions, authorization, actions and tasks, and the 404 of a handler's own
-- `HTTPException`, whose envelope is FastAPI's.
unfoldable pub respond : Error → Response
respond (session_invalid reason) = refused 401 "UNAUTHENTICATED"
respond (authorization_error decision) = refused 403 (decision_value decision)
respond (invalid_action_transition a b) = refused 409 "INVALID_STATE"
respond (invalid_task_transition a b) = refused 409 "INVALID_STATE"
respond task_parent_not_found = refused 404 "NOT_FOUND"
respond reminder_not_pending = refused 409 "REMINDER_INVALID"
respond reminder_mismatch = refused 409 "REMINDER_INVALID"
respond (approval_not_pending s) = refused 409 "APPROVAL_INVALID"
respond approval_nonce_mismatch = refused 409 "APPROVAL_INVALID"
respond approval_expired = refused 409 "APPROVAL_INVALID"
respond approval_payload_changed = refused 409 "APPROVAL_INVALID"
respond (approval_wrong_status s) = refused 409 "APPROVAL_INVALID"
respond (action_not_cancellable i s) = refused 409 "ACTION_NOT_CANCELLABLE"
respond (invalid_compensation_outcome s) = refused 400 "INVALID_COMPENSATION_OUTCOME"
respond (not_found t) = refused 404 ""
respond x = respond_members x
