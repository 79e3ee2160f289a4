-- ===== src/Audit.antt =====
-- backend/src/doda/application/audit_service.py: the per-customer hash chain of audit events, and
-- its verification.
pub mod Record
pub mod Chain
pub mod Tamper
use doda.Base.{
  ℕ, String, Bool, true, false, ◌&&◌, ◌||◌, not, Option, none, some, List, [], ◌∷◌, ◌++◌, ltb, ◌==◌,
  str_eq, opt_str_eq, is_none, if◌then◌else◌,
}
use doda.Base.Table.{length, find, select, replace, insert, order_by, take}
use doda.Json.{Json, null, text, object, end, field}
use doda.Env.{Env}
use doda.Db.{
  Db, State, M, Error, assertion_error, ok, ◌>>=◌, ◌>>◌, pure, gets, asks, some_or_raise, modify,
  utcnow, uuid4,
}
use doda.Domain.Audit.{AuditEvent, AuditChainTip}
use doda.Hashing.{canonical_json, hash_payload}

-- The keyword arguments of `record_audit_event`.
pub record Entry : Type 0 where
  pub customer_id : ℕ
  pub workspace_id : Option ℕ
  pub trace_id : ℕ
  pub actor_id : String
  pub event_type : String
  pub safe_metadata : Json

abbrev pub opt_text : Option String → Json
opt_text none = null
opt_text (some t) = text t

abbrev pub opt_uuid : Env → Option ℕ → Json
opt_uuid e none = null
opt_uuid e (some i) = text (e.str_uuid i)

-- The dictionary that is hashed.
event_payload : Env → Entry → ℕ → Option String → Json
unfolding canonical_json
event_payload e a occurred_at prev_hash = object (
    field "customer_id" (text (e.str_uuid a.customer_id)) (
      field "workspace_id" (opt_uuid e a.workspace_id) (
        field "trace_id" (text (e.str_uuid a.trace_id)) (
          field "actor_id" (text a.actor_id) (
            field "event_type" (text a.event_type) (
              field "occurred_at" (text (e.isoformat occurred_at)) (
                field "safe_metadata" (text (canonical_json e a.safe_metadata))
                  (field "prev_hash" (opt_text prev_hash) end))))))))

abbrev pub tip_of : ℕ → List AuditChainTip → Option AuditChainTip
tip_of customer_id = find (λ t. t.customer_id == customer_id)

-- `INSERT … ON CONFLICT DO NOTHING`
abbrev pub upsert_tip : ℕ → List AuditChainTip → List AuditChainTip
upsert_tip customer_id tips =
    if is_none (tip_of customer_id tips)
    then insert (record { customer_id = customer_id; tip_hash = none }) tips
    else tips

abbrev pub set_tip : AuditChainTip → List AuditChainTip → List AuditChainTip
set_tip tip = replace (λ t. t.customer_id == tip.customer_id) tip

unfoldable pub record_audit_event : Entry → M AuditEvent
unfolding event_payload hash_payload
record_audit_event a = do
  modify (λ db. record db { audit_chain_tips = upsert_tip a.customer_id db.audit_chain_tips })
  found ← gets (λ db. tip_of a.customer_id db.audit_chain_tips)
  tip ← some_or_raise found assertion_error
  occurred_at ← utcnow
  digest ← asks (λ e. hash_payload e (event_payload e a occurred_at tip.tip_hash))
  id ← uuid4
  created_at ← utcnow
  let event : AuditEvent = record {
    id = id;
    created_at = created_at;
    customer_id = a.customer_id;
    workspace_id = a.workspace_id;
    trace_id = a.trace_id;
    actor_id = a.actor_id;
    event_type = a.event_type;
    occurred_at = occurred_at;
    safe_metadata = a.safe_metadata;
    prev_hash = tip.tip_hash;
    hash = digest;
  }
  modify (λ db. record db {
    audit_events = insert event db.audit_events;
    audit_chain_tips = set_tip (record tip { tip_hash = some digest }) db.audit_chain_tips;
  })
  pure event

-- The fields of a stored event that its hash is made from.
abbrev pub entry_of : AuditEvent → Entry
entry_of event = record {
  customer_id = event.customer_id;
  workspace_id = event.workspace_id;
  trace_id = event.trace_id;
  actor_id = event.actor_id;
  event_type = event.event_type;
  safe_metadata = event.safe_metadata;
}

-- `_recompute_event_hash`
unfoldable pub recompute_event_hash : Env → AuditEvent → String
unfolding event_payload hash_payload
recompute_event_hash e event =
    hash_payload e (event_payload e (entry_of event) event.occurred_at event.prev_hash)

pub data Reason : Type 0 where
  prev_hash_mismatch hash_mismatch : Reason

pub record AuditChainViolation : Type 0 where
  pub event_id : ℕ
  pub reason : Reason

pub record AuditChainVerificationResult : Type 0 where
  pub checked_count : ℕ
  pub violations : List AuditChainViolation

-- The property `ok`.
abbrev pub is_ok : AuditChainVerificationResult → Bool
is_ok r = length r.violations == 0

-- `ORDER BY created_at, id`
abbrev pub earlier : AuditEvent → AuditEvent → Bool
earlier x y = ltb x.created_at y.created_at || (x.created_at == y.created_at && ltb x.id y.id)

-- The violations that one event adds.
abbrev link_violations : Option String → AuditEvent → List AuditChainViolation
link_violations expected event =
    if opt_str_eq event.prev_hash expected
    then []
    else record { event_id = event.id; reason = prev_hash_mismatch } ∷ []

abbrev hash_violations : Env → AuditEvent → List AuditChainViolation
hash_violations e event =
    if str_eq (recompute_event_hash e event) event.hash
    then []
    else record { event_id = event.id; reason = hash_mismatch } ∷ []

-- The loop of `verify_audit_chain`.
unfoldable pub walk : Env → Option String → List AuditEvent → List AuditChainViolation
walk e expected [] = []
walk e expected (event ∷ events) =
    link_violations expected event ++ (hash_violations e event ++ walk e (some event.hash) events)

abbrev pub events_of : ℕ → Db → List AuditEvent
events_of customer_id db = select (λ v. v.customer_id == customer_id) db.audit_events

unfoldable pub verify_audit_chain : ℕ → M AuditChainVerificationResult
unfolding walk
verify_audit_chain customer_id = do
  events ← gets (λ db. order_by earlier (events_of customer_id db))
  violations ← asks (λ e. walk e none events)
  pure (record { checked_count = length events; violations = violations })

-- backend/src/doda/application/audit_query_service.py: `list_audit_events_for_trace`.
abbrev pub max_page_size : ℕ
max_page_size = 200

unfoldable pub list_audit_events_for_trace : ℕ → ℕ → M (List AuditEvent)
list_audit_events_for_trace customer_id trace_id = gets λ db. take max_page_size (
    order_by earlier
      (select (λ v. v.customer_id == customer_id && v.trace_id == trace_id) db.audit_events))

pub record EvidenceEvent : Type 0 where
  pub event : AuditEvent
  pub hash_self_consistent : Bool

pub record EvidencePackage : Type 0 where
  pub customer_id : ℕ
  pub trace_id : ℕ
  pub events : List EvidenceEvent
  pub full_chain_verification : AuditChainVerificationResult

abbrev evidence_events : Env → List AuditEvent → List EvidenceEvent
evidence_events e [] = []
evidence_events e (event ∷ events) =
    record {
      event = event;
      hash_self_consistent = str_eq (recompute_event_hash e event) event.hash;
    }
    ∷ evidence_events e events

unfoldable pub build_evidence_package : ℕ → ℕ → M EvidencePackage
unfolding list_audit_events_for_trace verify_audit_chain
build_evidence_package customer_id trace_id = do
  events ← list_audit_events_for_trace customer_id trace_id
  evidence ← asks (λ e. evidence_events e events)
  full_chain ← verify_audit_chain customer_id
  pure (record {
    customer_id = customer_id;
    trace_id = trace_id;
    events = evidence;
    full_chain_verification = full_chain;
  })
