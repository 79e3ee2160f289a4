-- ===== src/Audit/Record.antt =====
-- The effect of `record_audit_event`, in closed form.
use doda.Base.{
  ℕ, suc, String, Option, none, some, List, [], ◌∷◌, ◌≡◌, arith, ◌==◌, inl, inr, Option-cases,
}
use doda.Base.Table.{insert}
use doda.Base.Table.Laws.{find-append_none, find_holds}
use doda.Env.{Env}
use doda.Db.{State, ok}
use doda.Domain.Audit.{AuditEvent, AuditChainTip}
use doda.Audit.{Entry, tip_of, upsert_tip, set_tip, event_payload, record_audit_event}
use doda.Hashing.{hash_payload}

abbrev pub hash_in : Option AuditChainTip → Option String
hash_in none = none
hash_in (some t) = t.tip_hash

-- The hash that the next event of a customer is chained to.
abbrev pub tip_hash : ℕ → List AuditChainTip → Option String
tip_hash customer_id tips = hash_in (tip_of customer_id tips)

-- The event that a call mints.
unfoldable pub minted : Entry → Env → State → AuditEvent
unfolding event_payload hash_payload
minted a e s =
    let prev = tip_hash a.customer_id s.db.audit_chain_tips in
    let occurred_at = e.clock s.reads in
    record {
      id = e.uuid4 s.ids;
      created_at = e.clock (suc s.reads);
      customer_id = a.customer_id;
      workspace_id = a.workspace_id;
      trace_id = a.trace_id;
      actor_id = a.actor_id;
      event_type = a.event_type;
      occurred_at = occurred_at;
      safe_metadata = a.safe_metadata;
      prev_hash = prev;
      hash = hash_payload e (event_payload e a occurred_at prev);
    }

-- The chain tips that a call leaves.
unfoldable pub tips_after : Entry → Env → State → List AuditChainTip
unfolding minted
tips_after a e s =
    set_tip (record { customer_id = a.customer_id; tip_hash = some (minted a e s).hash })
      (upsert_tip a.customer_id s.db.audit_chain_tips)

-- The state that a call leaves. Only the events, their tips and the two counters move.
abbrev pub audited : Entry → Env → State → State
audited a e s = record s {
  db = record s.db {
    audit_events = insert (minted a e s) s.db.audit_events;
    audit_chain_tips = tips_after a e s;
  };
  reads = suc (suc s.reads);
  ids = suc s.ids;
}

pub tip_of-upsert :
    (c : ℕ) (tips : List AuditChainTip)
    → tip_of c (upsert_tip c tips) ≡ some (record { customer_id = c; tip_hash = tip_hash c tips })
tip_of-upsert c tips = elim (Option-cases (tip_of c tips)) [
  | inl missing ↦ ground (
    arith,
    missing,
    find-append_none (λ (t : AuditChainTip). t.customer_id == c) tips
        (record { customer_id = c; tip_hash = none } ∷ []) missing,
  )
  | inr (t, found) ↦
      ground (arith, found, find_holds (λ (t : AuditChainTip). t.customer_id == c) tips t found)
]

-- `record_audit_event` never raises: its assertion holds, and it has this result and this effect.
pub record_audit_event_lem :
    (a : Entry) (e : Env) (s : State)
    → record_audit_event a e s ≡ (ok (minted a e s), audited a e s)
unfolding record_audit_event tips_after
record_audit_event_lem a e s = rw (tip_of-upsert a.customer_id s.db.audit_chain_tips)
