-- ===== src/ActionService/Propose/Idempotence.antt =====
-- Proposals and idempotency keys: one action for one key of a workspace.
use doda.Base.{
  ℕ, suc, String, Bool, true, false, none, some, [], ◌∷◌, ◌++◌, ◌≡◌, ◌⊎◌, ◌∙◌, refl, arith, eq_iff,
  inl, inr, Option-cases,
}
use doda.Base.Table.{insert}
use doda.Base.Table.Laws.{find-append_none}
use doda.Json.{text, object, end, field}
use doda.Env.{Env}
use doda.Db.{Db, State, Result, ok, err, kill_switch_engaged}
use doda.Domain.Action.{Action, ActionStatus}
use doda.Domain.Action.Policy.{enforce_minimum_risk_level}
use doda.Hashing.{hash_payload}
use doda.Audit.{Entry}
use doda.Audit.Record.{audited, record_audit_event_lem}
use doda.KillSwitch.{customer_switch_of, workspace_switch_of, engage_workspace_kill_switch}
use doda.KillSwitch.Blocking.{
  IsKilled, assert_not_killed_ok, assert_not_killed_raises, engage_workspace_engages,
}
use doda.ActionService.Propose.{
  Proposal, has_key, action_with_key, add_action, propose_action, risk_value,
}

-- No kill switch covers the workspace.
pub record IsOpen (customer_id workspace_id : ℕ) (db : Db) : Type 0 where
  pub customer_open : customer_switch_of customer_id db ≡ none
  pub workspace_open : workspace_switch_of workspace_id db ≡ none

-- The draft that a proposal would create.
abbrev pub draft_of : Proposal → Env → State → Action
draft_of p e s = record {
  id = e.uuid4 s.ids;
  created_at = e.clock s.reads;
  customer_id = p.customer_id;
  workspace_id = p.workspace_id;
  trace_id = p.trace_id;
  task_id = p.task_id;
  actor_id = p.actor_id;
  tool_name = p.tool_name;
  risk_level = enforce_minimum_risk_level p.tool_name p.risk_level;
  payload = p.payload;
  payload_hash = hash_payload e p.payload;
  idempotency_key = p.idempotency_key;
  status = ActionStatus.draft;
}

abbrev pub counted : State → State
counted s = record s { reads = suc s.reads; ids = suc s.ids }

abbrev pub with_draft : Action → State → State
with_draft a s = record s { db = record s.db { actions = insert a s.db.actions } }

abbrev pub proposed_entry : Env → Action → Entry
proposed_entry e a = record {
  customer_id = a.customer_id;
  workspace_id = some a.workspace_id;
  trace_id = a.trace_id;
  actor_id = a.actor_id;
  event_type = "action.proposed.v1";
  safe_metadata = object (
      field "action_id" (text (e.str_uuid a.id)) (
        field "tool_name" (text a.tool_name)
          (field "risk_level" (text (risk_value a.risk_level)) end)));
}

has_own_key :
    (p : Proposal) (e : Env) (s : State)
    → has_key p.customer_id p.workspace_id p.idempotency_key (draft_of p e s) ≡ true
has_own_key p e s = ground (arith, eq_iff p.idempotency_key p.idempotency_key)

fst_of_ok :
    (x a : Action) (b c : Bool)
    → ◌≡◌ {A = Result (Action × Bool)} (ok (x, b)) (ok (a, c))
    → some x ≡ some a
fst_of_ok x a b c h = ground arith

module _ (p : Proposal) (e : Env) (s : State)
    (open_now : IsOpen p.customer_id p.workspace_id s.db) where
  pub propose_new :
      action_with_key p.customer_id p.workspace_id p.idempotency_key s.db ≡ none
      → propose_action p e s ≡ (
        ok (draft_of p e s, true),
        audited (proposed_entry e (draft_of p e s)) e (with_draft (draft_of p e s) (counted s)),
      )
  unfolding propose_action add_action
  propose_new free =
      rw
        (assert_not_killed_ok p.customer_id p.workspace_id e s open_now.customer_open
          open_now.workspace_open)
        (rw free (rw record_audit_event_lem))

  pub propose_old :
      (a : Action)
      → action_with_key p.customer_id p.workspace_id p.idempotency_key s.db ≡ some a
      → propose_action p e s ≡ (ok (a, false), counted s)
  unfolding propose_action add_action
  propose_old a taken =
      rw
        (assert_not_killed_ok p.customer_id p.workspace_id e s open_now.customer_open
          open_now.workspace_open)
        (rw taken (rw taken))

  -- The action that a proposal of an open workspace returns is in that workspace, has that key, and
  -- is the one that its key now finds.
  pub propose_finds :
      (a : Action) (created : Bool)
      → (propose_action p e s).0 ≡ ok (a, created)
      → action_with_key p.customer_id p.workspace_id p.idempotency_key (propose_action p e s).1.db
        ≡ some a
  propose_finds a created returned =
      elim (Option-cases (action_with_key p.customer_id p.workspace_id p.idempotency_key s.db)) [
        | inl free ↦ rw (propose_new free) (
            find-append_none (has_key p.customer_id p.workspace_id p.idempotency_key) s.db.actions
              (draft_of p e s ∷ []) free
            ∙ rw (has_own_key p e s)
                (fst_of_ok (draft_of p e s) a true created (rw (propose_new free) at returned)))
        | inr (x, taken) ↦
            rw (propose_old x taken)
              (taken ∙ fst_of_ok x a false created (rw (propose_old x taken) at returned))
      ]

  -- A proposal in an open workspace always returns. If no action of the workspace has the key, it
  -- returns the draft of the proposal as new and adds its row; otherwise it returns the action that
  -- has the key as not new, and changes no table.
  pub propose_creates_once :
      let (r, s') = propose_action p e s in
      (((r ≡ ok (draft_of p e s, true))
          × (action_with_key p.customer_id p.workspace_id p.idempotency_key s.db ≡ none)
          × (s'.db.actions ≡ s.db.actions ++ draft_of p e s ∷ []))
        ⊎ ((a : Action) × (r ≡ ok (a, false))
            × (action_with_key p.customer_id p.workspace_id p.idempotency_key s.db ≡ some a)
            × (s'.db ≡ s.db)))
  propose_creates_once =
      elim (Option-cases (action_with_key p.customer_id p.workspace_id p.idempotency_key s.db)) [
        | inl free ↦ inl (rw (propose_new free) (refl, free, refl))
        | inr (x, taken) ↦ inr (x, rw (propose_old x taken), taken, rw (propose_old x taken))
      ]

  propose_keeps_switches :
      ((propose_action p e s).1.db.customer_switches ≡ s.db.customer_switches)
      × ((propose_action p e s).1.db.workspace_switches ≡ s.db.workspace_switches)
  propose_keeps_switches =
      elim (Option-cases (action_with_key p.customer_id p.workspace_id p.idempotency_key s.db)) [
        | inl free ↦ rw (propose_new free) (refl, refl)
        | inr (x, taken) ↦ rw (propose_old x taken) (refl, refl)
      ]

-- Proposing again with the same key in the same workspace, whoever proposes what, returns the
-- action of the first proposal, says that it is not new, and changes no table.
pub replay_returns_first :
    (p q : Proposal) (e : Env) (s : State) (a : Action) (created : Bool)
    → IsOpen p.customer_id p.workspace_id s.db
    → q.customer_id ≡ p.customer_id
    → q.workspace_id ≡ p.workspace_id
    → q.idempotency_key ≡ p.idempotency_key
    → (propose_action p e s).0 ≡ ok (a, created)
    → let s' = (propose_action p e s).1 in
      let (r, s'') = propose_action q e s' in (r ≡ ok (a, false)) × (s''.db ≡ s'.db)
replay_returns_first p q e s a created open_now same_c same_w same_k returned =
    let s' = (propose_action p e s).1 in
    let (kept_c, kept_w) = propose_keeps_switches p e s open_now in
    let still : IsOpen q.customer_id q.workspace_id s'.db = record {
      customer_open = rw (kept_c, same_c) open_now.customer_open;
      workspace_open = rw (kept_w, same_w) open_now.workspace_open;
    } in
    let taken : action_with_key q.customer_id q.workspace_id q.idempotency_key s'.db ≡ some a =
      rw (same_c, same_w, same_k) (propose_finds p e s open_now a created returned) in
    rw (propose_old q e s' still a taken) (refl, refl)

-- Under an engaged kill switch, of the workspace or of its customer, a proposal raises and changes
-- nothing.
pub propose_blocked :
    (p : Proposal) (e : Env) (s : State)
    → IsKilled p.customer_id p.workspace_id s.db
    → (scope : String) × (propose_action p e s ≡ (err (kill_switch_engaged scope), s))
unfolding propose_action
propose_blocked p e s killed =
    let (scope, raises) = assert_not_killed_raises p.customer_id p.workspace_id e s killed in
    (scope, rw raises refl)

-- Once a workspace's kill switch is engaged, every proposal for that workspace raises and changes
-- nothing, whatever other transactions committed during the engagement.
pub engaged_blocks_proposals :
    (meanwhile : Db → Db) (p : Proposal) (c : ℕ) (actor_id reason : String) (e : Env) (s : State)
    → let s' = (engage_workspace_kill_switch meanwhile p.workspace_id c actor_id reason e s).1 in
      (scope : String) × (propose_action p e s' ≡ (err (kill_switch_engaged scope), s'))
engaged_blocks_proposals meanwhile p c actor_id reason e s =
    let (k, returns, engaged) =
      engage_workspace_engages meanwhile c actor_id reason e s p.workspace_id in
    propose_blocked p e
      (engage_workspace_kill_switch meanwhile p.workspace_id c actor_id reason e s).1
      (inr (k, engaged))
