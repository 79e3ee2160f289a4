-- ===== src/Gate/Calls.antt =====
-- The gate under the calls of the HTTP API on actions.
use doda.Base.{
  ℕ, String, Bool, true, false, not, Option, none, some, ◌≡◌, ◌⊎◌, refl, ap, ◌∙◌, arith, ◌==◌, inl,
  inr, Bool-cases, Option-cases,
}
use doda.Base.Table.Laws.{find_holds}
use doda.Env.{Env, user_actor}
use doda.Db.{State, M, ok, err, not_found, pure}
use doda.Db.Keeps.{Keeps, Keeps-if, Keeps-pure, Keeps-gets, bind_at, transaction_at}
use doda.Domain.Action.{Action, ActionStatus, Approval}
use doda.Domain.Security.{may_propose_actions}
use doda.ActionService.Propose.{Proposal, propose_action, resolve_replay_approval}
use doda.ActionService.Transition.{action_row, request_cancellation, complete_compensation}
use doda.ActionService.Transition.Invariants.{
  request_cancellation-Keeps, complete_compensation-Keeps,
}
use doda.ActionService.Consume.{approval_row}
use doda.Authz.Checks.{
  authorize_propose_action, authorize_cancel_action, authorize_complete_compensation,
}
use doda.Authz.Approval.{authorize_consume_approval_decides}
use doda.Session.Lifetime.{touched_state}
use doda.Api.{RequestContext, get_request_context}
use doda.Api.Entry.{request_cases}
use doda.Api.Actions.{
  ProposeRequest, submit_or_replay, propose_as, propose_and_submit_action, own_action,
  get_workspace_action, consume_as, consume_found, consume_action_approval, cancel_action,
  complete_action_compensation,
}
use doda.Gate.Rows.{Gate}
use doda.Gate.Transitions.{Gate-transition}
use doda.Gate.Submission.{Gate-submit}
use doda.Gate.Consumption.{Gate-propose, Gate-consume}

-- A handler that returns keeps the gate.
abbrev pub KeepsGate : {A : Type 0} → Env → M A → Type 0
KeepsGate {A} e m = (s : State) → Gate e s → (x : A) → (m e s).0 ≡ ok x → Gate e (m e s).1

module _ (e : Env) where
  -- The lookup of an action reads, and returns the row that the id finds, of the workspace.
  pub get_workspace_action_cases :
      (ctx : RequestContext) (id : ℕ) (s : State)
      → (get_workspace_action ctx id e s ≡ (err (not_found "action not found"), s))
        ⊎ ((a : Action) × (action_row id s.db ≡ some a)
            × ((a.workspace_id == ctx.workspace.workspace_id) ≡ true)
            × (get_workspace_action ctx id e s ≡ (ok a, s)))
  unfolding get_workspace_action own_action
  get_workspace_action_cases ctx id s = elim (Option-cases (action_row id s.db)) [
    | inl missing ↦ inl (rw missing refl)
    | inr (a, found) ↦ elim (Bool-cases (a.workspace_id == ctx.workspace.workspace_id)) [
      | inr elsewhere ↦ inl (rw (found, elsewhere) refl)
      | inl own ↦ inr (a, found, own, rw (found, own) refl)
    ]
  ]

  replay-Keeps :
      (action : Action) (actor_id : String)
      → Keeps e (Gate e) (resolve_replay_approval action actor_id)
  unfolding resolve_replay_approval
  replay-Keeps action actor_id = Keeps-if _ _ _ (Keeps-pure none) (Keeps-gets _)

  submit-Keeps :
      (actor_id : String) (proposed : Action × Bool)
      → Keeps e (Gate e) (submit_or_replay actor_id proposed)
  unfolding submit_or_replay
  submit-Keeps actor_id (action, true) = Gate-submit e action actor_id
  submit-Keeps actor_id (action, false) = record {
    at = λ s g.
        let kept = (replay-Keeps action actor_id).at s g in
        bind_at (Gate e) (resolve_replay_approval action actor_id) (λ p. pure (action, p)) e s kept
          (λ a returned. kept);
  }

  propose-Keeps :
      (body : ProposeRequest) (ctx : RequestContext) (actor_id : String)
      → Keeps e (Gate e) (propose_as body ctx actor_id)
  unfolding propose_as
  propose-Keeps body ctx actor_id =
      let p : Proposal = record {
        customer_id = ctx.workspace.customer_id;
        workspace_id = ctx.workspace.workspace_id;
        trace_id = body.trace_id;
        actor_id = actor_id;
        tool_name = body.tool_name;
        risk_level = body.risk_level;
        payload = body.payload;
        idempotency_key = body.idempotency_key;
        task_id = body.task_id;
      } in
      record {
        at = λ s g.
            let kept = (Gate-propose e p).at s g in
            bind_at (Gate e) (propose_action p) (submit_or_replay actor_id) e s kept
              (λ a returned. (submit-Keeps actor_id a).at _ kept);
      }

  pub propose_and_submit-Keeps :
      (body : ProposeRequest) (ctx : RequestContext)
      → KeepsGate e (propose_and_submit_action body ctx)
  unfolding propose_and_submit_action authorize_propose_action
  propose_and_submit-Keeps body ctx s g x returned =
      elim (Bool-cases (not (may_propose_actions ctx.workspace.role))) [
        | inl denied ↦ rw denied g
        | inr may ↦ rw may ((propose-Keeps body ctx (user_actor e ctx.workspace.user_id)).at s g)
      ]

  consume_as-Keeps :
      (nonce : String) (ctx : RequestContext) (approval : Approval) (action : Action) (s : State)
      → Gate e s
      → approval_row approval.id s.db ≡ some approval
      → action_row approval.action_id s.db ≡ some action
      → (x : Action) → (consume_as nonce ctx approval action e s).0 ≡ ok x
      → Gate e (consume_as nonce ctx approval action e s).1
  unfolding consume_as
  consume_as-Keeps nonce ctx approval action s g own_approval own_action x returned =
      elim (authorize_consume_approval_decides ctx.workspace action ctx.auth_strength e s) [
        | inl (may, strong, passes) ↦ rw passes (
            Gate-consume e action approval (user_actor e ctx.workspace.user_id) nonce s own_approval
              own_action g x (rw passes at returned))
        | inr (inl (may, weak, raises)) ↦ rw raises g
        | inr (inr (foreign, no_role, raises)) ↦ rw raises g
      ]

  consume_found-Keeps :
      (nonce : String) (ctx : RequestContext) (approval : Approval) (s : State)
      → Gate e s
      → approval_row approval.id s.db ≡ some approval
      → (x : Action) → (consume_found nonce ctx (some approval) e s).0 ≡ ok x
      → Gate e (consume_found nonce ctx (some approval) e s).1
  unfolding consume_found
  consume_found-Keeps nonce ctx approval s g own x returned =
      elim (Bool-cases (not (approval.customer_id == ctx.workspace.customer_id))) [
        | inl foreign ↦ rw foreign g
        | inr ours ↦ elim (get_workspace_action_cases ctx approval.action_id s) [
          | inl missing ↦ rw (ours, missing) g
          | inr (a, found, here, loads) ↦
              rw (ours, loads)
                (consume_as-Keeps nonce ctx approval a s g own found x
                  (rw (ours, loads) at returned))
        ]
      ]

  pub consume-Keeps :
      (approval_id : ℕ) (nonce : String) (ctx : RequestContext)
      → KeepsGate e (consume_action_approval approval_id nonce ctx)
  unfolding consume_action_approval consume_found
  consume-Keeps approval_id nonce ctx s g x returned =
      elim (Option-cases (approval_row approval_id s.db)) [
        | inl missing ↦ rw missing g
        | inr (p, found) ↦
            let named : p.id ≡ approval_id =
              ground (
                arith,
                find_holds (λ (q : Approval). q.id == approval_id) s.db.approvals p found,
              ) in
            let own : approval_row p.id s.db ≡ some p =
              ap (λ (i : ℕ). approval_row i s.db) named ∙ found in
            rw found (consume_found-Keeps nonce ctx p s g own x (rw found at returned))
      ]

  pub cancel-Keeps :
      (action_id : ℕ) (ctx : RequestContext) → KeepsGate e (cancel_action action_id ctx)
  unfolding cancel_action authorize_cancel_action
  cancel-Keeps action_id ctx s g x returned = elim (get_workspace_action_cases ctx action_id s) [
    | inl missing ↦ rw missing g
    | inr (a, found, here, loads) ↦ rw loads (
        bind_at (Gate e) (authorize_cancel_action ctx.workspace a)
          (λ u e' s'. request_cancellation a (user_actor e' ctx.workspace.user_id) e' s') e s g
          (λ u passed.
            (request_cancellation-Keeps e (Gate e) a (user_actor e ctx.workspace.user_id)
                (λ target other.
                  Gate-transition e a target (user_actor e ctx.workspace.user_id) none other)).at
              s g))
  ]

  pub complete-Keeps :
      (action_id : ℕ) (outcome : ActionStatus) (ctx : RequestContext)
      → KeepsGate e (complete_action_compensation action_id outcome ctx)
  unfolding complete_action_compensation authorize_complete_compensation
  complete-Keeps action_id outcome ctx s g x returned =
      elim (get_workspace_action_cases ctx action_id s) [
        | inl missing ↦ rw missing g
        | inr (a, found, here, loads) ↦ rw loads (
            bind_at (Gate e) (authorize_complete_compensation ctx.workspace)
              (λ u e' s'.
                complete_compensation a outcome (user_actor e' ctx.workspace.user_id) e' s')
              e s g
              (λ u passed.
                (complete_compensation-Keeps e (Gate e) a (user_actor e ctx.workspace.user_id)
                    (λ target other.
                      Gate-transition e a target (user_actor e ctx.workspace.user_id) none other)
                    outcome).at
                  s g))
      ]

  -- A request keeps the gate, whether it is refused, rolled back or returns.
  pub request-Gate :
      {A : Type 0} (workspace_id : ℕ) (authorization : Option String)
      (handler : RequestContext → M A)
      → ((ctx : RequestContext) → KeepsGate e (handler ctx))
      → Keeps e (Gate e) (get_request_context workspace_id authorization handler)
  unfolding get_request_context
  request-Gate workspace_id authorization handler keeps = record {
    at = λ s g. elim (request_cases workspace_id authorization false handler e s) [
      | inl refused ↦ elim refused.same [
        | inl same ↦ rw same g
        | inr (session_id, session, parsed, found, seen) ↦ rw seen g
      ]
      | inr (ctx, session, entered, runs) ↦
          let s1 = touched_state session e s in
          rw runs (
            transaction_at (Gate e) (handler ctx) e s1 (λ s'. g)
              (λ x returned. keeps ctx s1 g x returned))
    ];
  }
