-- ===== src/Api/Approving.antt =====
-- What a request that approves an action has passed.
use doda.Base.{
  ℕ, String, true, false, Option, some, ◌≡◌, sym, ◌∙◌, ◌==◌, inl, inr, Bool-cases, Option-cases,
}
use doda.Env.{Env, user_actor}
use doda.Db.{Db, State, Result, ok, err, settle, transaction}
use doda.Domain.Action.{Action, Approval}
use doda.Domain.Identity.{Session, AuthStrength}
use doda.ActionService.Transition.{action_row}
use doda.ActionService.Consume.{approval_row}
use doda.ActionService.Consume.Checks.{IsGrantable, consume_cases}
use doda.Authz.Approval.{MayApprove, authorize_consume_approval_decides}
use doda.Session.Lifetime.{touched_state}
use doda.Api.{RequestContext, get_request_context}
use doda.Api.Entry.{IsEntered, request_cases}
use doda.Api.Actions.{consume_as, consume_found, consume_action_approval}
use doda.Gate.Calls.{get_workspace_action_cases}

-- What a consumption has passed: the approval is stored, for the customer; its action is stored, in
-- the workspace; the user may approve it, with a strong session; and the approval passes the checks.
pub record IsAllowed (ctx : RequestContext) (approval_id : ℕ) (nonce : String) (e : Env) (s : State)
    : Type 0 where
  pub approval : Approval
  pub action : Action
  pub stored : approval_row approval_id s.db ≡ some approval
  pub of_customer : (approval.customer_id == ctx.workspace.customer_id) ≡ true
  pub names : action_row approval.action_id s.db ≡ some action
  pub of_workspace : (action.workspace_id == ctx.workspace.workspace_id) ≡ true
  pub may : MayApprove ctx.workspace action.actor_id e
  pub strong : ctx.auth_strength ≡ AuthStrength.aal2
  pub grantable : IsGrantable action approval nonce (e.clock s.reads)

module _ (nonce : String) (ctx : RequestContext) (approval_id : ℕ) (e : Env) (s : State)
    (x : Action) where
  as_IsAllowed :
      (approval : Approval) (action : Action)
      → approval_row approval_id s.db ≡ some approval
      → (approval.customer_id == ctx.workspace.customer_id) ≡ true
      → action_row approval.action_id s.db ≡ some action
      → (action.workspace_id == ctx.workspace.workspace_id) ≡ true
      → (consume_as nonce ctx approval action e s).0 ≡ ok x
      → IsAllowed ctx approval_id nonce e s
  unfolding consume_as
  as_IsAllowed approval action stored ours names here returned =
      elim (authorize_consume_approval_decides ctx.workspace action ctx.auth_strength e s) [
        | inl (may, strong, passes) ↦
            elim (consume_cases action approval (user_actor e ctx.workspace.user_id) nonce e s) [
              | inr fits ↦ record {
                approval = approval;
                action = action;
                stored = stored;
                of_customer = ours;
                names = names;
                of_workspace = here;
                may = may;
                strong = strong;
                grantable = fits;
              }
              | inl (y, raised) ↦ let returned' = rw passes at returned in cc
            ]
        | inr (inl (may, weak, raises)) ↦ let returned' = rw raises at returned in cc
        | inr (inr (foreign, no_role, raises)) ↦ let returned' = rw raises at returned in cc
      ]

  found_IsAllowed :
      (approval : Approval)
      → approval_row approval_id s.db ≡ some approval
      → (consume_found nonce ctx (some approval) e s).0 ≡ ok x
      → IsAllowed ctx approval_id nonce e s
  unfolding consume_found
  found_IsAllowed approval stored returned =
      elim (Bool-cases (approval.customer_id == ctx.workspace.customer_id)) [
        | inr foreign ↦ let returned' = rw foreign at returned in cc
        | inl ours ↦ elim (get_workspace_action_cases e ctx approval.action_id s) [
          | inl missing ↦ let returned' = rw (ours, missing) at returned in cc
          | inr (a, names, here, loads) ↦
              as_IsAllowed approval a stored ours names here (rw (ours, loads) at returned)
        ]
      ]

  handler_IsAllowed :
      (consume_action_approval approval_id nonce ctx e s).0 ≡ ok x
      → IsAllowed ctx approval_id nonce e s
  unfolding consume_action_approval consume_found
  handler_IsAllowed returned = elim (Option-cases (approval_row approval_id s.db)) [
    | inl missing ↦ let returned' = rw missing at returned in cc
    | inr (p, stored) ↦ found_IsAllowed p stored (rw stored at returned)
  ]

settled_ok :
    {A : Type 0} (db : Db) (out : Result A × State) (x : A)
    → (settle db out).0 ≡ ok x
    → out.0 ≡ ok x
settled_ok db (ok a, s) x h = h
settled_ok db (err y, s) x h = cc

-- A request to approve that returns has passed everything: its session is live; the workspace is not
-- archived and its user has a role there; the approval and its action are stored, in that customer
-- and that workspace; the user is the action's actor or a workspace admin; the session is of strength
-- AAL2; and the approval is pending, in time, presented with its nonce, and for the action's payload.
pub approving_passes_all :
    (workspace_id : ℕ) (authorization : Option String) (approval_id : ℕ) (nonce : String) (e : Env)
    (s : State) (x : Action)
    → (get_request_context workspace_id authorization
        (consume_action_approval approval_id nonce)
        e
        s).0
      ≡ ok x
    → (ctx : RequestContext) × (session : Session) × IsEntered workspace_id authorization false e s
        ctx session
      × (session.auth_strength ≡ AuthStrength.aal2)
      × IsAllowed ctx approval_id nonce e (touched_state session e s)
unfolding get_request_context transaction
approving_passes_all workspace_id authorization approval_id nonce e s x returned =
    elim (request_cases workspace_id authorization false (consume_action_approval approval_id nonce)
      e s) [
        | inl refused ↦ let r = refused.raised in cc
        | inr (ctx, session, entered, runs) ↦
            let s1 = touched_state session e s in
            let allowed = handler_IsAllowed nonce ctx approval_id e s1 x (
              settled_ok s1.db (consume_action_approval approval_id nonce ctx e s1) x
                (rw runs at returned)) in
            (ctx, session, entered, sym entered.strength ∙ allowed.strong, allowed)
      ]
