-- ===== src/Authz/Approval.antt =====
-- Who may approve an action.
use doda.Base.{String, true, false, not, ◌&&◌, ◌≡◌, ◌⊎◌, refl, inl, inr, Bool-cases}
use doda.Env.{Env}
use doda.Db.{State, ok, err, authorization_error}
use doda.Domain.Security.{WorkspaceRole, deny, step_up_required, may_approve_another_actors_action}
use doda.Domain.Identity.{AuthStrength}
use doda.Domain.Action.{Action}
use doda.Authz.{WorkspaceContext}
use doda.Authz.Checks.{is_own, authorize_consume_approval}

-- What approving takes: to be the action's actor or a workspace admin.
pub data MayApprove (ctx : WorkspaceContext) (actor_id : String) (e : Env) : Type 0 where
  own : is_own ctx actor_id e ≡ true → MayApprove ctx actor_id e
  admin : ctx.role ≡ WorkspaceRole.workspace_admin → MayApprove ctx actor_id e

may_approve_iff_admin :
    (role : WorkspaceRole)
    → (role ≡ WorkspaceRole.workspace_admin) ⊎ (may_approve_another_actors_action role ≡ false)
may_approve_iff_admin WorkspaceRole.workspace_admin = inl refl
may_approve_iff_admin WorkspaceRole.member = inr refl

strength_cases :
    (strength : AuthStrength) → (strength ≡ AuthStrength.aal2) ⊎ (strength ≡ AuthStrength.aal1)
strength_cases AuthStrength.aal1 = inr refl
strength_cases AuthStrength.aal2 = inl refl

module _ (ctx : WorkspaceContext) (action : Action) (strength : AuthStrength) (e : Env)
    (s : State) where
  entitled_approval :
      MayApprove ctx action.actor_id e
      → ((strength ≡ AuthStrength.aal2)
          × (authorize_consume_approval ctx action strength e s ≡ (ok tt, s)))
        ⊎ ((strength ≡ AuthStrength.aal1)
            × (authorize_consume_approval ctx action strength e s
                ≡ (err (authorization_error step_up_required), s)))
  unfolding authorize_consume_approval
  entitled_approval may =
      let passes : (not (is_own ctx action.actor_id e)
            && not (may_approve_another_actors_action ctx.role))
          ≡ false =
        elim may [
          | own mine ↦ rw mine refl
          | admin h ↦ rw h (elim (Bool-cases (is_own ctx action.actor_id e)) [
            | inl y ↦ rw y refl
            | inr n ↦ rw n refl
          ])
        ] in
      elim (strength_cases strength) [
        | inl strong ↦ inl (strong, rw (passes, strong) refl)
        | inr weak ↦ inr (weak, rw (passes, weak) refl)
      ]

  -- Approving is allowed exactly to the action's actor or a workspace admin, and only at AAL2:
  -- anybody else is denied, and one of them at AAL1 is asked to step up. Nothing is written.
  pub authorize_consume_approval_decides :
      (MayApprove ctx action.actor_id e
        × (strength ≡ AuthStrength.aal2)
        × (authorize_consume_approval ctx action strength e s ≡ (ok tt, s)))
      ⊎ ((MayApprove ctx action.actor_id e
            × (strength ≡ AuthStrength.aal1)
            × (authorize_consume_approval ctx action strength e s
                ≡ (err (authorization_error step_up_required), s)))
          ⊎ ((is_own ctx action.actor_id e ≡ false)
              × (may_approve_another_actors_action ctx.role ≡ false)
              × (authorize_consume_approval ctx action strength e s
                  ≡ (err (authorization_error deny), s))))
  unfolding authorize_consume_approval
  authorize_consume_approval_decides = elim (Bool-cases (is_own ctx action.actor_id e)) [
    | inl mine ↦
        (let may = own mine in
          elim (entitled_approval may) [
            | inl (a, b) ↦ inl (may, a, b)
            | inr (a, b) ↦ inr (inl (may, a, b))
          ])
    | inr foreign ↦ elim (may_approve_iff_admin ctx.role) [
      | inl h ↦
          (let may = admin h in
            elim (entitled_approval may) [
              | inl (a, b) ↦ inl (may, a, b)
              | inr (a, b) ↦ inr (inl (may, a, b))
            ])
      | inr no_role ↦ inr (inr (foreign, no_role, rw (foreign, no_role) refl))
    ]
  ]
