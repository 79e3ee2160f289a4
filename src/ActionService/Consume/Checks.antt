-- ===== src/ActionService/Consume/Checks.antt =====
-- The checks of `consume_approval`: when it grants, and that it raises otherwise.
use doda.Base.{
  ℕ, suc, String, true, false, none, ◌≡◌, ◌⊎◌, refl, arith, ltb, ◌==◌, str_eq, eq_iff, ◌≤◌, ◌<◌,
  inl, inr, Bool-cases,
}
use doda.Base.Table.{update}
use doda.Env.{Env}
use doda.Db.{
  M, after, raise, Db, State, Result, ok, err, transaction, settle, Error, approval_not_pending,
  approval_nonce_mismatch, approval_expired, approval_payload_changed,
}
use doda.Domain.Action.{Action, ActionStatus, Approval, ApprovalStatus}
use doda.ActionService.Transition.{apply_transition}
use doda.ActionService.Consume.{is_pending, consume_approval, refuse, grant}

-- The approval is granted: it is pending, the nonce is its own, it has not expired, and it was
-- asked for the payload that the action has.
pub record IsGrantable (action : Action) (approval : Approval) (nonce : String) (now : ℕ)
    : Type 0 where
  pub pending : is_pending approval.status ≡ true
  pub same_nonce : approval.nonce ≡ nonce
  pub in_time : now ≤ approval.expires_at
  pub same_payload : approval.payload_hash ≡ action.payload_hash

pub not_late : (t now : ℕ) → now ≤ t → ltb t now ≡ false
not_late t now h = ground arith

pub is_late : (t now : ℕ) → t < now → ltb t now ≡ true
is_late t now h = ground arith

abbrev pub with_approval_status : ℕ → ApprovalStatus → State → State
with_approval_status id status s = record s {
  db = record s.db {
    approvals = update (λ p. p.id == id) (λ p. record p { status = status }) s.db.approvals;
  };
}

abbrev pub Raises : {A : Type 0} → Result A × State → Type 0
Raises r = (x : Error) × (r.0 ≡ err x)

after-raise :
    {A B : Type 0} (r : Result A × State) (x : Error) (e : Env)
    → Raises (after r (λ _. raise {A = B} x) e)
after-raise (ok a, s) x e = (x, refl)
after-raise (err y, s) x e = (y, refl)

-- A refused approval raises, whether its action could be moved or not.
refuse-Raises :
    (action : Action) (approval : Approval) (approver_id : String) (status : ApprovalStatus)
    (target : ActionStatus) (x : Error) (e : Env) (s : State)
    → Raises (refuse action approval approver_id status target x e s)
unfolding refuse
refuse-Raises action approval approver_id status target x e s =
    after-raise
      (apply_transition action target approver_id none e
        (with_approval_status approval.id status s))
      x e

settle-Raises :
    {A : Type 0} (db : Db) (r : Result A × State)
    → Raises r
    → Raises (settle db r) × ((settle db r).1.db ≡ db)
settle-Raises db (ok a, s) (x, h) = cc
settle-Raises db (err y, s) (x, h) = ((y, refl), refl)

-- A transaction whose block raises raises too, and leaves the database as it was.
pub transaction-Raises :
    {A : Type 0} (m : M A) (e : Env) (s : State)
    → Raises (m e s)
    → Raises (transaction m e s) × ((transaction m e s).1.db ≡ s.db)
unfolding transaction
transaction-Raises m e s h = settle-Raises s.db (m e s) h

module _ (action : Action) (approval : Approval) (approver_id nonce : String) (e : Env)
    (s : State) where
  abbrev pub read : State
  read = record s { reads = suc s.reads }

  pub consume_granted :
      IsGrantable action approval nonce (e.clock s.reads)
      → consume_approval action approval approver_id nonce e s
        ≡ grant action approval approver_id e read
  unfolding consume_approval
  consume_granted g =
      rw (g.pending, (eq_iff approval.nonce nonce).1 g.same_nonce)
        (rw ((eq_iff approval.payload_hash action.payload_hash).1 g.same_payload)
          (rw (not_late approval.expires_at (e.clock s.reads) g.in_time)))

  -- A call raises, or the approval passes all four checks.
  pub consume_cases :
      Raises (consume_approval action approval approver_id nonce e s)
      ⊎ IsGrantable action approval nonce (e.clock s.reads)
  unfolding consume_approval
  consume_cases = elim (Bool-cases (is_pending approval.status)) [
    | inr used ↦ inl (approval_not_pending approval.status, rw used)
    | inl pending ↦ elim (Bool-cases (str_eq approval.nonce nonce)) [
      | inr wrong ↦ inl (approval_nonce_mismatch, rw (pending, wrong))
      | inl right ↦ elim (Bool-cases (ltb approval.expires_at (e.clock s.reads))) [
        | inl late ↦ inl (
            rw (pending, right, late)
              (refuse-Raises action approval approver_id ApprovalStatus.expired ActionStatus.expired
                approval_expired e read))
        | inr in_time ↦ elim (Bool-cases (str_eq approval.payload_hash action.payload_hash)) [
          | inr changed ↦ inl (
              rw (pending, right, in_time, changed)
                (refuse-Raises action approval approver_id ApprovalStatus.denied
                  ActionStatus.rejected approval_payload_changed e read))
          | inl same ↦ inr (record {
            pending = pending;
            same_nonce = (eq_iff approval.nonce nonce).0 right;
            in_time = ground arith;
            same_payload = (eq_iff approval.payload_hash action.payload_hash).0 same;
          })
        ]
      ]
    ]
  ]
