-- ===== src/Gate/Rows.antt =====
-- The gate: what the tables promise about an action that runs, and which writes keep the promise.
use doda.Base.{
  ℕ, String, Bool, true, false, ◌&&◌, some, List, [], ◌∷◌, ◌≡◌, refl, ap, sym, ◌∙◌, arith, ◌==◌,
  str_eq, inl, inr, Bool-cases, Option-cases,
}
use doda.Base.Table.{update, insert}
use doda.Base.Table.Any.{any, find-update}
use doda.Base.Table.Laws.{find_holds, find-append_none, find-append_some}
use doda.Env.{Env}
use doda.Db.{State}
use doda.Domain.Action.{Action, ActionStatus, auto_approved, Approval, ApprovalStatus}
use doda.Hashing.{hash_payload}
use doda.ActionService.Transition.{action_row}

-- The action has passed the approval: it is READY, or has been.
abbrev pub past_gate : ActionStatus → Bool
past_gate ActionStatus.ready = true
past_gate ActionStatus.running = true
past_gate ActionStatus.succeeded = true
past_gate ActionStatus.failed = true
past_gate ActionStatus.retrying = true
past_gate ActionStatus.compensating = true
past_gate ActionStatus.compensated = true
past_gate ActionStatus.draft = false
past_gate ActionStatus.validating = false
past_gate ActionStatus.awaiting_approval = false
past_gate ActionStatus.denied = false
past_gate ActionStatus.rejected = false
past_gate ActionStatus.expired = false
past_gate ActionStatus.cancelled = false

abbrev pub is_approved : ApprovalStatus → Bool
is_approved ApprovalStatus.approved = true
is_approved ApprovalStatus.pending = false
is_approved ApprovalStatus.denied = false
is_approved ApprovalStatus.expired = false

-- The approval is granted, and it is for that action and for that payload.
abbrev pub approves : ℕ → String → Approval → Bool
approves id payload_hash p =
    p.action_id == id && str_eq p.payload_hash payload_hash && is_approved p.status

-- What is promised of a row.
pub record IsGated (e : Env) (approvals : List Approval) (a : Action) : Type 0 where
  pub approved :
      past_gate a.status ≡ true
      → auto_approved a.risk_level ≡ false
      → any (approves a.id a.payload_hash) approvals ≡ true
  pub floored : a.tool_name ≡ "telegram.send_message" → auto_approved a.risk_level ≡ false
  pub hashed : a.payload_hash ≡ hash_payload e a.payload

-- What is promised of the tables: every action whose risk wants an approval, and that is past the
-- gate, has a granted approval for its id and its payload.
abbrev pub Gate : Env → State → Type 0
Gate e s = (id : ℕ) (a : Action) → action_row id s.db ≡ some a → IsGated e s.db.approvals a

module _ (e : Env) where
  -- More approvals keep the promise.
  pub Gate-approvals :
      (s : State) (approvals : List Approval)
      → ((id : ℕ) (h : String)
          → any (approves id h) s.db.approvals ≡ true
          → any (approves id h) approvals ≡ true)
      → Gate e s
      → Gate e (record s { db = record s.db { approvals = approvals } })
  Gate-approvals s approvals more g id a found =
      let was = g id a found in
      record {
        approved = λ past risky. more a.id a.payload_hash (was.approved past risky);
        floored = was.floored;
        hashed = was.hashed;
      }

  -- A new row that is not past the gate keeps the promise.
  pub Gate-insert :
      (s : State) (a : Action)
      → IsGated e s.db.approvals a
      → Gate e s
      → Gate e (record s { db = record s.db { actions = insert a s.db.actions } })
  Gate-insert s a new g id x found = elim (Option-cases (action_row id s.db)) [
    | inr (y, old) ↦
        let found' = find-append_some (λ (b : Action). b.id == id) s.db.actions (a ∷ []) y old in
        let same : y ≡ x = ground (arith, found, found') in rw (← same) (g id y old)
    | inl free ↦
        let tail = find-append_none (λ (b : Action). b.id == id) s.db.actions (a ∷ []) free in
        let found' = sym tail ∙ found in
        elim (Bool-cases (a.id == id)) [
          | inl hit ↦ let same : a ≡ x = ground (arith, rw hit at found') in rw (← same) new
          | inr miss ↦ let no_row = rw miss at found' in cc
        ]
  ]

  -- A status written over a row keeps the promise, if it is not past the gate or the row has what
  -- it takes.
  pub Gate-status :
      (s : State) (id : ℕ) (target : ActionStatus)
      → ((a : Action)
          → action_row id s.db ≡ some a
          → past_gate target ≡ true
          → auto_approved a.risk_level ≡ false
          → any (approves a.id a.payload_hash) s.db.approvals ≡ true)
      → Gate e s
      → Gate e (record s {
        db = record s.db {
          actions = update (λ a. a.id == id) (λ a. record a { status = target }) s.db.actions;
        };
      })
  Gate-status s id target entitled g id' x found =
      let moved =
        find-update (λ (a : Action). a.id == id') (λ (a : Action). a.id == id)
          (λ (a : Action). record a { status = target }) s.db.actions (λ x. refl) in
      elim (Option-cases (action_row id' s.db)) [
        | inl missing ↦ let none_there = sym (rw missing at moved) ∙ found in cc
        | inr (y, old) ↦
            let was = g id' y old in
            elim (Bool-cases (y.id == id)) [
              | inr other ↦
                  let same : y ≡ x = ground (arith, rw other at (rw old at moved), found) in
                  rw (← same) was
              | inl hit ↦
                  let same : record y { status = target } ≡ x =
                    ground (arith, rw hit at (rw old at moved), found) in
                  let own : action_row id s.db ≡ some y =
                    ap (λ (i : ℕ). action_row i s.db)
                      (ground
                        (arith, hit, find_holds (λ (a : Action). a.id == id') s.db.actions y old))
                    ∙ old in
                  rw (← same) (record {
                    approved = λ past risky. entitled y own past risky;
                    floored = was.floored;
                    hashed = was.hashed;
                  })
            ]
      ]
