-- ===== src/Budget/Writes.antt =====
-- What the operations on the budget keep: whatever a reading of the clock, a write of the ledgers
-- and the other transactions keep.
use doda.Base.{ℕ, suc, ◌+◌, String, List, ltb, inl, inr, Bool-cases, Option-cases}
use doda.Env.{Env}
use doda.Db.{Db, State, budget_exceeded, raise_if, ◌>>◌}
use doda.Db.Keeps.{Keeps, bind_at}
use doda.Domain.Usage.{AiBudgetLedger}
use doda.Budget.{
  Caps, ledger_of, get_or_create_locked_ledger, or_create, insert_ledger, with_reservation,
  with_actual, reserve_budget, reconcile_budget, current_year_month, set_ledger,
}

module _ (e : Env) (P : State → Type 0) (meanwhile : Db → Db)
    (others : (s : State) → P s → P (record s { db = meanwhile s.db }))
    (reads : (s : State) → P s → P (record s { reads = suc s.reads }))
    (writes : (ledgers : List AiBudgetLedger) (s : State)
      → P s
      → P (record s { db = record s.db { ledgers = ledgers } })) where
  ledger-Keeps :
      (c : ℕ) (month : String) → Keeps e P (get_or_create_locked_ledger meanwhile c month)
  unfolding get_or_create_locked_ledger or_create insert_ledger
  ledger-Keeps c month = record {
    at = λ s h. elim (Option-cases (ledger_of c month s.db)) [
      | inr (l, found) ↦ rw found h
      | inl missing ↦ elim (Option-cases (ledger_of c month (meanwhile s.db))) [
        | inr (l, theirs) ↦ rw (missing, theirs) (others s h)
        | inl nobody ↦ rw (missing, nobody) (writes _ _ (others s h))
      ]
    ];
  }

  pub reserve_budget-Keeps :
      (caps : Caps) (c estimated : ℕ) → Keeps e P (reserve_budget meanwhile caps c estimated)
  unfolding reserve_budget current_year_month
  reserve_budget-Keeps caps c estimated = record {
    at = λ s h.
        let month = e.year_month (e.clock s.reads) in
        let kept = (ledger-Keeps c month).at _ (reads s h) in
        bind_at P (get_or_create_locked_ledger meanwhile c month)
          (λ l.
            raise_if (ltb caps.hard_cap_cents (l.reserved_cents + l.actual_cents + estimated))
              budget_exceeded
            >> set_ledger c month (with_reservation estimated))
          e (record s { reads = suc s.reads }) kept
          (λ l returned.
            elim (Bool-cases
              (ltb caps.hard_cap_cents (l.reserved_cents + l.actual_cents + estimated))) [
                | inl over ↦ rw over kept
                | inr within ↦ rw within (writes _ _ kept)
              ]);
  }

  pub reconcile_budget-Keeps :
      (c estimated actual : ℕ) → Keeps e P (reconcile_budget meanwhile c estimated actual)
  unfolding reconcile_budget current_year_month
  reconcile_budget-Keeps c estimated actual = record {
    at = λ s h.
        let month = e.year_month (e.clock s.reads) in
        let kept = (ledger-Keeps c month).at _ (reads s h) in
        bind_at P (get_or_create_locked_ledger meanwhile c month)
          (λ l. set_ledger c month (with_actual estimated actual)) e
          (record s { reads = suc s.reads }) kept (λ l returned. writes _ _ kept);
  }
