-- ===== src/Budget/Cap.antt =====
-- The hard cap of a customer's month, and that a settled turn costs what it cost.
use doda.Base.{
  ℕ, suc, ◌+◌, ◌≤◌, ◌<◌, String, true, none, some, [], ◌∷◌, ◌≡◌, ◌⊎◌, ◌∙◌, refl, arith, ltb, eq_iff,
  inl, inr, Bool-cases, Option-cases,
}
use doda.Base.Table.{insert}
use doda.Base.Table.Laws.{find_holds, find-append_none, find-update_self}
use doda.Env.{Env}
use doda.Db.{Db, State, ok, err, budget_exceeded}
use doda.Domain.Usage.{AiBudgetLedger}
use doda.Budget.{
  Caps, is_ledger, ledger_of, get_or_create_locked_ledger, or_create, insert_ledger,
  with_reservation, with_actual, reserve_budget, reconcile_budget, current_year_month,
}

-- The ledger that a call works on: the month's as it was found, the one that another transaction
-- committed in the meantime, or a new one with nothing in it.
pub data IsStart (meanwhile : Db → Db) (c : ℕ) (month : String) (db : Db) (l : AiBudgetLedger)
    : Type 0 where
  there : ledger_of c month db ≡ some l → IsStart meanwhile c month db l
  theirs :
      ledger_of c month db ≡ none
      → ledger_of c month (meanwhile db) ≡ some l
      → IsStart meanwhile c month db l
  new :
      ledger_of c month db ≡ none
      → ledger_of c month (meanwhile db) ≡ none
      → l.reserved_cents + l.actual_cents ≡ 0
      → IsStart meanwhile c month db l

-- The month's ledger is there after the lookup: as it was, as another transaction left it, or new.
locked_ledger :
    (meanwhile : Db → Db) (c : ℕ) (month : String) (e : Env) (s : State)
    → (l : AiBudgetLedger) × (s' : State) × (get_or_create_locked_ledger meanwhile c month e s
        ≡ (ok l, s'))
      × (ledger_of c month s'.db ≡ some l)
      × IsStart meanwhile c month s.db l
unfolding get_or_create_locked_ledger or_create insert_ledger
locked_ledger meanwhile c month e s = elim (Option-cases (ledger_of c month s.db)) [
  | inr (l, found) ↦ (l, s, rw found refl, found, there found)
  | inl missing ↦
      let entered : State = record s { db = meanwhile s.db } in
      elim (Option-cases (ledger_of c month (meanwhile s.db))) [
        | inr (l, found) ↦ (l, entered, rw (missing, found) refl, found, theirs missing found)
        | inl gone ↦
            let l : AiBudgetLedger = record {
              customer_id = c;
              year_month = month;
              reserved_cents = 0;
              actual_cents = 0;
            } in
            let own : is_ledger c month l ≡ true = ground (arith, eq_iff month month) in
            (
              l,
              record s {
                db = record (meanwhile s.db) { ledgers = insert l (meanwhile s.db).ledgers };
              },
              rw (missing, gone) refl,
              find-append_none (is_ledger c month) (meanwhile s.db).ledgers (l ∷ []) gone
                  ∙ rw own refl,
              new missing gone refl,
            )
      ]
]

module _ (meanwhile : Db → Db) (caps : Caps) (c estimated actual : ℕ) (e : Env) (s : State) where
  -- The month that the clock shows when the call starts.
  abbrev month_now : String
  month_now = e.year_month (e.clock s.reads)

  -- A reservation works on the month's ledger: the one that is stored, or one that another
  -- transaction commits in the meantime, or a new and empty one. It returns, adds its estimate to
  -- the ledger's reserved cents, and the sum is within the hard cap; or it raises, the sum would
  -- exceed the cap, and the ledger is left as it was.
  pub reserve_budget_decides :
      let (r, s') = reserve_budget meanwhile caps c estimated e s in
      (l : AiBudgetLedger) × IsStart meanwhile c month_now s.db l
      × (((r ≡ ok tt)
            × (ledger_of c month_now s'.db ≡ some (with_reservation estimated l))
            × (l.reserved_cents + l.actual_cents + estimated ≤ caps.hard_cap_cents))
          ⊎ ((r ≡ err budget_exceeded)
              × (ledger_of c month_now s'.db ≡ some l)
              × (caps.hard_cap_cents < l.reserved_cents + l.actual_cents + estimated)))
  unfolding reserve_budget current_year_month
  reserve_budget_decides =
      let entered : State = record s { reads = suc s.reads } in
      let (l, s', locks, found, start) = locked_ledger meanwhile c month_now e entered in
      (
        l,
        start,
        elim (Bool-cases
            (ltb caps.hard_cap_cents (l.reserved_cents + l.actual_cents + estimated))) [
              | inl over ↦ inr (rw (locks, over) refl, rw (locks, over) found, ground arith)
              | inr within ↦ inl (
                rw (locks, within) refl,
                rw (locks, within)
                    (find-update_self (is_ledger c month_now) (with_reservation estimated) l
                      s'.db.ledgers (find_holds (is_ledger c month_now) s'.db.ledgers l found)
                      found),
                ground arith,
              )
            ],
      )

  -- Beside the ledgers, a reconciliation changes nothing itself: what another transaction commits
  -- before its insert is all there can be.
  pub reconcile_budget_events :
      (base : Db) × ((base ≡ s.db)
        ⊎ ((ledger_of c month_now s.db ≡ none) × (base ≡ meanwhile s.db)))
      × ((reconcile_budget meanwhile c estimated actual e s).1.db.usage_events ≡ base.usage_events)
  unfolding reconcile_budget get_or_create_locked_ledger or_create insert_ledger current_year_month
  reconcile_budget_events = elim (Option-cases (ledger_of c month_now s.db)) [
    | inr (l, found) ↦ (s.db, inl refl, rw found refl)
    | inl missing ↦ (
      meanwhile s.db,
      inr (missing, refl),
      elim (Option-cases (ledger_of c month_now (meanwhile s.db))) [
        | inr (l, found) ↦ rw (missing, found) refl
        | inl gone ↦ rw (missing, gone) refl
      ],
    )
  ]

  -- Reconciling always returns. It works on the same ledger as a reservation at that time would,
  -- takes the estimate off its reserved cents, down to 0 at most, and adds the actual cost.
  pub reconcile_budget_settles :
      let (r, s') = reconcile_budget meanwhile c estimated actual e s in
      (l : AiBudgetLedger) × IsStart meanwhile c month_now s.db l
      × (r ≡ ok tt)
      × (ledger_of c month_now s'.db ≡ some (with_actual estimated actual l))
  unfolding reconcile_budget current_year_month
  reconcile_budget_settles =
      let entered : State = record s { reads = suc s.reads } in
      let (l, s', locks, found, start) = locked_ledger meanwhile c month_now e entered in
      (
        l,
        start,
        rw locks refl,
        rw locks (
            find-update_self (is_ledger c month_now) (with_actual estimated actual) l s'.db.ledgers
              (find_holds (is_ledger c month_now) s'.db.ledgers l found) found),
      )
