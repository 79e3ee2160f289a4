-- ===== src/Budget.antt =====
-- backend/src/doda/application/ai_budget_service.py: the ledger of a customer's month.
pub mod Cap
pub mod Writes
use doda.Base.{ℕ, ◌+◌, ◌-◌, ◌*◌, String, Bool, ◌&&◌, Option, none, some, List, ltb, ◌==◌, str_eq}
use doda.Base.Table.{find, update, insert}
use doda.Env.{Env}
use doda.Db.{
  Db, M, assertion_error, budget_exceeded, ◌>>=◌, ◌>>◌, pure, raise_if, gets, asks, some_or_raise,
  modify, utcnow,
}
use doda.Domain.Usage.{AiBudgetLedger}

-- `round(settings.ai_budget_*_usd_per_customer_month * CENTS_PER_DOLLAR)`, from the configuration.
pub record Caps : Type 0 where
  pub soft_cap_cents : ℕ
  pub hard_cap_cents : ℕ

unfoldable pub current_year_month : M String
current_year_month = do now ← utcnow; asks (λ e. e.year_month now)

abbrev pub is_ledger : ℕ → String → AiBudgetLedger → Bool
is_ledger customer_id year_month l = l.customer_id == customer_id && str_eq l.year_month year_month

abbrev pub ledger_of : ℕ → String → Db → Option AiBudgetLedger
ledger_of customer_id year_month db = find (is_ledger customer_id year_month) db.ledgers

-- The insertion of a row, once the unique constraint is tested, and the second lookup.
insert_ledger : ℕ → String → Option AiBudgetLedger → M AiBudgetLedger
insert_ledger customer_id year_month (some theirs) = pure theirs
insert_ledger customer_id year_month none = do
  let row : AiBudgetLedger = record {
    customer_id = customer_id;
    year_month = year_month;
    reserved_cents = 0;
    actual_cents = 0;
  }
  modify (λ db. record db { ledgers = insert row db.ledgers })
  pure row

or_create : (Db → Db) → ℕ → String → Option AiBudgetLedger → M AiBudgetLedger
unfolding insert_ledger
or_create meanwhile customer_id year_month (some ledger) = pure ledger
or_create meanwhile customer_id year_month none = do
  modify meanwhile
  theirs ← gets (ledger_of customer_id year_month)
  insert_ledger customer_id year_month theirs

-- `meanwhile` is what other transactions commit between the lookup and the insertion.
unfoldable pub get_or_create_locked_ledger : (Db → Db) → ℕ → String → M AiBudgetLedger
unfolding or_create
get_or_create_locked_ledger meanwhile customer_id year_month = do
  ledger ← gets (ledger_of customer_id year_month)
  or_create meanwhile customer_id year_month ledger

abbrev set_ledger : ℕ → String → (AiBudgetLedger → AiBudgetLedger) → M (Unit {0})
set_ledger customer_id year_month f =
    modify (λ db. record db { ledgers = update (is_ledger customer_id year_month) f db.ledgers })

abbrev pub with_reservation : ℕ → AiBudgetLedger → AiBudgetLedger
with_reservation estimated l = record l { reserved_cents = l.reserved_cents + estimated }

abbrev pub with_actual : ℕ → ℕ → AiBudgetLedger → AiBudgetLedger
with_actual estimated actual l = record l {
  reserved_cents = l.reserved_cents - estimated;
  actual_cents = l.actual_cents + actual;
}

unfoldable pub reserve_budget : (Db → Db) → Caps → ℕ → ℕ → M (Unit {0})
unfolding get_or_create_locked_ledger current_year_month
reserve_budget meanwhile caps customer_id estimated_cost_cents = do
  year_month ← current_year_month
  ledger ← get_or_create_locked_ledger meanwhile customer_id year_month
  raise_if
      (ltb caps.hard_cap_cents (ledger.reserved_cents + ledger.actual_cents + estimated_cost_cents))
      budget_exceeded
  set_ledger customer_id year_month (with_reservation estimated_cost_cents)

unfoldable pub reconcile_budget : (Db → Db) → ℕ → ℕ → ℕ → M (Unit {0})
unfolding get_or_create_locked_ledger current_year_month
reconcile_budget meanwhile customer_id estimated_cost_cents actual_cost_cents = do
  year_month ← current_year_month
  ledger ← get_or_create_locked_ledger meanwhile customer_id year_month
  set_ledger customer_id year_month (with_actual estimated_cost_cents actual_cost_cents)

pub record BudgetStatus : Type 0 where
  pub year_month : String
  pub soft_cap_cents : ℕ
  pub hard_cap_cents : ℕ
  pub spent_cents : ℕ
  pub over_soft_budget : Bool

abbrev pub spent_of : Option AiBudgetLedger → ℕ
spent_of none = 0
spent_of (some l) = l.reserved_cents + l.actual_cents

unfoldable pub get_budget_status : Caps → ℕ → M BudgetStatus
unfolding current_year_month
get_budget_status caps customer_id = do
  year_month ← current_year_month
  ledger ← gets (ledger_of customer_id year_month)
  pure (record {
    year_month = year_month;
    soft_cap_cents = caps.soft_cap_cents;
    hard_cap_cents = caps.hard_cap_cents;
    spent_cents = spent_of ledger;
    over_soft_budget = ltb caps.soft_cap_cents (spent_of ledger);
  })
