-- ===== src/Chat/Settlement.antt =====
-- How a turn whose budget is reserved ends.
use doda.Base.{
  ℕ, suc, ◌+◌, ◌-◌, ◌≤◌, ◌++◌, ◌∷◌, [], ◌≡◌, ◌⊎◌, refl, inl, inr, ap, Option, none, some, List,
  arith, Option-cases,
}
use doda.Base.Table.{insert}
use doda.Env.{Env}
use doda.Db.{Db, State, Result, ok, err}
use doda.Domain.Ai.{ChatTurn, Message}
use doda.Domain.Usage.{AiBudgetLedger, AiUsageEvent, UsageEventStatus, reconciled, refunded}
use doda.AiPreference.{ResolvedProviderChoice}
use doda.Budget.{ledger_of, with_actual, reconcile_budget}
use doda.Budget.Cap.{IsStart, reconcile_budget_settles, reconcile_budget_events}
use doda.Chat.Context.{World}
use doda.Chat.Turn.{Request, Turn, Outcome, run_turn}
use doda.Chat.Bounded.{returns_value, run_turn_bounded}
use doda.Chat.Stream.{
  Call, Started, start, first_turn, stream_message, conclude, reconcile_and_record,
  record_usage_event,
}

-- A turn ends, whatever the gateways answer and whenever the client leaves: its rounds return with
-- an answer or an error, after at most one call of a gateway more than `ai_max_tool_rounds`.
pub turn_calls_bounded :
    (w : World) (r : Request) (choice : ResolvedProviderChoice) (history : List ChatTurn) (e : Env)
    (s : State)
    → (out : Outcome) × (s' : State) × (run_turn w r (first_turn choice history) e s ≡ (ok out, s'))
      × (out.1.calls ≤ suc w.settings.ai_max_tool_rounds)
turn_calls_bounded w r choice history e s =
    let (out, s', runs, within) =
      returns_value (λ o. o.1.calls ≤ suc (0 + w.settings.ai_max_tool_rounds))
        (run_turn w r (first_turn choice history) e s)
        (run_turn_bounded w r e (first_turn choice history) s) in
    (out, s', runs, omega (arith, within))

abbrev pub price : World → Turn → Option ℕ
price w turn =
    w.estimate_cost_cents turn.choice.provider turn.choice.model turn.total_usage.input_tokens
      turn.total_usage.output_tokens

-- How the usage event of a turn says that it ended.
abbrev pub IsEnding : Result Message → UsageEventStatus → Type 0
IsEnding (ok message) status = status ≡ reconciled
IsEnding (err x) status = status ≡ refunded

-- The turn's budget is settled: the month's ledger is released of the whole estimate and charged
-- what the turn cost; one usage event of the call is added behind those that are there, which are
-- those of the state at the settlement, or what another transaction made of them where there was no
-- ledger; and the turn ends as its rounds did.
pub record IsSettled (w : World) (c : Call) (e : Env) (estimated : ℕ) (out : Outcome) (s2 : State)
    (final : Result Outcome × State) : Type 0 where
  pub actual : ℕ
  pub priced : price w out.1 ≡ some actual
  pub ledger : AiBudgetLedger
  pub locked :
      IsStart w.meanwhile c.context.customer_id (e.year_month (e.clock s2.reads)) s2.db ledger
  pub released :
      ledger_of c.context.customer_id (e.year_month (e.clock s2.reads)) final.1.db
      ≡ some (record ledger {
        reserved_cents = ledger.reserved_cents - estimated;
        actual_cents = ledger.actual_cents + actual;
      })
  pub base : Db
  pub base_of :
      (base ≡ s2.db)
      ⊎ ((ledger_of c.context.customer_id (e.year_month (e.clock s2.reads)) s2.db ≡ none)
          × (base ≡ w.meanwhile s2.db))
  pub event : AiUsageEvent
  pub recorded : final.1.db.usage_events ≡ base.usage_events ++ event ∷ []
  pub of_call :
      (event.customer_id ≡ c.context.customer_id)
      × (event.workspace_id ≡ c.context.workspace_id)
      × (event.conversation_id ≡ some c.conversation.id)
      × (event.trace_id ≡ c.trace_id)
      × (event.mode ≡ c.mode)
  pub of_model : (event.provider ≡ out.1.choice.provider) × (event.model ≡ out.1.choice.model)
  pub of_usage :
      (event.input_tokens ≡ out.1.total_usage.input_tokens)
      × (event.output_tokens ≡ out.1.total_usage.output_tokens)
      × (event.cached_input_tokens ≡ out.1.total_usage.cached_input_tokens)
  pub event_status : IsEnding out.0 event.status
  pub event_costs :
      (event.estimated_cost_cents ≡ estimated) × (event.actual_cost_cents ≡ some actual)
  pub outcome : Outcome
  pub ended : final.0 ≡ ok outcome
  pub same : outcome.0 ≡ out.0

module _ (w : World) (c : Call) (e : Env) (s : State) (started : Started) (s1 : State)
    (starts : start w c e s ≡ (ok started, s1)) where
  IsSettled-by :
      (out : Outcome) (s2 s3 : State) (actual : ℕ) (l : AiBudgetLedger)
      → price w out.1 ≡ some actual
      → IsStart w.meanwhile c.context.customer_id (e.year_month (e.clock s2.reads)) s2.db l
      → reconcile_budget w.meanwhile c.context.customer_id started.total_estimate_cents actual e s2
        ≡ (ok tt, s3)
      → ledger_of c.context.customer_id (e.year_month (e.clock s2.reads)) s3.db
        ≡ some (with_actual started.total_estimate_cents actual l)
      → (base : Db)
      → (base ≡ s2.db)
        ⊎ ((ledger_of c.context.customer_id (e.year_month (e.clock s2.reads)) s2.db ≡ none)
            × (base ≡ w.meanwhile s2.db))
      → s3.db.usage_events ≡ base.usage_events
      → IsSettled w c e started.total_estimate_cents out s2
          (conclude w c started.total_estimate_cents out e s2)
  unfolding conclude reconcile_and_record record_usage_event
  IsSettled-by (ok message, turn) s2 s3 actual l known locks runs released base base_of kept =
      rw known (
        rw runs (record {
          actual = actual;
          priced = known;
          ledger = l;
          locked = locks;
          released = released;
          base = base;
          base_of = base_of;
          event = _;
          recorded = ap (insert _) kept;
          of_call = (refl, refl, refl, refl, refl);
          of_model = (refl, refl);
          of_usage = (refl, refl, refl);
          event_status = refl;
          event_costs = (refl, refl);
          outcome = _;
          ended = refl;
          same = refl;
        }))
  IsSettled-by (err x, turn) s2 s3 actual l known locks runs released base base_of kept = rw known (
      rw runs (record {
        actual = actual;
        priced = known;
        ledger = l;
        locked = locks;
        released = released;
        base = base;
        base_of = base_of;
        event = _;
        recorded = ap (insert _) kept;
        of_call = (refl, refl, refl, refl, refl);
        of_model = (refl, refl);
        of_usage = (refl, refl, refl);
        event_status = refl;
        event_costs = (refl, refl);
        outcome = _;
        ended = refl;
        same = refl;
      }))

  concluded_cases :
      (out : Outcome) (s2 : State)
      → ((price w out.1 ≡ none)
          × ((conclude w c started.total_estimate_cents out e s2).1.db ≡ s2.db))
        ⊎ IsSettled w c e started.total_estimate_cents out s2
            (conclude w c started.total_estimate_cents out e s2)
  unfolding conclude reconcile_and_record record_usage_event
  concluded_cases out s2 = elim (Option-cases (price w out.1)) [
    | inl unknown ↦ inl (unknown, rw unknown refl)
    | inr (actual, known) ↦
        let est = started.total_estimate_cents in
        let (l, locks, returned, released) =
          reconcile_budget_settles w.meanwhile w.settings.caps c.context.customer_id est actual e
            s2 in
        let (base, base_of, kept) =
          reconcile_budget_events w.meanwhile w.settings.caps c.context.customer_id est actual e
            s2 in
        let s3 = (reconcile_budget w.meanwhile c.context.customer_id est actual e s2).1 in
        inr (
          IsSettled-by out s2 s3 actual l known locks
            (ap (λ (r : Result (Unit {0})). (r, s3)) returned) released base base_of kept)
  ]

  -- Once the budget is reserved, a turn ends as its rounds did, with an answer or an error, and its
  -- budget is settled once: the whole estimate is released from the month's ledger, which is
  -- charged what the turn cost; and one usage event is added, behind the events that are stored,
  -- or, where the month has no ledger yet, that another transaction stored at that moment, and with
  -- the call's own ids, model, tokens and costs, RECONCILED for an answer and REFUNDED for an
  -- error. Only where the model that was used last has no price is there no settlement.
  pub turn_settles :
      (out : Outcome) × (s2 : State) × (run_turn w started.request started.turn e s1 ≡ (ok out, s2))
      × (((price w out.1 ≡ none) × ((stream_message w c e s).1.db ≡ s2.db))
          ⊎ IsSettled w c e started.total_estimate_cents out s2 (stream_message w c e s))
  unfolding stream_message
  turn_settles =
      let (out, s2, runs, within) =
        returns_value (λ o. o.1.calls ≤ suc (started.turn.calls + w.settings.ai_max_tool_rounds))
          (run_turn w started.request started.turn e s1)
          (run_turn_bounded w started.request e started.turn s1) in
      (out, s2, runs, rw (starts, runs) (concluded_cases out s2))
