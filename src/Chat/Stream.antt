-- ===== src/Chat/Stream.antt =====
-- backend/src/doda/application/conversation_service.py: `stream_message`, from the message to the
-- settlement of its budget. `record_usage_event` is in ai_budget_service.py.
use Prim.Native.String.{◌++◌ as str_append, len}
use doda.Base.{
  ℕ, ◌+◌, ◌*◌, ◌/◌, max, String, Bool, true, false, not, ◌&&◌, Option, none, some, List, [], ◌∷◌,
  ◌++◌, ltb, str_eq, is_none, if◌then◌else◌,
}
use doda.Base.Table.{insert}
use doda.Env.{user_actor}
use doda.Db.{
  M, Result, ok, err, outbound_content_blocked, deep_cost_ceiling, unknown_model_pricing,
  unsupported_capability, ◌>>=◌, ◌>>◌, pure, raise_if, asks, some_or_raise, modify, utcnow, uuid4,
  attempt,
}
use doda.Domain.Ai.{
  Provider, openai, gemini, claude, ChatMode, fast, standard, deep, Conversation, Message, user,
  ChatTurn, GatewayUsage,
}
use doda.Domain.Usage.{AiUsageEvent, UsageEventStatus, reconciled, refunded}
use doda.Authz.{WorkspaceContext}
use doda.Budget.{reserve_budget, reconcile_budget}
use doda.AiPreference.{ResolvedProviderChoice, resolve_provider_choice}
use doda.AiSettings.{assert_provider_enabled}
use doda.Chat.{
  add_message, plain_draft, list_messages, messages_to_history, resolve_effective_language,
}
use doda.Chat.Context.{World, Settings}
use doda.Chat.Turn.{Request, Turn, done, Outcome, run_turn}

-- The keyword arguments of `record_usage_event` that differ from call to call.
pub record Usage : Type 0 where
  pub customer_id : ℕ
  pub workspace_id : ℕ
  pub conversation_id : ℕ
  pub trace_id : ℕ
  pub actor_id : String
  pub choice : ResolvedProviderChoice
  pub mode : ChatMode
  pub usage : GatewayUsage
  pub estimated_cost_cents : ℕ
  pub actual_cost_cents : ℕ
  pub status : UsageEventStatus

unfoldable pub record_usage_event : Usage → M AiUsageEvent
record_usage_event u = do
  id ← uuid4
  created_at ← utcnow
  let event : AiUsageEvent = record {
    id = id;
    created_at = created_at;
    customer_id = u.customer_id;
    workspace_id = u.workspace_id;
    conversation_id = some u.conversation_id;
    trace_id = u.trace_id;
    actor_id = u.actor_id;
    provider = u.choice.provider;
    mode = u.mode;
    model = u.choice.model;
    input_tokens = u.usage.input_tokens;
    output_tokens = u.usage.output_tokens;
    cached_input_tokens = u.usage.cached_input_tokens;
    estimated_cost_cents = u.estimated_cost_cents;
    actual_cost_cents = some u.actual_cost_cents;
    status = u.status;
  }
  modify (λ db. record db { usage_events = insert event db.usage_events })
  pure event

-- `max(1, -(-char_count // 3))`
abbrev pub estimate_input_tokens_from_chars : ℕ → ℕ
estimate_input_tokens_from_chars char_count = max 1 ((char_count + 2) / 3)

abbrev pub max_output_tokens_by_mode : Settings → ChatMode → ℕ
max_output_tokens_by_mode settings fast = settings.ai_max_output_tokens_fast
max_output_tokens_by_mode settings standard = settings.ai_max_output_tokens_standard
max_output_tokens_by_mode settings deep = settings.ai_max_output_tokens_deep

-- `_LANGUAGE_NAMES_UZ`, whose other keys are a KeyError that no stored language reaches.
abbrev language_name : String → String
language_name language =
    if str_eq language "UZ" then "o'zbek" else if str_eq language "RU" then "rus" else "ingliz"

abbrev pub response_language_instruction : Option String → String
response_language_instruction none = ""
response_language_instruction (some language) =
    str_append (str_append "Har doim " (language_name language)) " tilida javob ber."

-- `capabilities_for(provider).tool_calling`
abbrev pub tool_calling : Provider → Bool
tool_calling openai = true
tool_calling gemini = true
tool_calling claude = true

unfoldable pub assert_supports_tools : Provider → M (Unit {0})
assert_supports_tools provider = raise_if (not (tool_calling provider)) unsupported_capability

abbrev is_deep : ChatMode → Bool
is_deep deep = true
is_deep _ = false

abbrev total_chars : List ChatTurn → ℕ
total_chars [] = 0
total_chars (t ∷ ts) = len t.content + total_chars ts

-- The arguments of `stream_message`.
pub record Call : Type 0 where
  pub conversation : Conversation
  pub context : WorkspaceContext
  pub content : String
  pub mode : ChatMode
  pub trace_id : ℕ

-- What is known once the budget is reserved.
pub record Started : Type 0 where
  pub request : Request
  pub turn : Turn
  pub total_estimate_cents : ℕ

abbrev pub first_turn : ResolvedProviderChoice → List ChatTurn → Turn
first_turn choice history = record {
  choice = choice;
  history = history;
  total_usage = record { input_tokens = 0; output_tokens = 0; cached_input_tokens = 0 };
  round_index = 0;
  accumulated_text = "";
  tool_calls = [];
  finish_reason = "stop";
  chunks = [];
  calls = 0;
}

module _ (w : World) (c : Call) where
  -- The history of the turn, after the message is stored.
  unfoldable pub turn_history : M (List ChatTurn)
  turn_history = do
    messages ← list_messages c.conversation.id 200
    asks (λ e. messages_to_history e w.settings.ai_max_context_chars messages)

  abbrev pub estimated_cents : ResolvedProviderChoice → List ChatTurn → Option ℕ
  estimated_cents choice history =
      w.estimate_cost_cents choice.provider choice.model
        (estimate_input_tokens_from_chars (total_chars history))
        (max_output_tokens_by_mode w.settings c.mode)

  abbrev pub too_deep : ℕ → Bool
  too_deep per_round_cost_cents =
      is_deep c.mode
      && ltb w.settings.ceiling_cents (per_round_cost_cents * w.settings.ai_max_tool_rounds)

  -- The estimate of the whole turn, and DEEP's own ceiling on it.
  unfoldable pub estimate : ResolvedProviderChoice → List ChatTurn → M ℕ
  estimate choice history = do
    per_round_cost_cents ← some_or_raise (estimated_cents choice history) unknown_model_pricing
    raise_if (too_deep per_round_cost_cents) deep_cost_ceiling
    pure (per_round_cost_cents * w.settings.ai_max_tool_rounds)

  -- The choice of the provider, which a customer may have disabled.
  unfoldable pub choose : M ResolvedProviderChoice
  choose = do
    choice ←
        resolve_provider_choice w.settings.models c.conversation c.context.customer_id
          c.context.user_id c.context.workspace_id
    assert_provider_enabled c.context.customer_id choice.provider
    assert_supports_tools choice.provider
    pure choice

  abbrev pub started_of : Option String → ResolvedProviderChoice → List ChatTurn → ℕ → Started
  started_of language choice history total_estimate_cents = record {
    request = record {
      conversation = c.conversation;
      context = c.context;
      trace_id = c.trace_id;
      instructions = response_language_instruction language;
      max_output_tokens = max_output_tokens_by_mode w.settings c.mode;
    };
    turn = first_turn choice history;
    total_estimate_cents = total_estimate_cents;
  }

  -- The estimate, the reservation and the variables of the turn, once the provider is chosen.
  unfoldable pub begin : Option String → ResolvedProviderChoice → M Started
  unfolding turn_history estimate
  begin language choice = do
    history ← turn_history
    total_estimate_cents ← estimate choice history
    reserve_budget w.meanwhile w.settings.caps c.context.customer_id total_estimate_cents
    pure (started_of language choice history total_estimate_cents)

  -- What follows the choice of a language.
  unfoldable pub choose_and_begin : Option String → M Started
  unfolding choose begin
  choose_and_begin language = do choice ← choose; begin language choice

  -- All that precedes the first call of a gateway.
  unfoldable pub start : M Started
  unfolding choose_and_begin
  start = do
    raise_if (not (is_none (w.detect_likely_secret c.content))) outbound_content_blocked
    add_message c.conversation (plain_draft user c.content)
    language ←
        resolve_effective_language w.detect_language c.conversation c.content c.context.workspace_id
    choose_and_begin language

  abbrev pub usage_of : ℕ → Turn → UsageEventStatus → ℕ → String → Usage
  usage_of total_estimate_cents turn status actual_cost_cents actor_id = record {
    customer_id = c.context.customer_id;
    workspace_id = c.context.workspace_id;
    conversation_id = c.conversation.id;
    trace_id = c.trace_id;
    actor_id = actor_id;
    choice = turn.choice;
    mode = c.mode;
    usage = turn.total_usage;
    estimated_cost_cents = total_estimate_cents;
    actual_cost_cents = actual_cost_cents;
    status = status;
  }

  unfoldable pub reconcile_and_record : ℕ → Turn → UsageEventStatus → M AiUsageEvent
  reconcile_and_record total_estimate_cents turn status = do
    actual_cost_cents ←
        some_or_raise
          (w.estimate_cost_cents turn.choice.provider turn.choice.model
            turn.total_usage.input_tokens turn.total_usage.output_tokens)
          unknown_model_pricing
    reconcile_budget w.meanwhile c.context.customer_id total_estimate_cents actual_cost_cents
    actor_id ← asks (λ e. user_actor e c.context.user_id)
    record_usage_event (usage_of total_estimate_cents turn status actual_cost_cents actor_id)

  abbrev pub status_of : Result Message → UsageEventStatus
  status_of (ok message) = reconciled
  status_of (err x) = refunded

  -- The turn's outcome once the budget is settled: an error of the settlement replaces it, and an
  -- answer is yielded as the last chunk.
  abbrev pub concluded : Outcome → Result AiUsageEvent → Outcome
  concluded (r, turn) (err x) = (err x, turn)
  concluded (err x, turn) (ok event) = (err x, turn)
  concluded (ok message, turn) (ok event) =
      (ok message, record turn { chunks = turn.chunks ++ done message ∷ [] })

  unfoldable pub conclude : ℕ → Outcome → M Outcome
  unfolding reconcile_and_record
  conclude total_estimate_cents outcome = do
    settled ← attempt (reconcile_and_record total_estimate_cents outcome.1 (status_of outcome.0))
    pure (concluded outcome settled)

  -- What is raised before the budget is reserved is raised here; after that, it is in the outcome.
  unfoldable pub stream_message : M Outcome
  unfolding start conclude
  stream_message = do
    started ← start
    outcome ← run_turn w started.request started.turn
    conclude started.total_estimate_cents outcome
