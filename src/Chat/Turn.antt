-- ===== src/Chat/Turn.antt =====
-- backend/src/doda/application/conversation_service.py: the rounds of a turn, inside
-- `stream_message`. The turn's local variables are a record that is passed on, so that they are
-- still there where a round raises: what a round ends with is a value.
use Prim.Native.String.{◌++◌ as str_append}
use doda.Base.{
  ℕ, zero, suc, ◌+◌, String, Bool, true, false, ◌&&◌, Option, none, some, List, [], ◌∷◌, ◌++◌, ◌==◌,
  str_eq, if◌then◌else◌,
}
use doda.Base.Table.{length, select}
use doda.Env.{Env}
use doda.Db.{
  M, Error, Result, ok, err, generator_exit, ◌>>=◌, ◌>>◌, pure, asks, attempt, model_timeout,
  model_rate_limited, model_provider,
}
use doda.Domain.Ai.{
  Provider, provider_value, Conversation, Message, assistant, tool, ChatTurn, ToolCallRequest,
  GatewayUsage,
}
use doda.Domain.Action.{Action, Approval}
use doda.ActionService.Transition.{status_value}
use doda.Authz.{WorkspaceContext}
use doda.AiPreference.{ResolvedProviderChoice, default_model_for}
use doda.AiSettings.{is_fallback_enabled_for_customer, pick_fallback_provider}
use doda.Chat.{add_message, Draft}
use doda.Chat.Context.{
  World, Reply, finished, failed, event, GatewayEvent, text_delta, tool_call_ready,
  structured_output_ready, completed, gateway_error_event,
}
use doda.Chat.Tools.{is_read_tool, is_write_tool, dispatch_read_tool, propose_write_tool_action}

pub data TurnChunk : Type 0 where
  text_chunk tool_status : String → TurnChunk
  done : Message → TurnChunk

-- The arguments of `stream_message` that the rounds read, and what was settled before them.
pub record Request : Type 0 where
  pub conversation : Conversation
  pub context : WorkspaceContext
  pub trace_id : ℕ
  pub instructions : String
  pub max_output_tokens : ℕ

-- The variables that the rounds assign, the chunks that were yielded, and how many calls were made.
pub record Turn : Type 0 where
  pub choice : ResolvedProviderChoice
  pub history : List ChatTurn
  pub total_usage : GatewayUsage
  pub round_index : ℕ
  pub accumulated_text : String
  pub tool_calls : List ToolCallRequest
  pub finish_reason : String
  pub chunks : List TurnChunk
  pub calls : ℕ

abbrev pub Outcome : Type 0
Outcome = Result Message × Turn

abbrev add_usage : GatewayUsage → GatewayUsage → GatewayUsage
add_usage a b = record {
  input_tokens = a.input_tokens + b.input_tokens;
  output_tokens = a.output_tokens + b.output_tokens;
  cached_input_tokens = a.cached_input_tokens + b.cached_input_tokens;
}

abbrev yielded : TurnChunk → Turn → Turn
yielded chunk turn = record turn { chunks = turn.chunks ++ chunk ∷ [] }

-- What one event does to the turn's variables. An event of a gateway's error is passed over.
unfoldable pub receive : World → GatewayEvent → Turn → Turn
receive w (text_delta t) turn = record turn {
  accumulated_text = str_append turn.accumulated_text t;
  chunks = turn.chunks ++ text_chunk t ∷ [];
}
receive w (tool_call_ready call) turn = record turn { tool_calls = turn.tool_calls ++ call ∷ [] }
receive w (structured_output_ready value) turn = record turn {
  accumulated_text = w.json_dumps value;
}
receive w (completed usage reason) turn = record turn {
  finish_reason = reason;
  total_usage = add_usage turn.total_usage usage;
}
receive w (gateway_error_event x) turn = turn

abbrev pub yields : GatewayEvent → Bool
yields (text_delta t) = true
yields _ = false

-- `async for event in gateway.stream_chat(…)`. A client that has gone closes the generator at the
-- `yield`.
unfoldable pub drain : World → Reply → Turn → Option Error × Turn
unfolding receive
drain w finished turn = (none, turn)
drain w (failed x) turn = (some x, turn)
drain w (event v rest) turn =
    let turn' = receive w v turn in
    let onward = drain w rest turn' in
    if yields v && w.gone (length turn'.chunks) then (some generator_exit, turn') else onward

abbrev answer_draft : Turn → String → String → Draft
answer_draft turn content reason = record {
  role = assistant;
  content = content;
  tool_call_id = none;
  tool_name = none;
  tool_arguments_json = none;
  provider = some (provider_value turn.choice.provider);
  model = some turn.choice.model;
  finish_reason = some reason;
}

abbrev call_draft : Turn → ToolCallRequest → Draft
call_draft turn call = record {
  role = assistant;
  content = turn.accumulated_text;
  tool_call_id = some call.call_id;
  tool_name = some call.name;
  tool_arguments_json = some call.arguments_json;
  provider = some (provider_value turn.choice.provider);
  model = some turn.choice.model;
  finish_reason = some "tool_calls";
}

abbrev result_draft : ToolCallRequest → String → Draft
result_draft call content = record {
  role = tool;
  content = content;
  tool_call_id = some call.call_id;
  tool_name = none;
  tool_arguments_json = none;
  provider = none;
  model = none;
  finish_reason = none;
}

abbrev pub calls_turn : Turn → ChatTurn
calls_turn turn = record {
  role = assistant;
  content = turn.accumulated_text;
  tool_call_id = none;
  tool_calls = turn.tool_calls;
}

abbrev result_turn : ToolCallRequest → String → ChatTurn
result_turn call content = record {
  role = tool;
  content = content;
  tool_call_id = some call.call_id;
  tool_calls = [];
}

abbrev pub told : ChatTurn → Turn → Turn
told t turn = record turn { history = turn.history ++ t ∷ [] }

-- The variables at the head of a round, and the count of its call.
abbrev pub start_round : ℕ → Turn → Turn
start_round index turn = record turn {
  round_index = index;
  accumulated_text = "";
  tool_calls = [];
  finish_reason = "stop";
  calls = suc turn.calls;
}

module _ (w : World) (r : Request) where
  unfoldable pub reply_to : Turn → Reply
  reply_to turn =
      w.replies turn.calls turn.choice.provider turn.choice.model r.instructions turn.history
        r.max_output_tokens

  -- A final answer: the message, with which the turn ends.
  unfoldable pub finish_with : Turn → String → String → M Outcome
  finish_with turn content reason = do
    message ← add_message r.conversation (answer_draft turn content reason)
    pure (ok message, turn)

  unfoldable pub record_calls : Turn → List ToolCallRequest → M (Unit {0})
  record_calls turn [] = pure tt
  record_calls turn (call ∷ rest) = do
    add_message r.conversation (call_draft turn call)
    record_calls turn rest

  abbrev result_text : Result String → String
  result_text (ok text) = text
  result_text (err x) = str_append "Tool error: " (w.str_error x)

  -- The read calls, one after the other; what one of them raises is its result.
  unfoldable pub dispatch_reads : Turn → List ToolCallRequest → M Turn
  dispatch_reads turn [] = pure turn
  dispatch_reads turn (call ∷ rest) = do
    result ← attempt (dispatch_read_tool w call.name call.arguments_json r.context.workspace_id)
    add_message r.conversation (result_draft call (result_text result))
    dispatch_reads (told (result_turn call (result_text result)) turn) rest

  abbrev pub status_text : ToolCallRequest → Action → String
  status_text call action =
      str_append (str_append (str_append "Men '" call.name) "' vositasini taklif qildim — holati: ")
        (str_append (status_value action.status) ". Bu amal inson tasdig'isiz bajarilmaydi.")

  -- The chunk after a proposal, at which the client may have gone.
  abbrev yield_status : String → Message → Turn → Outcome
  yield_status content message turn =
      let turn' = yielded (tool_status content) turn in
      if w.gone (length turn'.chunks) then (err generator_exit, turn') else (ok message, turn')

  unfoldable pub end_with_proposal :
      Turn → ToolCallRequest → Result (Action × Option Approval) → M Outcome
  end_with_proposal turn call (err x) = pure (err x, turn)
  end_with_proposal turn call (ok (action, approval)) = do
    message ← add_message r.conversation (answer_draft turn (status_text call action) "tool_calls")
    pure (yield_status (status_text call action) message turn)

  abbrev chat_key : Env → ToolCallRequest → String
  chat_key e call =
      str_append (str_append (str_append "chat:" (e.str_uuid r.conversation.id)) ":") call.call_id

  -- The first write call is proposed and the turn ends; without one, the read calls are made and the
  -- next round follows.
  unfoldable pub after_calls : (Turn → M Outcome) → Turn → List ToolCallRequest → M Outcome
  unfolding end_with_proposal dispatch_reads
  after_calls next turn [] = do
    turn' ← dispatch_reads turn (select (λ c. is_read_tool c.name) turn.tool_calls)
    next turn'
  after_calls next turn (call ∷ rest) = do
    key ← asks (λ e. chat_key e call)
    proposed ←
        attempt (propose_write_tool_action w call.name call.arguments_json r.context r.trace_id key)
    end_with_proposal turn call proposed

  unfoldable pub tool_round : (Turn → M Outcome) → Turn → M Outcome
  unfolding record_calls after_calls
  tool_round next turn = do
    record_calls turn turn.tool_calls
    after_calls next (told (calls_turn turn) turn)
        (select (λ c. is_write_tool c.name) turn.tool_calls)

  abbrev pub is_nil : List ToolCallRequest → Bool
  is_nil [] = true
  is_nil (c ∷ cs) = false

  unfoldable pub after_reply : (Turn → M Outcome) → Option Error × Turn → M Outcome
  unfolding finish_with tool_round
  after_reply next (some x, turn) = pure (err x, turn)
  after_reply next (none, turn) =
      if is_nil turn.tool_calls
      then finish_with turn turn.accumulated_text turn.finish_reason
      else tool_round next turn

  -- `for _round_index in range(…)`, with the rounds that are left and the index of the next, and
  -- its `else`.
  unfoldable pub rounds : ℕ → ℕ → Turn → M Outcome
  unfolding after_reply drain reply_to
  rounds zero index turn =
      finish_with turn "Juda ko'p vosita chaqiruvidan so'ng yakuniy javob topilmadi." "length"
  rounds (suc left) index turn =
      after_reply (rounds left (suc index))
        (drain w (reply_to (start_round index turn)) (start_round index turn))

  abbrev pub all_rounds : Turn → M Outcome
  all_rounds turn = rounds w.settings.ai_max_tool_rounds 0 turn

  abbrev pub is_transient : Error → Bool
  is_transient model_timeout = true
  is_transient model_rate_limited = true
  is_transient model_provider = true
  is_transient _ = false

  -- Nothing was produced: the first round, without a text or a call.
  abbrev pub nothing_yet : Turn → Bool
  nothing_yet turn =
      turn.round_index == 0 && str_eq turn.accumulated_text "" && is_nil turn.tool_calls

  abbrev pub substituted : Turn → Provider → Turn
  substituted turn provider = record turn {
    choice = record { provider = provider; model = default_model_for w.settings.models provider };
  }

  unfoldable pub fall_back_to : Error → Turn → Option Provider → M Outcome
  unfolding rounds
  fall_back_to x turn none = pure (err x, turn)
  fall_back_to x turn (some provider) = all_rounds (substituted turn provider)

  unfoldable pub fall_back_if : Error → Turn → Bool → M Outcome
  unfolding fall_back_to
  fall_back_if x turn false = pure (err x, turn)
  fall_back_if x turn true = do
    provider ← pick_fallback_provider w.settings.keys r.context.customer_id turn.choice.provider
    fall_back_to x turn provider

  -- The `except` of the first attempt. After a fallback, the same `except` raises again, so that
  -- the outcome of the second attempt is the turn's.
  unfoldable pub recover : Outcome → M Outcome
  unfolding fall_back_if
  recover (ok message, turn) = pure (ok message, turn)
  recover (err x, turn) =
      if is_transient x && nothing_yet turn
      then (do
        enabled ← is_fallback_enabled_for_customer r.context.customer_id
        fall_back_if x turn enabled)
      else pure (err x, turn)

  -- The loop `while True`, which is left after at most two attempts.
  unfoldable pub run_turn : Turn → M Outcome
  unfolding rounds recover
  run_turn turn = do outcome ← all_rounds turn; recover outcome
