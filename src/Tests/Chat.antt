-- ===== src/Tests/Chat.antt =====
-- The theorems on chats at a concrete conversation and concrete answers of the gateways.
use doda.Base.{
  ℕ, zero, suc, ◌≤◌, ◌<◌, true, false, none, some, List, [], ◌∷◌, ◌≡◌, ◌≢◌, ◌⊎◌, refl, map,
}
use doda.Db.{State, ok, err, provider_disabled}
use doda.Domain.Ai.{Provider, openai, claude, standard, Conversation, Message, user}
use doda.Json.{null}
use doda.Domain.Security.{WorkspaceRole}
use doda.AiPreference.{
  Models, set_user_ai_preference, clear_user_ai_preference, resolve_provider_choice, user_tier,
  choice_of,
}
use doda.AiPreference.Tiers.{set_then_resolve, clear_then_resolve}
use doda.AiSettings.{
  Keys, pick_fallback_provider, set_provider_enabled_for_customer, assert_provider_enabled,
}
use doda.AiSettings.Fallback.{disabled_is_refused}
use doda.AiSettings.Order.{IsEligible, rank, pick_fallback_is_first}
use doda.Workspaces.{get_workspace_language}
use doda.Budget.{reserve_budget}
use doda.Chat.{add_message, resolve_effective_language, list_messages, turn_by_role, reversed}
use doda.Chat.Context.{World, Reply, finished, event, text_delta, tool_call_ready, completed}
use doda.Chat.History.{IsGreedy, history_keeps_newest}
use doda.Chat.Turn.{Outcome, run_turn}
use doda.Chat.Stream.{
  Call, Started, start, first_turn, turn_history, stream_message, assert_supports_tools,
}
use doda.Chat.Settlement.{IsSettled, price, turn_settles, turn_calls_bounded}
use doda.Tests.Data.{demo, empty, at_start}

abbrev models : Models
models = record {
  ai_default_provider = "OPENAI";
  ai_model_openai = "gpt-5-mini";
  ai_model_gemini = "gemini-3.1-flash-lite";
  ai_model_claude = "claude-sonnet-5";
}

abbrev keys : Keys
keys = record { openai_api_key = some "k"; gemini_api_key = none; claude_api_key = some "k" }

-- The first call reads the tasks; the next answers.
abbrev replies : ℕ → Reply
replies (suc zero) =
    event
      (tool_call_ready
        (record { call_id = "c1"; name = "list_my_open_tasks"; arguments_json = "{}" }))
      (event
        (completed (record { input_tokens = 10; output_tokens = 5; cached_input_tokens = 0 })
          "tool_calls")
        finished)
replies n = event (text_delta "No open tasks.") (
    event
      (completed (record { input_tokens = 20; output_tokens = 5; cached_input_tokens = 0 }) "stop")
      finished)

abbrev world : World
world = record {
  settings = record {
    models = models;
    keys = keys;
    caps = record { soft_cap_cents = 2000; hard_cap_cents = 8000 };
    ai_max_output_tokens_fast = 512;
    ai_max_output_tokens_standard = 1024;
    ai_max_output_tokens_deep = 4096;
    ai_max_tool_rounds = 4;
    ai_max_context_chars = 8000;
    ceiling_cents = 200;
  };
  replies = λ n provider model instructions history tokens. replies n;
  gone = λ n. false;
  detect_language = λ t. none;
  detect_likely_secret = λ t. none;
  estimate_cost_cents = λ provider model input output. some 3;
  list_tasks_arguments = λ t. some 20;
  telegram_arguments = λ t. true;
  json_loads = λ t. null;
  json_dumps = λ j. "{}";
  str_error = λ x. "error";
  meanwhile = λ db. db;
}

abbrev chat : Conversation
chat = record {
  id = 9;
  created_at = 0;
  customer_id = 1;
  workspace_id = 2;
  owner_id = "user:id";
  title = none;
  pinned_provider = none;
  pinned_model = none;
  pinned_language = none;
}

abbrev call : Call
call = record {
  conversation = chat;
  context = record { customer_id = 1; workspace_id = 2; user_id = 3; role = WorkspaceRole.member };
  content = "What is open?";
  mode = standard;
  trace_id = 8;
}

abbrev began : Started
began = record {
  request = record {
    conversation = chat;
    context = call.context;
    trace_id = 8;
    instructions = "";
    max_output_tokens = 1024;
  };
  turn = first_turn (choice_of models none openai) (
      (record { role = user; content = "What is open?"; tool_call_id = none; tool_calls = [] })
      ∷ []);
  total_estimate_cents = 12;
}

abbrev quiet : State
quiet = at_start empty

abbrev after_start : State
after_start = (start world call demo quiet).1

starts : start world call demo quiet ≡ (ok began, after_start)
unfolding start add_message resolve_effective_language get_workspace_language
    resolve_provider_choice assert_provider_enabled assert_supports_tools list_messages
    reserve_budget
starts = refl

turn_settles_example :
    (out : Outcome) × (s2 : State) × (run_turn world began.request began.turn demo after_start
      ≡ (ok out, s2))
    × (((price world out.1 ≡ none) × ((stream_message world call demo quiet).1.db ≡ s2.db))
        ⊎ IsSettled world call demo 12 out s2 (stream_message world call demo quiet))
turn_settles_example = turn_settles world call demo quiet began after_start starts

turn_calls_bounded_example :
    (out : Outcome) × (s' : State) × (run_turn world began.request
        (first_turn (choice_of models none openai) [])
        demo
        quiet
      ≡ (ok out, s'))
    × (out.1.calls ≤ 5)
turn_calls_bounded_example =
    turn_calls_bounded world began.request (choice_of models none openai) [] demo quiet

set_then_resolve_example :
    (resolve_provider_choice models chat 1 3 2 demo
      (set_user_ai_preference (λ db. db) 1 3 claude none demo quiet).1).0
    ≡ ok (choice_of models none claude)
set_then_resolve_example = set_then_resolve models chat 1 3 2 demo quiet refl (λ db. db) claude none

clear_then_resolve_example :
    (resolve_provider_choice models chat 1 3 2 demo (clear_user_ai_preference 1 3 demo quiet).1).0
    ≡ (user_tier models 2 none demo quiet).0
clear_then_resolve_example = clear_then_resolve models chat 1 3 2 demo quiet refl

pick_fallback_is_first_example :
    let (r, s') = pick_fallback_provider keys 1 openai demo quiet in
    (s' ≡ quiet)
    × (((p : Provider) × (r ≡ ok (some p))
          × IsEligible keys 1 openai empty p
          × (¬ ((q : Provider) × (rank q < rank p) × IsEligible keys 1 openai empty q)))
        ⊎ ((r ≡ ok none) × (¬ ((q : Provider) × IsEligible keys 1 openai empty q))))
pick_fallback_is_first_example = pick_fallback_is_first keys 1 openai demo quiet

disabled_is_refused_example :
    let s' = (set_provider_enabled_for_customer (λ db. db) 1 claude false demo quiet).1 in
    ((assert_provider_enabled 1 claude demo s').0 ≡ err (provider_disabled claude))
    × ((pick_fallback_provider keys 1 openai demo s').0 ≢ ok (some claude))
disabled_is_refused_example = disabled_is_refused (λ db. db) keys 1 claude openai demo quiet

abbrev said : ℕ → Message
said id = record {
  id = id;
  created_at = id;
  customer_id = 1;
  conversation_id = 9;
  role = user;
  content = "What is open?";
  tool_call_id = none;
  tool_name = none;
  tool_arguments_json = none;
  provider = none;
  model = none;
  finish_reason = none;
}

-- The conversation holds three messages.
abbrev talking : State
talking = at_start (record empty { messages = said 1 ∷ said 2 ∷ said 3 ∷ [] })

history_keeps_newest_example :
    (others : List Message) × (turn_history world call demo talking
      ≡ (ok (map (λ m. turn_by_role demo m m.role) (reversed (said 3 ∷ others))), talking))
    × IsGreedy 8000 13 (said 2 ∷ said 1 ∷ []) others
history_keeps_newest_example =
    history_keeps_newest world call demo talking (said 1 ∷ said 2 ∷ []) (said 3) refl
