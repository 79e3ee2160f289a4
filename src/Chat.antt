-- ===== src/Chat.antt =====
-- backend/src/doda/application/conversation_service.py: conversations, their messages, and the
-- history that a gateway is given. The turn itself is in `Chat.Turn` and `Chat.Stream`.
pub mod Bounded
pub mod Context
pub mod History
pub mod Settlement
pub mod Stream
pub mod Tools
pub mod Turn
use Prim.Native.String.{◌++◌ as str_append, len}
use doda.Base.{
  ℕ, ◌+◌, String, Bool, true, false, not, ◌&&◌, Option, none, some, List, [], ◌∷◌, ltb, ◌==◌,
  str_eq, if◌then◌else◌, max, ◌/◌, map,
}
use doda.Base.Table.{find, select, update, insert, order_by, take}
use doda.Base.Table.Any.{any}
use doda.Env.{Env}
use doda.Db.{Db, M, Error, ◌>>=◌, ◌>>◌, pure, gets, asks, modify, utcnow, uuid4}
use doda.Domain.Ai.{
  Provider, provider_value, Conversation, Message, MessageRole, user, assistant, tool, ChatTurn,
  ToolCallRequest,
}
use doda.Workspaces.{get_workspace_language}
use doda.AiPreference.{or_default}

-- `MAX_PAGE_SIZE`
abbrev pub max_page_size : ℕ
max_page_size = 200

abbrev capped : ℕ → ℕ
capped limit = if ltb max_page_size limit then max_page_size else limit

unfoldable pub start_conversation : ℕ → ℕ → String → Option String → M Conversation
start_conversation customer_id workspace_id owner_id title = do
  id ← uuid4
  created_at ← utcnow
  let conversation : Conversation = record {
    id = id;
    created_at = created_at;
    customer_id = customer_id;
    workspace_id = workspace_id;
    owner_id = owner_id;
    title = title;
    pinned_provider = none;
    pinned_model = none;
    pinned_language = none;
  }
  modify (λ db. record db { conversations = insert conversation db.conversations })
  pure conversation

abbrev newest_conversation : Conversation → Conversation → Bool
newest_conversation x y = ltb y.created_at x.created_at

unfoldable pub list_conversations_for_workspace : ℕ → ℕ → M (List Conversation)
list_conversations_for_workspace workspace_id limit = gets λ db.
    take (capped limit)
      (order_by newest_conversation (select (λ c. c.workspace_id == workspace_id) db.conversations))

abbrev pub oldest_message : Message → Message → Bool
oldest_message x y = ltb x.created_at y.created_at

abbrev newest_message : Message → Message → Bool
newest_message x y = ltb y.created_at x.created_at

abbrev pub messages_of : ℕ → Db → List Message
messages_of conversation_id db =
    order_by oldest_message (select (λ m. m.conversation_id == conversation_id) db.messages)

unfoldable pub list_messages : ℕ → ℕ → M (List Message)
list_messages conversation_id limit =
    gets (λ db. take (capped limit) (messages_of conversation_id db))

-- What the search takes from Python and from PostgreSQL: `str.strip`, `str.replace`, and whether a
-- text is ILIKE a pattern with the escape character `\`.
pub record TextSearch : Type 0 where
  pub strip : String → String
  pub replace_all : String → String → String → String
  pub ilike : String → String → Bool

abbrev escaped : TextSearch → String → String
escaped t stripped =
    t.replace_all (t.replace_all (t.replace_all stripped "\\" "\\\\") "%" "\\%") "_" "\\_"

unfoldable pub search_messages_in_workspace : TextSearch → ℕ → String → ℕ → M (List Message)
search_messages_in_workspace t workspace_id query limit =
    let stripped = t.strip query in
    let pattern = str_append "%" (str_append (escaped t stripped) "%") in
    if str_eq stripped ""
    then pure []
    else gets (λ db. take (capped limit) (
        order_by newest_message (
          select
            (λ m.
              any (λ c. c.id == m.conversation_id && c.workspace_id == workspace_id)
                db.conversations
              && t.ilike pattern m.content)
            db.messages)))

abbrev change_conversation : Conversation → M Conversation
change_conversation changed = do
  modify (λ db. record db {
    conversations = update (λ c. c.id == changed.id) (λ c. changed) db.conversations;
  })
  pure changed

unfoldable pub switch_conversation_provider :
    Conversation → Provider → Option String → M Conversation
switch_conversation_provider conversation provider model =
    change_conversation (record conversation {
      pinned_provider = some (provider_value provider);
      pinned_model = model;
    })

unfoldable pub switch_conversation_language : Conversation → Option String → M Conversation
switch_conversation_language conversation language =
    change_conversation (record conversation { pinned_language = language })

-- `a or b` on texts that may be missing
abbrev or_else : Option String → Option String → Option String
or_else none other = other
or_else (some t) other = if str_eq t "" then other else some t

unfoldable pub resolve_effective_language :
    (String → Option String) → Conversation → String → ℕ → M (Option String)
resolve_effective_language detect_language conversation content workspace_id = do
  default ← get_workspace_language workspace_id
  pure (or_else conversation.pinned_language (or_else (detect_language content) default))

abbrev pub text_or : Option String → String → String
text_or none other = other
text_or (some t) other = t

-- `len(message.content) + len(message.tool_arguments_json or "")`
abbrev pub cost_of : Message → ℕ
cost_of message = len message.content + len (text_or message.tool_arguments_json "")

-- The loop over the messages, newest first, after at least one is selected.
abbrev pub more_messages : ℕ → ℕ → List Message → List Message
more_messages max_chars total_chars [] = []
more_messages max_chars total_chars (message ∷ older) =
    let rest = more_messages max_chars (total_chars + cost_of message) older in
    if ltb max_chars (total_chars + cost_of message) then [] else message ∷ rest

-- The newest messages up to the number of characters, newest first. The newest is always selected.
abbrev pub selected_messages : ℕ → List Message → List Message
selected_messages max_chars [] = []
selected_messages max_chars (newest ∷ older) =
    newest ∷ more_messages max_chars (cost_of newest) older

abbrev pub reversed_onto : {A : Type 0} → List A → List A → List A
reversed_onto done [] = done
reversed_onto done (x ∷ xs) = reversed_onto (x ∷ done) xs

abbrev pub reversed : {A : Type 0} → List A → List A
reversed xs = reversed_onto [] xs

abbrev pub plain_turn : MessageRole → String → ChatTurn
plain_turn role content = record {
  role = role;
  content = content;
  tool_call_id = none;
  tool_calls = [];
}

-- The turn of an assistant's message, by the tool that it names.
abbrev pub assistant_turn : Env → Message → Option String → ChatTurn
assistant_turn e message none = plain_turn assistant message.content
assistant_turn e message (some name) = record {
  role = assistant;
  content = "";
  tool_call_id = none;
  tool_calls =
      (record {
        call_id = or_default message.tool_call_id (e.str_uuid message.id);
        name = name;
        arguments_json = or_default message.tool_arguments_json "{}";
      })
      ∷ [];
}

abbrev pub turn_by_role : Env → Message → MessageRole → ChatTurn
turn_by_role e message tool = record {
  role = tool;
  content = message.content;
  tool_call_id = message.tool_call_id;
  tool_calls = [];
}
turn_by_role e message assistant = assistant_turn e message message.tool_name
turn_by_role e message user = plain_turn user message.content

abbrev pub messages_to_history : Env → ℕ → List Message → List ChatTurn
messages_to_history e max_chars messages =
    map (λ m. turn_by_role e m m.role) (reversed (selected_messages max_chars (reversed messages)))

-- What the caller of `Message(…)` gives.
pub record Draft : Type 0 where
  pub role : MessageRole
  pub content : String
  pub tool_call_id : Option String
  pub tool_name : Option String
  pub tool_arguments_json : Option String
  pub provider : Option String
  pub model : Option String
  pub finish_reason : Option String

abbrev pub plain_draft : MessageRole → String → Draft
plain_draft role content = record {
  role = role;
  content = content;
  tool_call_id = none;
  tool_name = none;
  tool_arguments_json = none;
  provider = none;
  model = none;
  finish_reason = none;
}

-- `session.add(Message(…))` and the flush, which gives the id and the time.
unfoldable pub add_message : Conversation → Draft → M Message
add_message conversation draft = do
  id ← uuid4
  created_at ← utcnow
  let message : Message = record {
    id = id;
    created_at = created_at;
    customer_id = conversation.customer_id;
    conversation_id = conversation.id;
    role = draft.role;
    content = draft.content;
    tool_call_id = draft.tool_call_id;
    tool_name = draft.tool_name;
    tool_arguments_json = draft.tool_arguments_json;
    provider = draft.provider;
    model = draft.model;
    finish_reason = draft.finish_reason;
  }
  modify (λ db. record db { messages = insert message db.messages })
  pure message
