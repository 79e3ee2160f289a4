-- ===== src/Api/Conversations.antt =====
-- backend/src/doda/api/conversations.py. Each handler takes the context that `get_request_context`
-- gives. `post_conversation_message` ends with what the body of its response has seen of the turn.
use doda.Base.{ℕ, String, not, Option, none, some, List, [], ◌∷◌, ◌==◌, if◌then◌else◌}
use doda.Base.Table.{find}
use doda.Db.{M, Error, ok, err, not_found, ◌>>=◌, ◌>>◌, pure, raise, gets}
use doda.Domain.Ai.{Provider, ChatMode, Conversation, Message}
use doda.Authz.Checks.{authorize_use_chat}
use doda.Api.{RequestContext}
use doda.Api.Actions.{actor_of}
use doda.Chat.{
  TextSearch, start_conversation, list_conversations_for_workspace, list_messages,
  search_messages_in_workspace, switch_conversation_provider, switch_conversation_language,
}
use doda.Chat.Context.{World}
use doda.Chat.Turn.{Turn, TurnChunk, Outcome}
use doda.Chat.Stream.{stream_message}

unfoldable pub create_conversation : Option String → RequestContext → M Conversation
create_conversation title ctx = do
  authorize_use_chat ctx.workspace
  owner_id ← actor_of ctx
  start_conversation ctx.workspace.customer_id ctx.workspace.workspace_id owner_id title

unfoldable pub list_workspace_conversations : ℕ → RequestContext → M (List Conversation)
list_workspace_conversations limit ctx = do
  authorize_use_chat ctx.workspace
  list_conversations_for_workspace ctx.workspace.workspace_id limit

unfoldable pub search_workspace_conversations :
    TextSearch → String → ℕ → RequestContext → M (List Message)
search_workspace_conversations t q limit ctx = do
  authorize_use_chat ctx.workspace
  search_messages_in_workspace t ctx.workspace.workspace_id q limit

unfoldable pub own_conversation : ℕ → Option Conversation → M Conversation
own_conversation workspace_id none = raise (not_found "conversation not found")
own_conversation workspace_id (some conversation) =
    if not (conversation.workspace_id == workspace_id)
    then raise (not_found "conversation not found")
    else pure conversation

unfoldable pub get_owned_conversation : RequestContext → ℕ → M Conversation
unfolding own_conversation
get_owned_conversation ctx conversation_id = do
  found ← gets (λ db. find (λ c. c.id == conversation_id) db.conversations)
  own_conversation ctx.workspace.workspace_id found

unfoldable pub list_conversation_messages : ℕ → RequestContext → M (List Message)
list_conversation_messages conversation_id ctx = do
  authorize_use_chat ctx.workspace
  conversation ← get_owned_conversation ctx conversation_id
  list_messages conversation.id 200

unfoldable pub switch_provider : ℕ → Provider → Option String → RequestContext → M Conversation
switch_provider conversation_id provider model ctx = do
  authorize_use_chat ctx.workspace
  conversation ← get_owned_conversation ctx conversation_id
  switch_conversation_provider conversation provider model

unfoldable pub switch_language : ℕ → Option String → RequestContext → M Conversation
switch_language conversation_id language ctx = do
  authorize_use_chat ctx.workspace
  conversation ← get_owned_conversation ctx conversation_id
  switch_conversation_language conversation language

abbrev pub raise_first : Error → Turn → List TurnChunk → M Outcome
raise_first x turn [] = raise x
raise_first x turn (chunk ∷ rest) = pure (err x, turn)

-- `turns.__anext__()` and the loop of the body: an error before the first chunk is raised, so that
-- the request's transaction is rolled back; after it, the body ends with a frame of the error and
-- the transaction commits.
unfoldable pub streamed : Outcome → M Outcome
streamed (ok message, turn) = pure (ok message, turn)
streamed (err x, turn) = raise_first x turn turn.chunks

unfoldable pub post_conversation_message :
    World → ℕ → ℕ → String → ChatMode → RequestContext → M Outcome
unfolding streamed stream_message
post_conversation_message w conversation_id trace_id content mode ctx = do
  authorize_use_chat ctx.workspace
  conversation ← get_owned_conversation ctx conversation_id
  outcome ← stream_message w (record {
    conversation = conversation;
    context = ctx.workspace;
    content = content;
    mode = mode;
    trace_id = trace_id;
  })
  streamed outcome
