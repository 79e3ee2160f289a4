-- ===== src/Gate/Posts.antt =====
-- The gate under `post_conversation_message`: what surrounds the rounds of a turn.
use doda.Base.{
  ℕ, String, Option, none, some, List, [], ◌∷◌, ◌==◌, inl, inr, Bool-cases, Option-cases,
}
use doda.Base.Table.{find}
use doda.Env.{Env, user_actor}
use doda.Db.{State, M, ok, err, pure, ◌>>=◌, ◌>>◌}
use doda.Db.Keeps.{Keeps, Keeps-pure, Keeps-bind, Keeps-raise, Keeps-raise_if, bind_at}
use doda.Domain.Usage.{UsageEventStatus}
use doda.Chat.Settlement.{price}
use doda.Domain.Ai.{
  ChatMode, ChatTurn, user, Conversation, UserAiPreference, WorkspaceAiPreference, parse_provider,
}
use doda.Api.{RequestContext}
use doda.Authz.Checks.{authorize_use_chat}
use doda.Api.Conversations.{
  post_conversation_message, streamed, raise_first, get_owned_conversation, own_conversation,
}
use doda.Gate.Calls.{KeepsGate}
use doda.AiPreference.{
  Models, ResolvedProviderChoice, workspace_tier, user_tier, pinned_tier, resolve_provider_choice,
  get_user_ai_preference, get_workspace_ai_preference,
}
use doda.AiSettings.{assert_provider_enabled, is_provider_enabled_for_customer, provider_enabled}
use doda.Budget.Writes.{reserve_budget-Keeps, reconcile_budget-Keeps}
use doda.Chat.Context.{World}
use doda.Chat.Turn.{Turn, TurnChunk, Outcome}
use doda.Chat.Stream.{
  Call, Started, assert_supports_tools, tool_calling, choose, turn_history, estimate, begin, start,
  estimated_cents, too_deep, reconcile_and_record, conclude, stream_message, choose_and_begin,
  usage_of, started_of, status_of, record_usage_event,
}
use doda.Gate.Rows.{Gate}
use doda.Gate.Chats.{run_turn-Keeps, add_message-Keeps}
use doda.Chat.{add_message, plain_draft, resolve_effective_language}
use doda.Budget.{reconcile_budget}

module _ (e : Env) (settings : Models) (workspace_id : ℕ) where
  workspace_tier-Keeps :
      (pref : Option WorkspaceAiPreference) → Keeps e (Gate e) (workspace_tier settings pref)
  unfolding workspace_tier
  workspace_tier-Keeps (some pref) = Keeps-pure _
  workspace_tier-Keeps none = record {
    at = λ s g. elim (Option-cases (parse_provider settings.ai_default_provider)) [
      | inl unknown ↦ rw unknown g
      | inr (provider, known) ↦ rw known g
    ];
  }

  user_tier-Keeps :
      (pref : Option UserAiPreference) → Keeps e (Gate e) (user_tier settings workspace_id pref)
  unfolding user_tier get_workspace_ai_preference
  user_tier-Keeps (some pref) = Keeps-pure _
  user_tier-Keeps none = record { at = λ s g. (workspace_tier-Keeps _).at s g }

  pinned_tier-Keeps :
      (pinned model : Option String) (customer_id user_id : ℕ)
      → Keeps e (Gate e) (pinned_tier settings pinned model customer_id user_id workspace_id)
  unfolding pinned_tier get_user_ai_preference
  pinned_tier-Keeps (some t) model customer_id user_id = record {
    at = λ s g. elim (Option-cases (parse_provider t)) [
      | inl unknown ↦ rw unknown g
      | inr (provider, known) ↦ rw known g
    ];
  }
  pinned_tier-Keeps none model customer_id user_id = record {
    at = λ s g. (user_tier-Keeps _).at s g;
  }

module _ (e : Env) (w : World) (c : Call)
    (others : (s : State) → Gate e s → Gate e (record s { db = w.meanwhile s.db })) where
  choose-Keeps : Keeps e (Gate e) (choose w c)
  unfolding choose resolve_provider_choice assert_provider_enabled assert_supports_tools
      is_provider_enabled_for_customer
  choose-Keeps = record {
    at = λ s g.
        let kept =
          (pinned_tier-Keeps e w.settings.models c.context.workspace_id
              c.conversation.pinned_provider c.conversation.pinned_model c.context.customer_id
              c.context.user_id).at
            s g in
        bind_at (Gate e)
          (resolve_provider_choice w.settings.models c.conversation c.context.customer_id
            c.context.user_id c.context.workspace_id)
          (λ choice.
            assert_provider_enabled c.context.customer_id choice.provider
            >> (assert_supports_tools choice.provider >> pure choice))
          e s kept (λ choice returned. enabled choice _ kept);
  }
    where
      enabled :
          (choice : ResolvedProviderChoice) (s : State)
          → Gate e s
          → Gate e
              ((assert_provider_enabled c.context.customer_id choice.provider
                  >> (assert_supports_tools choice.provider >> pure choice))
                e s).1
      enabled choice s g =
          elim (Bool-cases (provider_enabled s.db c.context.customer_id choice.provider)) [
            | inr off ↦ rw off g
            | inl on ↦ elim (Bool-cases (tool_calling choice.provider)) [
              | inl able ↦ rw (on, able) g
              | inr unable ↦ rw (on, unable) g
            ]
          ]

  estimate-Keeps :
      (choice : ResolvedProviderChoice) (history : List ChatTurn)
      → Keeps e (Gate e) (estimate w c choice history)
  unfolding estimate
  estimate-Keeps choice history = record {
    at = λ s g. elim (Option-cases (estimated_cents w c choice history)) [
      | inl unknown ↦ rw unknown g
      | inr (cents, known) ↦ elim (Bool-cases (too_deep w c cents)) [
        | inl deep ↦ rw (known, deep) g
        | inr fine ↦ rw (known, fine) g
      ]
    ];
  }

  history-Keeps : Keeps e (Gate e) (turn_history w c)
  unfolding turn_history doda.Chat.list_messages
  history-Keeps = record { at = λ s g. g }

  begin-Keeps :
      (language : Option String) (choice : ResolvedProviderChoice)
      → Keeps e (Gate e) (begin w c language choice)
  unfolding begin
  begin-Keeps language choice = Keeps-bind _ _ history-Keeps (λ history.
      Keeps-bind _ _ (estimate-Keeps choice history) (λ total.
        Keeps-bind _ _
          (reserve_budget-Keeps e (Gate e) w.meanwhile others (λ s g. g) (λ ledgers s g. g)
            w.settings.caps c.context.customer_id total)
          (λ u. Keeps-pure (started_of w c language choice history total))))

  choose_and_begin-Keeps :
      (language : Option String) → Keeps e (Gate e) (choose_and_begin w c language)
  unfolding choose_and_begin
  choose_and_begin-Keeps language =
      Keeps-bind (choose w c) (begin w c language) choose-Keeps (begin-Keeps language)

  language-Keeps :
      Keeps e (Gate e) (
        resolve_effective_language w.detect_language c.conversation c.content
          c.context.workspace_id)
  unfolding resolve_effective_language doda.Workspaces.get_workspace_language
  language-Keeps = record { at = λ s g. g }

  start-Keeps : Keeps e (Gate e) (start w c)
  unfolding start
  start-Keeps = record {
    at = λ s g. elim (Option-cases (w.detect_likely_secret c.content)) [
      | inr (label, secret) ↦ rw secret g
      | inl clean ↦ rw clean (
          (Keeps-bind (add_message c.conversation (plain_draft user c.content))
              (λ m.
                resolve_effective_language w.detect_language c.conversation c.content
                  c.context.workspace_id
                >>= choose_and_begin w c)
              (add_message-Keeps e c.conversation (plain_draft user c.content))
              (λ m. Keeps-bind _ _ language-Keeps choose_and_begin-Keeps)).at
            s g)
    ];
  }

  kept :
      (total actual : ℕ) (s : State)
      → Gate e s
      → Gate e (reconcile_budget w.meanwhile c.context.customer_id total actual e s).1
  kept total actual =
      (reconcile_budget-Keeps e (Gate e) w.meanwhile others (λ s g. g) (λ ledgers s g. g)
        c.context.customer_id total actual).at

  reconcile_and_record-Keeps :
      (total : ℕ) (turn : Turn) (status : UsageEventStatus)
      → Keeps e (Gate e) (reconcile_and_record w c total turn status)
  unfolding reconcile_and_record doda.Chat.Stream.record_usage_event
  reconcile_and_record-Keeps total turn status = record {
    at = λ s g. elim (Option-cases (price w turn)) [
      | inl unknown ↦ rw unknown g
      | inr (actual, known) ↦ rw known (
          bind_at (Gate e) (reconcile_budget w.meanwhile c.context.customer_id total actual)
            (λ u e' s'.
              record_usage_event
                (usage_of w c total turn status actual (user_actor e' c.context.user_id)) e' s')
            e s (kept total actual s g) (λ u returned. kept total actual s g))
    ];
  }

  conclude-Keeps : (total : ℕ) (o : Outcome) → Keeps e (Gate e) (conclude w c total o)
  unfolding conclude
  conclude-Keeps total o = record {
    at = (reconcile_and_record-Keeps total o.1 (status_of w c o.0)).at;
  }

  -- A turn keeps the gate, on every path.
  pub stream_message-Keeps : Keeps e (Gate e) (stream_message w c)
  unfolding stream_message
  stream_message-Keeps = Keeps-bind _ _ start-Keeps (λ started.
      Keeps-bind _ _ (run_turn-Keeps e w started.request started.turn)
        (conclude-Keeps started.total_estimate_cents))

module _ (e : Env) (ctx : RequestContext) where
  streamed-Keeps : (o : Outcome) → Keeps e (Gate e) (streamed o)
  unfolding streamed
  streamed-Keeps (ok m, t) = Keeps-pure _
  streamed-Keeps (err x, t) = first t.chunks
    where
      first : (chunks : List TurnChunk) → Keeps e (Gate e) (raise_first x t chunks)
      first [] = Keeps-raise _
      first (chunk ∷ rest) = Keeps-pure _

  authorize-Keeps : Keeps e (Gate e) (authorize_use_chat ctx.workspace)
  unfolding authorize_use_chat
  authorize-Keeps = Keeps-raise_if _ _

  owned-Keeps : (id : ℕ) → Keeps e (Gate e) (get_owned_conversation ctx id)
  unfolding get_owned_conversation own_conversation
  owned-Keeps id = record {
    at = λ s g. elim (Option-cases (find (λ (c : Conversation). c.id == id) s.db.conversations)) [
      | inl missing ↦ rw missing g
      | inr (c, found) ↦ elim (Bool-cases (c.workspace_id == ctx.workspace.workspace_id)) [
        | inl own ↦ rw (found, own) g
        | inr foreign ↦ rw (found, foreign) g
      ]
    ];
  }

  -- A message to a chat keeps the gate, whatever the model answers.
  pub post-Keeps :
      (w : World) (conversation_id trace_id : ℕ) (content : String) (mode : ChatMode)
      → ((s : State) → Gate e s → Gate e (record s { db = w.meanwhile s.db }))
      → KeepsGate e (post_conversation_message w conversation_id trace_id content mode ctx)
  unfolding post_conversation_message
  post-Keeps w conversation_id trace_id content mode others s g x returned =
      (Keeps-bind (authorize_use_chat ctx.workspace)
          (λ u. get_owned_conversation ctx conversation_id >>= turn) authorize-Keeps
          (λ u.
            Keeps-bind (get_owned_conversation ctx conversation_id) turn
              (owned-Keeps conversation_id)
              (λ c.
                Keeps-bind (stream_message w (call c)) streamed
                  (stream_message-Keeps e w (call c) others) streamed-Keeps))).at
        s g
    where
      call : Conversation → Call
      call c = record {
        conversation = c;
        context = ctx.workspace;
        content = content;
        mode = mode;
        trace_id = trace_id;
      }

      turn : Conversation → M Outcome
      turn c = stream_message w (call c) >>= streamed
