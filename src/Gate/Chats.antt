-- ===== src/Gate/Chats.antt =====
-- The gate under a turn of a chat: what a model asks for is proposed like any other action.
use doda.Base.{
  ℕ, zero, suc, String, Bool, true, false, ◌&&◌, Option, none, some, List, [], ◌∷◌, inl, inr,
  Bool-cases, Option-cases,
}
use doda.Env.{Env, user_actor}
use doda.Db.{M, Error, Result, ok, err, pure}
use doda.Db.Keeps.{Keeps, Keeps-if, Keeps-pure, Keeps-gets, Keeps-bind, bind_at}
use doda.Domain.Action.{Action, Approval, r0}
use doda.Domain.Ai.{ToolCallRequest, Conversation, Provider}
use doda.Authz.{WorkspaceContext}
use doda.ActionService.Propose.{resolve_replay_approval}
use doda.Chat.{add_message, Draft}
use doda.Chat.Context.{World}
use doda.Chat.Tools.{
  dispatch_read_tool, list_my_open_tasks, submit_if_created, propose_validated,
  propose_write_tool_action, is_read_tool, is_write_tool, write_tool_action_name,
}
use doda.Chat.Turn.{
  Request, Turn, Outcome, drain, start_round, reply_to, finish_with, record_calls, dispatch_reads,
  end_with_proposal, after_calls, tool_round, after_reply, rounds, recover, fall_back_to,
  fall_back_if, run_turn, told, calls_turn, is_transient, nothing_yet, substituted,
}
use doda.Gate.Rows.{Gate}
use doda.Gate.Submission.{Gate-submit}
use doda.Gate.Consumption.{Gate-propose}

module _ (e : Env) where
  pub add_message-Keeps : (c : Conversation) (d : Draft) → Keeps e (Gate e) (add_message c d)
  unfolding add_message
  add_message-Keeps c d = record { at = λ s g. g }

  dispatch_read_tool-Keeps :
      (w : World) (name arguments : String) (workspace_id : ℕ)
      → Keeps e (Gate e) (dispatch_read_tool w name arguments workspace_id)
  unfolding dispatch_read_tool list_my_open_tasks doda.Task.list_tasks_for_workspace
  dispatch_read_tool-Keeps w name arguments workspace_id = record {
    at = λ s g. elim (Bool-cases (is_read_tool name)) [
      | inr other ↦ rw other g
      | inl read ↦ elim (Option-cases (w.list_tasks_arguments arguments)) [
        | inl invalid ↦ rw (read, invalid) g
        | inr (limit, valid) ↦ rw (read, valid) g
      ]
    ];
  }

  replay-Keeps :
      (action : Action) (actor_id : String)
      → Keeps e (Gate e) (resolve_replay_approval action actor_id)
  unfolding resolve_replay_approval
  replay-Keeps action actor_id = Keeps-if _ _ _ (Keeps-pure none) (Keeps-gets _)

  submit_if_created-Keeps :
      (actor_id : String) (proposed : Action × Bool)
      → Keeps e (Gate e) (submit_if_created actor_id proposed)
  unfolding submit_if_created resolve_replay_approval
  submit_if_created-Keeps actor_id (action, true) = Gate-submit e action actor_id
  submit_if_created-Keeps actor_id (action, false) = record {
    at = λ s g.
        let kept = (replay-Keeps action actor_id).at s g in
        bind_at (Gate e) (resolve_replay_approval action actor_id) (λ p. pure (action, p)) e s kept
          (λ a returned. kept);
  }

  propose_validated-Keeps :
      (w : World) (arguments : String) (c : WorkspaceContext) (trace_id : ℕ) (key : String)
      → Keeps e (Gate e) (propose_validated w arguments c trace_id key)
  unfolding propose_validated
  propose_validated-Keeps w arguments c trace_id key = record {
    at = λ s g.
        (Keeps-bind _ (submit_if_created (user_actor e c.user_id))
            (Gate-propose e (record {
              customer_id = c.customer_id;
              workspace_id = c.workspace_id;
              trace_id = trace_id;
              actor_id = user_actor e c.user_id;
              tool_name = write_tool_action_name;
              risk_level = r0;
              payload = w.json_loads arguments;
              idempotency_key = key;
              task_id = none;
            }))
            (submit_if_created-Keeps (user_actor e c.user_id))).at
          s g;
  }

  propose_write_tool_action-Keeps :
      (w : World) (name arguments : String) (c : WorkspaceContext) (trace_id : ℕ) (key : String)
      → Keeps e (Gate e) (propose_write_tool_action w name arguments c trace_id key)
  unfolding propose_write_tool_action
  propose_write_tool_action-Keeps w name arguments c trace_id key = record {
    at = λ s g. elim (Bool-cases (is_write_tool name)) [
      | inr other ↦ rw other g
      | inl write ↦ elim (Bool-cases (w.telegram_arguments arguments)) [
        | inr invalid ↦ rw (write, invalid) g
        | inl valid ↦
            rw (write, valid) ((propose_validated-Keeps w arguments c trace_id key).at s g)
      ]
    ];
  }

  module _ (w : World) (r : Request) where
    record_calls-Keeps :
        (t : Turn) (calls : List ToolCallRequest) → Keeps e (Gate e) (record_calls w r t calls)
    unfolding record_calls
    record_calls-Keeps t [] = Keeps-pure tt
    record_calls-Keeps t (c ∷ cs) =
        Keeps-bind _ _ (add_message-Keeps r.conversation _) (λ m. record_calls-Keeps t cs)

    dispatch_reads-Keeps :
        (calls : List ToolCallRequest) (t : Turn) → Keeps e (Gate e) (dispatch_reads w r t calls)
    unfolding dispatch_reads add_message
    dispatch_reads-Keeps [] t = Keeps-pure t
    dispatch_reads-Keeps (c ∷ cs) t = record {
      at = λ s g.
          (dispatch_reads-Keeps cs _).at _
            ((dispatch_read_tool-Keeps w c.name c.arguments_json r.context.workspace_id).at s g);
    }

    end_with_proposal-Keeps :
        (t : Turn) (c : ToolCallRequest) (proposed : Result (Action × Option Approval))
        → Keeps e (Gate e) (end_with_proposal w r t c proposed)
    unfolding end_with_proposal
    end_with_proposal-Keeps t c (err x) = Keeps-pure _
    end_with_proposal-Keeps t c (ok (action, approval)) =
        Keeps-bind _ _ (add_message-Keeps r.conversation _) (λ m. Keeps-pure _)

    module _ (next : Turn → M Outcome) (onward : (t : Turn) → Keeps e (Gate e) (next t)) where
      after_calls-Keeps :
          (t : Turn) (writes : List ToolCallRequest)
          → Keeps e (Gate e) (after_calls w r next t writes)
      unfolding after_calls
      after_calls-Keeps t [] = Keeps-bind _ _ (dispatch_reads-Keeps _ t) onward
      after_calls-Keeps t (c ∷ cs) = record {
        at = λ s g. (end_with_proposal-Keeps t c _).at _ (
            (propose_write_tool_action-Keeps w c.name c.arguments_json r.context r.trace_id _).at s
              g);
      }

      after_reply-Keeps : (p : Option Error × Turn) → Keeps e (Gate e) (after_reply w r next p)
      unfolding after_reply finish_with tool_round
      after_reply-Keeps (some x, t) = Keeps-pure _
      after_reply-Keeps (none, t) =
          Keeps-if _ _ _ (Keeps-bind _ _ (add_message-Keeps r.conversation _) (λ m. Keeps-pure _)) (
            Keeps-bind _ _ (record_calls-Keeps t t.tool_calls)
              (λ u. after_calls-Keeps (told (calls_turn t) t) _))

    rounds-Keeps : (left index : ℕ) (t : Turn) → Keeps e (Gate e) (rounds w r left index t)
    unfolding rounds finish_with
    rounds-Keeps zero index t =
        Keeps-bind _ _ (add_message-Keeps r.conversation _) (λ m. Keeps-pure _)
    rounds-Keeps (suc left) index t =
        after_reply-Keeps (rounds w r left (suc index)) (rounds-Keeps left (suc index))
          (drain w (reply_to w r (start_round index t)) (start_round index t))

    fall_back_to-Keeps :
        (x : Error) (t : Turn) (provider : Option Provider)
        → Keeps e (Gate e) (fall_back_to w r x t provider)
    unfolding fall_back_to
    fall_back_to-Keeps x t none = Keeps-pure _
    fall_back_to-Keeps x t (some provider) =
        rounds-Keeps w.settings.ai_max_tool_rounds 0 (substituted w r t provider)

    fall_back_if-Keeps :
        (x : Error) (t : Turn) (enabled : Bool) → Keeps e (Gate e) (fall_back_if w r x t enabled)
    unfolding fall_back_if doda.AiSettings.pick_fallback_provider
    fall_back_if-Keeps x t false = Keeps-pure _
    fall_back_if-Keeps x t true = Keeps-bind _ _ (Keeps-gets _) (fall_back_to-Keeps x t)

    recover-Keeps : (o : Outcome) → Keeps e (Gate e) (recover w r o)
    unfolding recover doda.AiSettings.is_fallback_enabled_for_customer
    recover-Keeps (ok m, t) = Keeps-pure _
    recover-Keeps (err x, t) = record {
      at = λ s g. elim (Bool-cases (is_transient w r x && nothing_yet w r t)) [
        | inr raised ↦ rw raised g
        | inl early ↦ rw early ((fall_back_if-Keeps x t _).at s g)
      ];
    }

    -- The rounds of a turn keep the gate.
    pub run_turn-Keeps : (t : Turn) → Keeps e (Gate e) (run_turn w r t)
    unfolding run_turn
    run_turn-Keeps t = Keeps-bind _ _ (rounds-Keeps w.settings.ai_max_tool_rounds 0 t) recover-Keeps
