-- ===== src/Chat/Bounded.antt =====
-- The rounds of a turn end, and how many calls of a gateway they make.
use doda.Base.{
  ℕ, zero, suc, ◌+◌, ◌≤◌, ◌≡◌, refl, ◌∙◌, Bool, true, false, ◌&&◌, Option, none, some, List, [],
  ◌∷◌, ◌++◌, inl, inr, arith, ◌==◌, str_eq, Bool-cases,
}
use doda.Base.Table.{length, select}
use doda.Env.{Env}
use doda.Db.{M, State, Error, Result, ok, err, after}
use doda.Domain.Action.{Action, Approval}
use doda.Domain.Ai.{Message, ToolCallRequest, Provider}
use doda.AiSettings.{is_fallback_enabled_for_customer, pick_fallback_provider}
use doda.Chat.{add_message}
use doda.Chat.Context.{
  World, Reply, finished, failed, event, GatewayEvent, text_delta, tool_call_ready,
  structured_output_ready, completed, gateway_error_event,
}
use doda.Chat.Tools.{is_read_tool, is_write_tool}
use doda.Chat.Turn.{
  Request, Turn, Outcome, tool_status, status_text, told, calls_turn, all_rounds, substituted,
  receive, drain, yields, start_round, reply_to, finish_with, record_calls, dispatch_reads,
  end_with_proposal, after_calls, tool_round, after_reply, rounds, recover, fall_back_to,
  fall_back_if, run_turn, is_nil, is_transient, nothing_yet,
}

-- An action returns, and `Q` holds of what it returns.
abbrev pub Returns : {A : Type 0} → (A → Type 0) → Result A × State → Type 0
Returns Q (ok a, s) = Q a
Returns Q (err x, s) = ⊥

returns_bind :
    {A B : Type 0} (Q : A → Type 0) (R : B → Type 0) (out : Result A × State) (f : A → M B)
    (e : Env)
    → Returns Q out
    → ((a : A) → Q a → Returns R (f a e out.1))
    → Returns R (after out f e)
returns_bind Q R (ok a, s) f e h k = k a h
returns_bind Q R (err x, s) f e h k = elim h [ ]

returns_map :
    {A : Type 0} {Q R : A → Type 0} (out : Result A × State)
    → Returns Q out
    → ((a : A) → Q a → Returns R (ok a, out.1))
    → Returns R out
returns_map (ok a, s) h k = k a h
returns_map (err x, s) h k = elim h [ ]

pub returns_value :
    {A : Type 0} (Q : A → Type 0) (out : Result A × State)
    → Returns Q out
    → (a : A) × (s : State) × (out ≡ (ok a, s)) × Q a
returns_value Q (ok a, s) h = (a, s, refl, h)
returns_value Q (err x, s) h = elim h [ ]

-- The variables that a part of a round leaves as they are.
record IsSame (t t' : Turn) : Type 0 where
  pub calls : t'.calls ≡ t.calls
  pub round_index : t'.round_index ≡ t.round_index

receive-IsSame : (w : World) (v : GatewayEvent) (t : Turn) → IsSame t (receive w v t)
unfolding receive
receive-IsSame w (text_delta x) t = record { calls = refl; round_index = refl }
receive-IsSame w (tool_call_ready c) t = record { calls = refl; round_index = refl }
receive-IsSame w (structured_output_ready j) t = record { calls = refl; round_index = refl }
receive-IsSame w (completed u x) t = record { calls = refl; round_index = refl }
receive-IsSame w (gateway_error_event x) t = record { calls = refl; round_index = refl }

drain-IsSame : (w : World) (reply : Reply) (t : Turn) → IsSame t (drain w reply t).1
unfolding drain
drain-IsSame w finished t = record { calls = refl; round_index = refl }
drain-IsSame w (failed x) t = record { calls = refl; round_index = refl }
drain-IsSame w (event v rest) t =
    let t' = receive w v t in
    let one = receive-IsSame w v t in
    let onward = drain-IsSame w rest t' in
    elim (Bool-cases (yields v && w.gone (length t'.chunks))) [
      | inl gone ↦ rw gone one
      | inr there ↦ rw there (record {
        calls = onward.calls ∙ one.calls;
        round_index = onward.round_index ∙ one.round_index;
      })
    ]

-- The outcome of rounds with `left` to go, of which the next has the index: no more calls than
-- rounds; and an error is of this round or a later one, and after one call if it is of this round.
record IsBounded (left index : ℕ) (turn : Turn) (out : Outcome) : Type 0 where
  pub within : out.1.calls ≤ turn.calls + left
  pub reached : (x : Error) → out.0 ≡ err x → index ≤ out.1.round_index
  pub first : (x : Error) → out.0 ≡ err x → out.1.round_index ≡ index → out.1.calls ≡ suc turn.calls

module _ (w : World) (r : Request) (e : Env) where
  record_calls_return :
      (t : Turn) (calls : List ToolCallRequest) (s : State)
      → Returns (λ u. Unit) (record_calls w r t calls e s)
  unfolding record_calls add_message
  record_calls_return t [] s = tt
  record_calls_return t (c ∷ cs) s = record_calls_return t cs _

  dispatch_reads_return :
      (t₀ : Turn) (calls : List ToolCallRequest) (t : Turn) (s : State)
      → IsSame t₀ t
      → Returns (IsSame t₀) (dispatch_reads w r t calls e s)
  unfolding dispatch_reads add_message
  dispatch_reads_return t₀ [] t s same = same
  dispatch_reads_return t₀ (c ∷ cs) t s same =
      dispatch_reads_return t₀ cs _ _
        (record { calls = same.calls; round_index = same.round_index })

  module _ (left index : ℕ) (turn : Turn) (next : Turn → M Outcome)
      (onward : (t : Turn) (s : State)
        → t.calls ≡ suc turn.calls
        → Returns (IsBounded left (suc index) t) (next t e s)) where
    bounded_here :
        (result : Result Message) (t : Turn)
        → t.calls ≡ suc turn.calls
        → t.round_index ≡ index
        → IsBounded (suc left) index turn (result, t)
    bounded_here result t called at = record {
      within = omega (arith, called);
      reached = λ x h. omega (arith, at);
      first = λ x h i. called;
    }

    later :
        (t : Turn) (s : State)
        → t.calls ≡ suc turn.calls
        → Returns (IsBounded (suc left) index turn) (next t e s)
    later t s called = returns_map (next t e s) (onward t s called) (λ out b. record {
      within = omega (arith, called, b.within);
      reached = λ x h. omega (arith, b.reached x h);
      first = λ x h i. elim (absurd (b.reached x h) i) [ ];
    })
      where
        absurd : {i : ℕ} → suc index ≤ i → i ≡ index → ⊥
        absurd late at = omega (arith, late, at)

    end_bounded :
        (t : Turn) (call : ToolCallRequest) (proposed : Result (Action × Option Approval))
        (s : State)
        → t.calls ≡ suc turn.calls
        → t.round_index ≡ index
        → Returns (IsBounded (suc left) index turn) (end_with_proposal w r t call proposed e s)
    unfolding end_with_proposal add_message
    end_bounded t call (err x) s called at = bounded_here (err x) t called at
    end_bounded t call (ok (action, approval)) s called at =
        elim (Bool-cases
          (w.gone (length (t.chunks ++ tool_status (status_text w r call action) ∷ [])))) [
            | inl gone ↦ rw gone (bounded_here _ _ called at)
            | inr there ↦ rw there (bounded_here _ _ called at)
          ]

    after_calls_bounded :
        (t : Turn) (writes : List ToolCallRequest) (s : State)
        → t.calls ≡ suc turn.calls
        → t.round_index ≡ index
        → Returns (IsBounded (suc left) index turn) (after_calls w r next t writes e s)
    unfolding after_calls
    after_calls_bounded t [] s called at =
        returns_bind (IsSame t) (IsBounded (suc left) index turn)
          (dispatch_reads w r t (select (λ c. is_read_tool c.name) t.tool_calls) e s) next e
          (dispatch_reads_return t _ t s (record { calls = refl; round_index = refl }))
          (λ t' same. later t' _ (same.calls ∙ called))
    after_calls_bounded t (c ∷ cs) s called at = end_bounded t c _ _ called at

    after_reply_bounded :
        (p : Option Error × Turn) (s : State)
        → p.1.calls ≡ suc turn.calls
        → p.1.round_index ≡ index
        → Returns (IsBounded (suc left) index turn) (after_reply w r next p e s)
    unfolding after_reply finish_with add_message tool_round
    after_reply_bounded (some x, t) s called at = bounded_here (err x) t called at
    after_reply_bounded (none, t) s called at = elim (Bool-cases (is_nil w r t.tool_calls)) [
      | inl answered ↦ rw answered (bounded_here _ t called at)
      | inr calls ↦ rw calls (
          returns_bind (λ u. Unit) (IsBounded (suc left) index turn)
            (record_calls w r t t.tool_calls e s)
            (λ u.
              after_calls w r next (told (calls_turn t) t)
                (select (λ c. is_write_tool c.name) t.tool_calls))
            e (record_calls_return t t.tool_calls s)
            (λ u h. after_calls_bounded (told (calls_turn t) t) _ _ called at))
    ]

  -- The rounds return, and they are bounded.
  rounds_bounded :
      (left index : ℕ) (turn : Turn) (s : State)
      → Returns (IsBounded left index turn) (rounds w r left index turn e s)
  unfolding rounds finish_with add_message
  rounds_bounded zero index turn s = record {
    within = omega arith;
    reached = λ x h. cc;
    first = λ x h i. cc;
  }
  rounds_bounded (suc left) index turn s =
      let start = start_round index turn in
      let same = drain-IsSame w (reply_to w r start) start in
      after_reply_bounded left index turn (rounds w r left (suc index))
        (λ t s' called. rounds_bounded left (suc index) t s') (drain w (reply_to w r start) start) s
        same.calls same.round_index

  fall_back_to_bounded :
      (turn : Turn) (x : Error) (t : Turn) (provider : Option Provider) (s : State)
      → t.calls ≡ suc turn.calls
      → Returns
          (λ o. o.1.calls ≤ suc (turn.calls + w.settings.ai_max_tool_rounds))
          (fall_back_to w r x t provider e s)
  unfolding fall_back_to
  fall_back_to_bounded turn x t none s called = omega (arith, called)
  fall_back_to_bounded turn x t (some provider) s called =
      returns_map (all_rounds w r (substituted w r t provider) e s)
        (rounds_bounded w.settings.ai_max_tool_rounds 0 (substituted w r t provider) s)
        (λ out b. omega (arith, called, b.within))

  fall_back_if_bounded :
      (turn : Turn) (x : Error) (t : Turn) (enabled : Bool) (s : State)
      → t.calls ≡ suc turn.calls
      → Returns
          (λ o. o.1.calls ≤ suc (turn.calls + w.settings.ai_max_tool_rounds))
          (fall_back_if w r x t enabled e s)
  unfolding fall_back_if pick_fallback_provider
  fall_back_if_bounded turn x t false s called = omega (arith, called)
  fall_back_if_bounded turn x t true s called = fall_back_to_bounded turn x t _ _ called

  at_first : (a b c : Bool) (i : ℕ) → (a && ((i == 0 && b) && c)) ≡ true → i ≡ 0
  at_first a b c i h = ground arith

  -- The second attempt, if there is one, follows a first that made one call.
  recover_bounded :
      (turn : Turn) (out : Outcome) (s : State)
      → IsBounded w.settings.ai_max_tool_rounds 0 turn out
      → Returns
          (λ o. o.1.calls ≤ suc (turn.calls + w.settings.ai_max_tool_rounds))
          (recover w r out e s)
  unfolding recover fall_back_if fall_back_to is_fallback_enabled_for_customer
      pick_fallback_provider
  recover_bounded turn (ok message, t) s b = omega (arith, b.within)
  recover_bounded turn (err x, t) s b =
      elim (Bool-cases (is_transient w r x && nothing_yet w r t)) [
        | inr raised ↦ rw raised (omega (arith, b.within))
        | inl early ↦ rw early (
            fall_back_if_bounded turn x t _ s (
              b.first x refl (
                at_first (is_transient w r x) (str_eq t.accumulated_text "")
                  (is_nil w r t.tool_calls) t.round_index early)))
      ]

  pub run_turn_bounded :
      (turn : Turn) (s : State)
      → Returns
          (λ o. o.1.calls ≤ suc (turn.calls + w.settings.ai_max_tool_rounds))
          (run_turn w r turn e s)
  unfolding run_turn
  run_turn_bounded turn s =
      returns_bind (IsBounded w.settings.ai_max_tool_rounds 0 turn)
        (λ o. o.1.calls ≤ suc (turn.calls + w.settings.ai_max_tool_rounds))
        (rounds w r w.settings.ai_max_tool_rounds 0 turn e s) (recover w r) e
        (rounds_bounded w.settings.ai_max_tool_rounds 0 turn s)
        (λ out b. recover_bounded turn out _ b)
