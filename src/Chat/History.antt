-- ===== src/Chat/History.antt =====
-- Which messages a turn's history holds.
use Prim.Native.String.{len}
use doda.Base.{
  ℕ, ◌+◌, ◌≤◌, ◌<◌, ◌≡◌, refl, ap, true, false, List, [], ◌∷◌, ◌++◌, arith, inl, inr, Bool-cases,
  ltb, map,
}
use doda.Base.Table.{take}
use doda.Env.{Env}
use doda.Domain.Ai.{Message}
use doda.Db.{State, ok}
use doda.Chat.Context.{World}
use doda.Chat.Stream.{Call, turn_history}
use doda.Chat.{
  messages_of, list_messages, more_messages, reversed, reversed_onto, turn_by_role, text_or,
}

-- The characters of a message: its text, and the arguments of a tool call.
abbrev pub chars : Message → ℕ
chars m = len m.content + len (text_or m.tool_arguments_json "")

abbrev total_cost : List Message → ℕ
total_cost [] = 0
total_cost (m ∷ ms) = chars m + total_cost ms

abbrev head_cost : List Message → ℕ
head_cost [] = 0
head_cost (m ∷ ms) = chars m

ltb-true : (a b : ℕ) → ltb a b ≡ true → a < b
ltb-true a b h = ground arith

ltb-false : (a b : ℕ) → ltb a b ≡ false → b ≤ a
ltb-false a b h = ground arith

-- A selection takes messages from the front until the next would exceed what is left.
pub record IsGreedy (max_chars total : ℕ) (messages selected : List Message) : Type 0 where
  pub rest : List Message
  pub split : selected ++ rest ≡ messages
  pub bounded : total ≤ max_chars → total + total_cost selected ≤ max_chars
  pub maximal :
      (m : Message) (ms : List Message)
      → rest ≡ m ∷ ms
      → max_chars < total + total_cost selected + chars m

more_messages-IsGreedy :
    (max_chars total : ℕ) (messages : List Message)
    → IsGreedy max_chars total messages (more_messages max_chars total messages)
more_messages-IsGreedy max_chars total [] = record {
  rest = [];
  split = refl;
  bounded = λ h. omega (arith, h);
  maximal = λ m ms h. cc;
}
more_messages-IsGreedy max_chars total (m ∷ ms) =
    let onward = more_messages-IsGreedy max_chars (total + chars m) ms in
    elim (Bool-cases (ltb max_chars (total + chars m))) [
      | inl over ↦ rw over (record {
        rest = m ∷ ms;
        split = refl;
        bounded = λ h. omega (arith, h);
        maximal =
            λ m' ms' h. omega (arith, ltb-true max_chars (total + chars m) over, ap head_cost h);
      })
      | inr fits ↦ rw fits (record {
        rest = onward.rest;
        split = ap (λ (xs : List Message). m ∷ xs) onward.split;
        bounded = λ h. omega (arith, onward.bounded (ltb-false max_chars (total + chars m) fits));
        maximal = λ m' ms' h. omega (arith, onward.maximal m' ms' h);
      })
    ]

reversed_onto-append :
    (xs done : List Message) (m : Message)
    → reversed_onto done (xs ++ m ∷ []) ≡ m ∷ reversed_onto done xs
reversed_onto-append [] done m = refl
reversed_onto-append (x ∷ xs) done m = reversed_onto-append xs (x ∷ done) m

-- The history of a turn has a turn for each of the selected messages in the order of time, where
-- the conversation's first 200 messages, which are all that the turn reads, end with `newest`: that
-- one is always selected; the older ones are taken one by one, newest first, as long as the
-- characters of all that are taken fit the limit; and the first that does not fit ends it. Of a
-- conversation of more than 200 messages, `newest` is the 200th, and no later message is selected.
-- Reading the history changes nothing.
pub history_keeps_newest :
    (w : World) (c : Call) (e : Env) (s : State) (older : List Message) (newest : Message)
    → take 200 (messages_of c.conversation.id s.db) ≡ older ++ newest ∷ []
    → (others : List Message) × (turn_history w c e s
        ≡ (ok (map (λ m. turn_by_role e m m.role) (reversed (newest ∷ others))), s))
      × IsGreedy w.settings.ai_max_context_chars (chars newest) (reversed older) others
unfolding turn_history list_messages
history_keeps_newest w c e s older newest read =
    let max_chars = w.settings.ai_max_context_chars in
    (
      more_messages max_chars (chars newest) (reversed older),
      rw read (rw (reversed_onto-append older [] newest) refl),
      more_messages-IsGreedy max_chars (chars newest) (reversed older),
    )
