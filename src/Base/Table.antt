-- ===== src/Base/Table.antt =====
-- A table is the list of its rows in the order of insertion. A query is a Boolean test on a row.
pub mod Any
pub mod Counts
pub mod Laws
pub mod Order
use Prim.Native.Nat.{ℕ, zero, suc}
use mathlib.Core.Bool.{Bool}
use mathlib.Core.Option.{Option, none, some}
use mathlib.Core.List.{List, [], ◌∷◌, ◌++◌}
use doda.Base.Tests.{if◌then◌else◌}

module _ {ℓ} {A : Type ℓ} where
  abbrev pub length : List A → ℕ
  length [] = 0
  length (x ∷ xs) = suc (length xs)

  abbrev pub take : ℕ → List A → List A
  take zero xs = []
  take (suc n) [] = []
  take (suc n) (x ∷ xs) = x ∷ take n xs

  -- The first row that a query finds: `session.get`, `session.scalar`, `.first()`.
  abbrev pub find : (A → Bool) → List A → Option A
  find p [] = none
  find p (x ∷ xs) = if p x then some x else find p xs

  -- Every row that a query finds.
  abbrev pub select : (A → Bool) → List A → List A
  select p [] = []
  select p (x ∷ xs) = let rest = select p xs in if p x then x ∷ rest else rest

  -- Writes a row over those with its key.
  abbrev pub replace : (A → Bool) → A → List A → List A
  replace p v [] = []
  replace p v (x ∷ xs) = (if p x then v else x) ∷ replace p v xs

  -- `UPDATE … SET … WHERE …`: changes the rows that a query finds.
  abbrev pub update : (A → Bool) → (A → A) → List A → List A
  update p f [] = []
  update p f (x ∷ xs) = (if p x then f x else x) ∷ update p f xs

  -- Drops the rows that a query finds.
  abbrev pub delete : (A → Bool) → List A → List A
  delete p [] = []
  delete p (x ∷ xs) = let rest = delete p xs in if p x then rest else x ∷ rest

  abbrev pub insert : A → List A → List A
  insert v xs = xs ++ v ∷ []

  -- `ORDER BY`, as an insertion sort that keeps the order of equal rows.
  abbrev pub place : (A → A → Bool) → A → List A → List A
  place before v [] = v ∷ []
  place before v (x ∷ xs) =
      let rest = place before v xs in if before x v then x ∷ rest else v ∷ x ∷ xs

  abbrev pub order_by : (A → A → Bool) → List A → List A
  order_by before [] = []
  order_by before (x ∷ xs) = place before x (order_by before xs)

-- `P` holds of every row.
abbrev pub All {ℓ κ} : {A : Type ℓ} → (A → Type κ) → List A → Type κ
All P [] = Unit
All P (x ∷ xs) = P x × All P xs
