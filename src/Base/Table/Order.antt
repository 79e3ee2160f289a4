-- ===== src/Base/Table/Order.antt =====
-- Tables in order, and `ORDER BY`.
use mathlib.Core.Path.{◌≡◌, refl}
use mathlib.Core.Bool.{Bool, false}
use mathlib.Core.Logic.{inl, inr}
use mathlib.Core.List.{List, [], ◌∷◌, ◌++◌}
use doda.Base.Tests.{Bool-cases}
use doda.Base.Table.{select, place, order_by, All}
use doda.Base.Table.Laws.{All-append, All-select}

module _ {ℓ} {A : Type ℓ} where
  -- No later row comes before an earlier one.
  abbrev pub IsOrdered : (A → A → Bool) → List A → Type 0
  IsOrdered before [] = Unit
  IsOrdered before (x ∷ xs) = All (λ y. before y x ≡ false) xs × IsOrdered before xs

  place_first :
      (before : A → A → Bool) (x : A) (xs : List A)
      → All (λ y. before y x ≡ false) xs
      → place before x xs ≡ x ∷ xs
  place_first before x [] h = refl
  place_first before x (y ∷ xs) h = rw h.0

  -- `ORDER BY` leaves rows alone that are in order.
  pub order_by-IsOrdered :
      (before : A → A → Bool) (xs : List A) → IsOrdered before xs → order_by before xs ≡ xs
  order_by-IsOrdered before [] h = refl
  order_by-IsOrdered before (x ∷ xs) h =
      rw (order_by-IsOrdered before xs h.1) (place_first before x xs h.0)

  pub IsOrdered-append_one :
      (before : A → A → Bool) (xs : List A) (v : A)
      → All (λ x. before v x ≡ false) xs
      → IsOrdered before xs
      → IsOrdered before (xs ++ v ∷ [])
  IsOrdered-append_one before [] v hv h = (tt, tt)
  IsOrdered-append_one before (x ∷ xs) v hv h = (
    All-append (λ y. before y x ≡ false) xs (v ∷ []) h.0 (hv.0, tt),
    IsOrdered-append_one before xs v hv.1 h.1,
  )

  pub IsOrdered-select :
      (before : A → A → Bool) (p : A → Bool) (xs : List A)
      → IsOrdered before xs
      → IsOrdered before (select p xs)
  IsOrdered-select before p [] h = tt
  IsOrdered-select before p (x ∷ xs) h = elim (Bool-cases (p x)) [
    | inl in_x ↦
        rw in_x (All-select (λ y. before y x ≡ false) p xs h.0, IsOrdered-select before p xs h.1)
    | inr out_x ↦ rw out_x (IsOrdered-select before p xs h.1)
  ]
