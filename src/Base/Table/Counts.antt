-- ===== src/Base/Table/Counts.antt =====
-- How updates and deletions of at most one row change a count.
use Prim.Native.Nat.{suc, ◌≤◌}
use mathlib.Core.Path.{◌≡◌, refl}
use mathlib.Core.Bool.{Bool, true, false}
use mathlib.Core.Option.{some}
use mathlib.Core.Logic.{inl, inr}
use mathlib.Core.List.{List, [], ◌∷◌}
use native.Mathlib.Omega.{arith}
use doda.Base.Tests.{Bool-cases}
use doda.Base.Table.{length, find, select, update, delete, All}

module _ {ℓ} {A : Type ℓ} where
  -- At most one row passes the test, as a unique key asserts.
  abbrev pub AtMostOne : (A → Bool) → List A → Type 0
  AtMostOne p [] = Unit
  AtMostOne p (x ∷ xs) = (p x ≡ true → All (λ y. p y ≡ false) xs) × AtMostOne p xs

  update_none :
      (p : A → Bool) (f : A → A) (xs : List A) → All (λ y. p y ≡ false) xs → update p f xs ≡ xs
  update_none p f [] h = refl
  update_none p f (x ∷ xs) h = rw (h.0, update_none p f xs h.1) refl

  delete_none : (p : A → Bool) (xs : List A) → All (λ y. p y ≡ false) xs → delete p xs ≡ xs
  delete_none p [] h = refl
  delete_none p (x ∷ xs) h = rw (h.0, delete_none p xs h.1) refl

  length-select_cons :
      (q : A → Bool) (x : A) (xs : List A)
      → (length (select q xs) ≤ length (select q (x ∷ xs)))
        × (length (select q (x ∷ xs)) ≤ suc (length (select q xs)))
  length-select_cons q x xs = elim (Bool-cases (q x)) [
    | inl in_x ↦ rw in_x (omega arith, omega arith)
    | inr out_x ↦ rw out_x (omega arith, omega arith)
  ]

  -- An update or a deletion of at most one row takes at most one from a count.
  pub length-select-update :
      (p q : A → Bool) (f : A → A) (xs : List A)
      → AtMostOne p xs
      → length (select q xs) ≤ suc (length (select q (update p f xs)))
  length-select-update p q f [] h = omega arith
  length-select-update p q f (x ∷ xs) h = elim (Bool-cases (p x)) [
    | inl hit ↦
        let (lo, hi) = length-select_cons q x xs in
        let (lo', hi') = length-select_cons q (f x) xs in
        rw (hit, update_none p f xs (h.0 hit)) (ground arith)
    | inr miss ↦ rw miss (elim (Bool-cases (q x)) [
      | inl in_x ↦ let rest = length-select-update p q f xs h.1 in rw in_x (ground arith)
      | inr out_x ↦ rw out_x (length-select-update p q f xs h.1)
    ])
  ]

  pub length-select-delete :
      (p q : A → Bool) (xs : List A)
      → AtMostOne p xs
      → length (select q xs) ≤ suc (length (select q (delete p xs)))
  length-select-delete p q [] h = omega arith
  length-select-delete p q (x ∷ xs) h = elim (Bool-cases (p x)) [
    | inl hit ↦
        let (lo, hi) = length-select_cons q x xs in
        rw (hit, delete_none p xs (h.0 hit)) (ground arith)
    | inr miss ↦ rw miss (elim (Bool-cases (q x)) [
      | inl in_x ↦ let rest = length-select-delete p q xs h.1 in rw in_x (ground arith)
      | inr out_x ↦ rw out_x (length-select-delete p q xs h.1)
    ])
  ]

  -- An update of a row that keeps it within a query, or that was not in it, takes none from a count.
  pub length-select-update_kept :
      (p q : A → Bool) (f : A → A) (a : A) (xs : List A)
      → AtMostOne p xs
      → find p xs ≡ some a
      → (q a ≡ true → q (f a) ≡ true)
      → length (select q xs) ≤ length (select q (update p f xs))
  length-select-update_kept p q f a [] h found kept = omega arith
  length-select-update_kept p q f a (x ∷ xs) h found kept = elim (Bool-cases (p x)) [
    | inl hit ↦
        let same : x ≡ a = ground arith in
        let kept_x : q x ≡ true → q (f x) ≡ true = rw same kept in
        let (lo, hi) = length-select_cons q (f x) xs in
        rw (hit, update_none p f xs (h.0 hit))
          (elim (Bool-cases (q x)) [
            | inl in_x ↦ rw (in_x, kept_x in_x) (omega arith)
            | inr out_x ↦ rw out_x lo
          ])
    | inr miss ↦
        let rest = length-select-update_kept p q f a xs h.1 (ground arith) kept in
        rw miss (elim (Bool-cases (q x)) [
          | inl in_x ↦ rw in_x (ground arith)
          | inr out_x ↦ rw out_x rest
        ])
  ]

  pub length-select-delete_kept :
      (p q : A → Bool) (a : A) (xs : List A)
      → AtMostOne p xs
      → find p xs ≡ some a
      → q a ≡ false
      → length (select q xs) ≤ length (select q (delete p xs))
  length-select-delete_kept p q a [] h found out_a = omega arith
  length-select-delete_kept p q a (x ∷ xs) h found out_a = elim (Bool-cases (p x)) [
    | inl hit ↦
        let same : x ≡ a = ground arith in
        let out_x : q x ≡ false = rw same out_a in
        rw (hit, delete_none p xs (h.0 hit), out_x) (omega arith)
    | inr miss ↦
        let rest = length-select-delete_kept p q a xs h.1 (ground arith) out_a in
        rw miss (elim (Bool-cases (q x)) [
          | inl in_x ↦ rw in_x (ground arith)
          | inr out_x ↦ rw out_x rest
        ])
  ]
