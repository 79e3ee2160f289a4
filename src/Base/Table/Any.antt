-- ===== src/Base/Table/Any.antt =====
-- Whether some row passes a test, and what an update makes of the row that a query finds.
use mathlib.Core.Path.{◌≡◌, refl}
use mathlib.Core.Bool.{Bool, true, false, ◌||◌}
use mathlib.Core.Option.{Option, none, some}
use mathlib.Core.Logic.{inl, inr}
use mathlib.Core.List.{List, [], ◌∷◌, ◌++◌}
use native.Mathlib.Omega.{arith}
use doda.Base.Tests.{Bool-cases, if◌then◌else◌}
use doda.Base.Table.{find, update}

module _ {ℓ} {A : Type ℓ} where
  abbrev pub any : (A → Bool) → List A → Bool
  any p [] = false
  any p (x ∷ xs) = p x || any p xs

  -- The row, changed where it is to be.
  abbrev pub changed : (A → Bool) → (A → A) → Option A → Option A
  changed p f none = none
  changed p f (some x) = some (if p x then f x else x)

  -- An update that the query does not see changes what it finds.
  pub find-update :
      (q p : A → Bool) (f : A → A) (xs : List A)
      → ((x : A) → q (f x) ≡ q x)
      → find q (update p f xs) ≡ changed p f (find q xs)
  find-update q p f [] same = refl
  find-update q p f (x ∷ xs) same = elim (Bool-cases (p x)) [
    | inl hit ↦ elim (Bool-cases (q x)) [
      | inl yes_x ↦ rw (hit, same x, yes_x) (rw hit refl)
      | inr no_x ↦ rw (hit, same x, no_x) (find-update q p f xs same)
    ]
    | inr miss ↦ elim (Bool-cases (q x)) [
      | inl yes_x ↦ rw (miss, yes_x) (rw miss refl)
      | inr no_x ↦ rw (miss, no_x) (find-update q p f xs same)
    ]
  ]

  pub any-append_left : (p : A → Bool) (xs ys : List A) → any p xs ≡ true → any p (xs ++ ys) ≡ true
  any-append_left p [] ys h = cc
  any-append_left p (x ∷ xs) ys h = ground (arith, any-append_left p xs ys)

  -- An update keeps a test that it does not spoil.
  pub any-update :
      (p q : A → Bool) (f : A → A) (xs : List A)
      → ((x : A) → p x ≡ true → p (f x) ≡ true)
      → any p xs ≡ true
      → any p (update q f xs) ≡ true
  any-update p q f [] keeps h = cc
  any-update p q f (x ∷ xs) keeps h = ground (arith, keeps x, any-update p q f xs keeps)

  -- A row that is found and changed makes a test true.
  pub any-update_found :
      (p q : A → Bool) (f : A → A) (xs : List A) (x : A)
      → find q xs ≡ some x
      → p (f x) ≡ true
      → any p (update q f xs) ≡ true
  any-update_found p q f [] x h good = cc
  any-update_found p q f (y ∷ xs) x h good = elim (Bool-cases (q y)) [
    | inl hit ↦ ground arith
    | inr miss ↦ ground (arith, any-update_found p q f xs x)
  ]

  -- A test that some row passes finds a row.
  pub any-find : (p : A → Bool) (xs : List A) → any p xs ≡ true → (x : A) × (find p xs ≡ some x)
  any-find p [] h = cc
  any-find p (x ∷ xs) h = elim (Bool-cases (p x)) [
    | inl hit ↦ (x, rw hit refl)
    | inr miss ↦ let (y, found) = any-find p xs (rw miss at h) in (y, rw miss found)
  ]
