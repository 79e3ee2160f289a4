-- ===== src/Base/Table/Laws.antt =====
-- Laws of the queries and the writes on a table.
use mathlib.Core.Path.{◌≡◌, refl}
use mathlib.Core.Bool.{Bool, true, false}
use mathlib.Core.Option.{none, some}
use mathlib.Core.Logic.{inl, inr}
use mathlib.Core.List.{List, [], ◌∷◌, ◌++◌}
use native.Mathlib.Omega.{arith}
use doda.Base.Tests.{Bool-cases, if◌then◌else◌}
use doda.Base.Table.{find, select, replace, update, All}

module _ {ℓ} {A : Type ℓ} where
  pub find-append_some :
      (p : A → Bool) (xs ys : List A) (a : A) → find p xs ≡ some a → find p (xs ++ ys) ≡ some a
  find-append_some p [] ys a h = cc
  find-append_some p (x ∷ xs) ys a h = ground (arith, find-append_some p xs ys a)

  pub find-append_none :
      (p : A → Bool) (xs ys : List A) → find p xs ≡ none → find p (xs ++ ys) ≡ find p ys
  find-append_none p [] ys h = refl
  find-append_none p (x ∷ xs) ys h = ground (arith, find-append_none p xs ys)

  -- What a query finds passes its test.
  pub find_holds : (p : A → Bool) (xs : List A) (a : A) → find p xs ≡ some a → p a ≡ true
  find_holds p [] a h = cc
  find_holds p (x ∷ xs) a h = elim (Bool-cases (p x)) [
    | inl yes_x ↦ ground arith
    | inr no_x ↦ find_holds p xs a (ground arith)
  ]

  pub find-replace_self :
      (p : A → Bool) (v a : A) (xs : List A)
      → p v ≡ true
      → find p xs ≡ some a
      → find p (replace p v xs) ≡ some v
  find-replace_self p v a [] hv h = cc
  find-replace_self p v a (x ∷ xs) hv h = ground (arith, find-replace_self p v a xs hv)

  -- A write of one key is not seen by a query for another.
  pub find-replace_other :
      (p q : A → Bool) (v : A) (xs : List A)
      → ((x : A) → p x ≡ true → q x ≡ false)
      → q v ≡ false
      → find q (replace p v xs) ≡ find q xs
  find-replace_other p q v [] apart hv = refl
  find-replace_other p q v (x ∷ xs) apart hv =
      ground (arith, apart x, find-replace_other p q v xs apart hv)

  -- A row that a query finds is written over by its key, and the query finds what was written.
  pub find-replace_found :
      (p q : A → Bool) (v a : A) (xs : List A)
      → p a ≡ true
      → q v ≡ true
      → find q xs ≡ some a
      → find q (replace p v xs) ≡ some v
  find-replace_found p q v a [] ha hv h = cc
  find-replace_found p q v a (x ∷ xs) ha hv h = elim (Bool-cases (p x)) [
    | inl in_x ↦ rw (in_x, hv)
    | inr out_x ↦ ground (arith, find-replace_found p q v a xs ha hv)
  ]

  -- An update of the rows with a key is seen by the query for that key.
  pub find-update_self :
      (p : A → Bool) (f : A → A) (a : A) (xs : List A)
      → p (f a) ≡ true
      → find p xs ≡ some a
      → find p (update p f xs) ≡ some (f a)
  find-update_self p f a [] ha h = cc
  find-update_self p f a (x ∷ xs) ha h = elim (Bool-cases (p x)) [
    | inl in_x ↦ let same : x ≡ a = ground arith in rw in_x (rw (same, ha))
    | inr out_x ↦ ground (arith, find-update_self p f a xs ha)
  ]

  -- It is not seen by a query that no row with the key passes, before the update or after.
  pub find-update_other :
      (p q : A → Bool) (f : A → A) (xs : List A)
      → ((x : A) → p x ≡ true → q x ≡ false)
      → ((x : A) → p x ≡ true → q (f x) ≡ false)
      → find q (update p f xs) ≡ find q xs
  find-update_other p q f [] apart apart' = refl
  find-update_other p q f (x ∷ xs) apart apart' =
      ground (arith, apart x, apart' x, find-update_other p q f xs apart apart')

  -- A query whose test an update does not change finds what it found, updated if it was to be.
  pub find-update :
      (p q : A → Bool) (f : A → A) (xs : List A) (a : A)
      → ((x : A) → p (f x) ≡ p x)
      → find p xs ≡ some a
      → find p (update q f xs) ≡ some (if q a then f a else a)
  find-update p q f [] a same h = cc
  find-update p q f (x ∷ xs) a same h = elim (Bool-cases (p x)) [
    | inl in_x ↦
        let found : x ≡ a = ground arith in
        elim (Bool-cases (q x)) [
          | inl hit ↦ rw (hit, same x, in_x) (rw (← found) (rw hit refl))
          | inr miss ↦ rw (miss, in_x) (rw (← found) (rw miss refl))
        ]
    | inr out_x ↦ elim (Bool-cases (q x)) [
      | inl hit ↦ rw (hit, same x, out_x) (find-update p q f xs a same (ground arith))
      | inr miss ↦ rw (miss, out_x) (find-update p q f xs a same (ground arith))
    ]
  ]

  pub find-replace-none :
      (p q : A → Bool) (v : A) (xs : List A)
      → q v ≡ false
      → find q xs ≡ none
      → find q (replace p v xs) ≡ none
  find-replace-none p q v [] hv h = refl
  find-replace-none p q v (x ∷ xs) hv h = ground (arith, find-replace-none p q v xs hv)

  pub select-append :
      (p : A → Bool) (xs ys : List A) → select p (xs ++ ys) ≡ select p xs ++ select p ys
  select-append p [] ys = refl
  select-append p (x ∷ xs) ys = elim (Bool-cases (p x)) [
    | inl in_x ↦ rw (in_x, select-append p xs ys)
    | inr out_x ↦ rw (out_x, select-append p xs ys)
  ]

  pub All-append {κ} : (P : A → Type κ) (xs ys : List A) → All P xs → All P ys → All P (xs ++ ys)
  All-append P [] ys hx hy = hy
  All-append P (x ∷ xs) ys hx hy = (hx.0, All-append P xs ys hx.1 hy)

  pub All-left {κ} : (P : A → Type κ) (xs ys : List A) → All P (xs ++ ys) → All P xs
  All-left P [] ys h = tt
  All-left P (x ∷ xs) ys h = (h.0, All-left P xs ys h.1)

  pub All-select {κ} :
      (P : A → Type κ) (p : A → Bool) (xs : List A) → All P xs → All P (select p xs)
  All-select P p [] h = tt
  All-select P p (x ∷ xs) h = elim (Bool-cases (p x)) [
    | inl in_x ↦ rw in_x (h.0, All-select P p xs h.1)
    | inr out_x ↦ rw out_x (All-select P p xs h.1)
  ]

  pub All-map {κ μ} :
      (P : A → Type κ) (Q : A → Type μ) (xs : List A) → ((x : A) → P x → Q x) → All P xs → All Q xs
  All-map P Q [] f h = tt
  All-map P Q (x ∷ xs) f h = (f x h.0, All-map P Q xs f h.1)

  pub All-replace {κ} :
      (P : A → Type κ) (p : A → Bool) (v : A) (xs : List A)
      → P v
      → All P xs
      → All P (replace p v xs)
  All-replace P p v [] hv h = tt
  All-replace P p v (x ∷ xs) hv h = elim (Bool-cases (p x)) [
    | inl in_x ↦ rw in_x (hv, All-replace P p v xs hv h.1)
    | inr out_x ↦ rw out_x (h.0, All-replace P p v xs hv h.1)
  ]

  pub All-update {κ μ} :
      (P : A → Type κ) (Q : A → Type μ) (p : A → Bool) (f : A → A) (xs : List A)
      → ((x : A) → P x → Q (if p x then f x else x))
      → All P xs
      → All Q (update p f xs)
  All-update P Q p f [] g h = tt
  All-update P Q p f (x ∷ xs) g h = (g x h.0, All-update P Q p f xs g h.1)

  -- A query among the rows of a wider query finds what it finds among all.
  pub find-select :
      (p q : A → Bool) (xs : List A)
      → ((x : A) → p x ≡ true → q x ≡ true)
      → find p (select q xs) ≡ find p xs
  find-select p q [] wider = refl
  find-select p q (x ∷ xs) wider = elim (Bool-cases (p x)) [
    | inl in_x ↦ let wide = wider x in_x in rw (wide, in_x) refl
    | inr out_x ↦ elim (Bool-cases (q x)) [
      | inl wide ↦ rw (wide, out_x) (find-select p q xs wider)
      | inr narrow ↦ rw (narrow, out_x) (find-select p q xs wider)
    ]
  ]

  -- What holds of every row holds of the row that a query finds.
  pub All-find {κ} :
      (P : A → Type κ) (p : A → Bool) (xs : List A) (a : A) → All P xs → find p xs ≡ some a → P a
  All-find P p [] a h e = cc
  All-find P p (x ∷ xs) a h e = elim (Bool-cases (p x)) [
    | inl in_x ↦ let same : x ≡ a = ground arith in rw (← same) h.0
    | inr out_x ↦ All-find P p xs a h.1 (ground arith)
  ]
