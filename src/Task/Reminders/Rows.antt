-- ===== src/Task/Reminders/Rows.antt =====
-- The rows of the reminders once some of them have fired.
use doda.Base.{
  ℕ, Bool, true, false, ◌&&◌, ◌||◌, Option, some, List, [], ◌∷◌, ◌≡◌, refl, ap, sym, ◌∙◌, arith,
  ◌==◌, inl, inr, Bool-cases, if◌then◌else◌,
}
use doda.Base.Table.{find, select, update, All}
use doda.Base.Table.Laws.{find_holds, find-update_self, find-update_other}
use doda.Domain.Task.{Reminder}
use doda.Task.Reminders.{fired_now}

-- The rows once the reminders of a list have fired.
abbrev pub fired_rows : ℕ → List Reminder → List Reminder → List Reminder
fired_rows now [] rows = rows
fired_rows now (r ∷ due) rows = fired_rows now due (update (λ x. x.id == r.id) (fired_now now) rows)

-- The id of a reminder is among those of a list.
abbrev pub among : ℕ → List Reminder → Bool
among id [] = false
among id (r ∷ rs) = id == r.id || among id rs

-- The row of an id, once the reminders of a list have fired: fired, if its id is among theirs.
pub find-fired_rows :
    (now id : ℕ) (due rows : List Reminder) (x : Reminder)
    → find (λ r. r.id == id) rows ≡ some x
    → find (λ r. r.id == id) (fired_rows now due rows)
      ≡ some (if among id due then fired_now now x else x)
find-fired_rows now id [] rows x found = found
find-fired_rows now id (r ∷ due) rows x found = elim (Bool-cases (id == r.id)) [
  | inl hit ↦
      let same : id ≡ r.id = ground (arith, hit) in
      let once : find (λ r. r.id == id) (update (λ y. y.id == r.id) (fired_now now) rows)
          ≡ some (fired_now now x) =
        rw (← same) (
          find-update_self (λ (y : Reminder). y.id == id) (fired_now now) x rows
            (find_holds (λ (y : Reminder). y.id == id) rows x found) found) in
      rw hit (
        find-fired_rows now id due (update (λ y. y.id == r.id) (fired_now now) rows)
          (fired_now now x) once
        ∙ elim (Bool-cases (among id due)) [ inl y ↦ rw y refl | inr n ↦ rw n refl ])
  | inr miss ↦
      let kept =
        find-update_other (λ (y : Reminder). y.id == r.id) (λ (y : Reminder). y.id == id)
          (fired_now now) rows (λ y h. ground (arith, h, miss)) (λ y h. ground (arith, h, miss)) in
      rw miss (
        find-fired_rows now id due (update (λ y. y.id == r.id) (fired_now now) rows) x
          (kept ∙ found))
]

-- A row that a query selects is among what it selects.
pub selected_among :
    (p : Reminder → Bool) (id : ℕ) (rows : List Reminder) (x : Reminder)
    → find (λ r. r.id == id) rows ≡ some x
    → p x ≡ true
    → among id (select p rows) ≡ true
selected_among p id [] x found late = cc
selected_among p id (r ∷ rows) x found late = elim (Bool-cases (r.id == id)) [
  | inl hit ↦
      let same : r ≡ x = ground (arith, found, hit) in
      let late' : p r ≡ true = rw same late in rw late' (ground (arith, hit))
  | inr miss ↦
      let onward = selected_among p id rows x (ground (arith, found, miss)) late in
      elim (Bool-cases (p r)) [
        | inl in_r ↦ rw in_r (ground (arith, miss, onward))
        | inr out_r ↦ rw out_r onward
      ]
]

-- Every row is found by its id, as a primary key has it.
abbrev pub AreKeyed : List Reminder → List Reminder → Type 0
AreKeyed all rows = All (λ y. find (λ r. r.id == y.id) all ≡ some y) rows

-- An id that is among what a query selects is that of a row which passes the query's test.
pub among_selected :
    (p : Reminder → Bool) (id : ℕ) (all rows : List Reminder) (x : Reminder)
    → AreKeyed all rows
    → find (λ r. r.id == id) all ≡ some x
    → among id (select p rows) ≡ true
    → p x ≡ true
among_selected p id all [] x keyed found is = cc
among_selected p id all (r ∷ rows) x keyed found is = elim (Bool-cases (p r)) [
  | inr out_r ↦ among_selected p id all rows x keyed.1 found (rw out_r at is)
  | inl in_r ↦ elim (Bool-cases (id == r.id)) [
    | inl hit ↦
        let at_r : id ≡ r.id = ground (arith, hit) in
        let found' : find (λ y. y.id == r.id) all ≡ some x = rw (← at_r) found in
        let first : ◌≡◌ {A = Option Reminder} (some r) (some x) = sym keyed.0 ∙ found' in
        let same : r ≡ x = ground (arith, first) in rw (← same) in_r
    | inr miss ↦
        let is' = rw in_r at is in
        among_selected p id all rows x keyed.1 found (ground (arith, is', miss))
  ]
]

pub select-select :
    (p q : Reminder → Bool) (rows : List Reminder)
    → select p (select q rows) ≡ select (λ x. q x && p x) rows
select-select p q [] = refl
select-select p q (x ∷ rows) = elim (Bool-cases (q x)) [
  | inr out ↦ rw out (select-select p q rows)
  | inl in_q ↦ elim (Bool-cases (p x)) [
    | inl in_p ↦ rw (in_q, in_p) (ap (λ (xs : List Reminder). x ∷ xs) (select-select p q rows))
    | inr out ↦ rw (in_q, out) (select-select p q rows)
  ]
]
