-- ===== src/Db/Upsert/Laws.antt =====
-- What an upsert leaves: the row with the key is the one that was written.
use doda.Base.{◌≡◌, ◌⊎◌, refl, Bool, true, none, some, List, inl, inr, Option-cases, ◌∷◌, []}
use doda.Base.Table.{find, update, insert}
use doda.Base.Table.Laws.{find-append_none, find-update_self, find_holds}
use doda.Env.{Env}
use doda.Db.{Db, State, ok}
use doda.Db.Upsert.{Column, change_row, add_row, store_row, upsert}

module _ {A : Type 0} (column : Column A) (is_key : A → Bool)
    (writes : (rows : List A) (db : Db) → column.rows (column.with_rows rows db) ≡ rows)
    (meanwhile : Db → Db) (change : A → A) (fresh : A)
    (changes : (a : A) → is_key a ≡ true → is_key (change a) ≡ true)
    (is_fresh : is_key fresh ≡ true) (e : Env) where
  -- The row that is returned is the one that a lookup finds afterwards, and it is the new row or a
  -- row that was changed.
  pub record IsStored (s : State) : Type 0 where
    pub row : A
    pub db : Db
    pub runs : upsert column is_key meanwhile change fresh e s ≡ (ok row, record s { db = db })
    pub stored : find is_key (column.rows db) ≡ some row
    pub value : (row ≡ fresh) ⊎ ((a : A) × (row ≡ change a))

  found_after :
      (db : Db) (a : A)
      → find is_key (column.rows db) ≡ some a
      → find is_key (column.rows (column.with_rows (update is_key change (column.rows db)) db))
        ≡ some (change a)
  found_after db a found = rw (writes (update is_key change (column.rows db)) db) (
      find-update_self is_key change a (column.rows db)
        (changes a (find_holds is_key (column.rows db) a found)) found)

  added_after :
      (db : Db)
      → find is_key (column.rows db) ≡ none
      → find is_key (column.rows (column.with_rows (insert fresh (column.rows db)) db)) ≡ some fresh
  added_after db missing =
      rw (writes (insert fresh (column.rows db)) db)
        (rw (find-append_none is_key (column.rows db) (fresh ∷ []) missing) (rw is_fresh refl))

  pub upsert_stores : (s : State) → IsStored s
  unfolding upsert store_row add_row change_row
  upsert_stores s = elim (Option-cases (find is_key (column.rows s.db))) [
    | inr (a, found) ↦ record {
      row = change a;
      db = column.with_rows (update is_key change (column.rows s.db)) s.db;
      runs = rw found refl;
      stored = found_after s.db a found;
      value = inr (a, refl);
    }
    | inl missing ↦ elim (Option-cases (find is_key (column.rows (meanwhile s.db)))) [
      | inr (a, theirs) ↦ record {
        row = change a;
        db =
            column.with_rows (update is_key change (column.rows (meanwhile s.db))) (meanwhile s.db);
        runs = rw missing (rw theirs refl);
        stored = found_after (meanwhile s.db) a theirs;
        value = inr (a, refl);
      }
      | inl nobody ↦ record {
        row = fresh;
        db = column.with_rows (insert fresh (column.rows (meanwhile s.db))) (meanwhile s.db);
        runs = rw missing (rw nobody refl);
        stored = added_after (meanwhile s.db) nobody;
        value = inl refl;
      }
    ]
  ]
