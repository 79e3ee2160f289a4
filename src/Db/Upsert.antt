-- ===== src/Db/Upsert.antt =====
-- The race-safe upsert that backend/src/doda/application/ai_preference_service.py and
-- ai_provider_settings_service.py write out once for each table.
pub mod Laws
use doda.Base.{Bool, Option, none, some, List}
use doda.Base.Table.{find, update, insert}
use doda.Db.{Db, M, ◌>>=◌, ◌>>◌, pure, gets, modify}

-- A table of the database.
pub record Column (A : Type 0) : Type 0 where
  pub rows : Db → List A
  pub with_rows : List A → Db → Db

module _ {A : Type 0} (column : Column A) (is_key : A → Bool) where
  unfoldable pub change_row : (A → A) → A → M A
  change_row change row = do
    modify (λ db. column.with_rows (update is_key change (column.rows db)) db)
    pure (change row)

  -- The insertion, which the unique constraint refuses where another transaction committed a row
  -- with the key. The savepoint is rolled back, and ours is written over theirs.
  unfoldable pub add_row : (A → A) → A → Option A → M A
  unfolding change_row
  add_row change fresh none = do
    modify (λ db. column.with_rows (insert fresh (column.rows db)) db)
    pure fresh
  add_row change fresh (some theirs) = change_row change theirs

  unfoldable pub store_row : (Db → Db) → (A → A) → A → Option A → M A
  unfolding change_row add_row
  store_row meanwhile change fresh (some row) = change_row change row
  store_row meanwhile change fresh none = do
    modify meanwhile
    theirs ← gets (λ db. find is_key (column.rows db))
    add_row change fresh theirs

  -- `meanwhile` is what other transactions commit between the lookup and the insertion.
  unfoldable pub upsert : (Db → Db) → (A → A) → A → M A
  unfolding store_row
  upsert meanwhile change fresh = do
    found ← gets (λ db. find is_key (column.rows db))
    store_row meanwhile change fresh found
