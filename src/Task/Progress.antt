-- ===== src/Task/Progress.antt =====
-- The life of a task's status, and its history.
use doda.Base.{
  ℕ, suc, ◌<◌, String, true, false, some, [], ◌∷◌, ◌++◌, ◌≡◌, ◌⊎◌, refl, ◌∙◌, arith, ◌==◌, ==_refl,
  inl, inr, Bool-cases,
}
use doda.Base.Table.{update, insert}
use doda.Base.Table.Laws.{find-update}
use doda.Env.{Env}
use doda.Db.{State, ok, err, invalid_task_transition}
use doda.Domain.Task.{Task, TaskStatus, TaskHistory}
use doda.Notification.Delivery.{notified, create_notification_lem, with_notices, db-notified}
use doda.Task.{
  allowed, task_row, change_task_status, with_status, notify_owner, owner_notice, add_history,
  is_done,
}

-- How far a status is from the start.
abbrev pub rank : TaskStatus → ℕ
rank TaskStatus.todo = 0
rank TaskStatus.in_progress = 1
rank TaskStatus.done = 2
rank TaskStatus.cancelled = 2

-- Every allowed change of a task's status takes it further from the start: no status comes back.
pub allowed_advances : (a b : TaskStatus) → allowed a b ≡ true → rank a < rank b
unfolding allowed
allowed_advances a b h = ground arith

-- The history row of a change.
pub record IsChange (task : Task) (target : TaskStatus) (actor_id : String) (h : TaskHistory)
    : Type 0 where
  pub of_task : h.task_id ≡ task.id
  pub by_actor : h.actor_id ≡ actor_id
  pub from_old : h.from_status ≡ some task.status
  pub to_new : h.to_status ≡ target

-- What a notification of the owner leaves.
notify_owner_lem :
    (task : Task) (target : TaskStatus) (e : Env) (s : State)
    → (s' : State) × (notify_owner task target e s ≡ (ok tt, s'))
      × (s'.db ≡ with_notices s.db s'.db)
unfolding notify_owner
notify_owner_lem task target e s = elim (Bool-cases (is_done target)) [
  | inl finished ↦ (
    notified (owner_notice task) e s,
    rw finished (rw create_notification_lem refl),
    db-notified (owner_notice task) e s,
  )
  | inr open_still ↦ (s, rw open_still refl, refl)
]

module _ (stale task : Task) (target : TaskStatus) (actor_id : String) (e : Env) (s : State)
    (found : task_row stale.id s.db ≡ some task) where
  -- A change of a task's status, whatever status the caller saw, goes by the status in the row. If
  -- the table allows it, it writes the row and adds one history row, from the old status to the new
  -- and with the actor; otherwise it raises and changes nothing.
  pub change_task_status_decides :
      let (r, s') = change_task_status stale target actor_id e s in
      ((allowed task.status target ≡ true)
        × (r ≡ ok (with_status target task))
        × (task_row stale.id s'.db ≡ some (with_status target task))
        × ((h : TaskHistory) × IsChange task target actor_id h
            × (s'.db.task_history ≡ s.db.task_history ++ h ∷ [])))
      ⊎ ((allowed task.status target ≡ false)
          × (r ≡ err (invalid_task_transition task.status target))
          × (s' ≡ s))
  unfolding change_task_status add_history
  change_task_status_decides = elim (Bool-cases (allowed task.status target)) [
    | inr refused ↦ inr (refused, rw (found, refused) refl, rw (found, refused) refl)
    | inl may ↦
        let h : TaskHistory = record {
          id = e.uuid4 s.ids;
          created_at = e.clock s.reads;
          customer_id = task.customer_id;
          task_id = task.id;
          actor_id = actor_id;
          from_status = some task.status;
          to_status = target;
        } in
        let changed : State = record s {
          db = record s.db {
            tasks = update (λ t. t.id == task.id) (with_status target) s.db.tasks;
            task_history = insert h s.db.task_history;
          };
          reads = suc s.reads;
          ids = suc s.ids;
        } in
        let (s', notifies, kept) = notify_owner_lem (with_status target task) target e changed in
        inl (
          may,
          rw (found, may) (rw notifies refl),
          rw (found, may)
              (rw notifies (
                rw kept (
                  find-update (λ (t : Task). t.id == stale.id) (λ (t : Task). t.id == task.id)
                    (with_status target) s.db.tasks task (λ t. refl) found
                  ∙ rw (==_refl task.id) refl))),
          (
            h,
            record { of_task = refl; by_actor = refl; from_old = refl; to_new = refl },
            rw (found, may) (rw notifies (rw kept refl)),
          ),
        )
  ]
