-- ===== src/Task/Reminders/Firing.antt =====
-- What a run of the reminder job does to each reminder, and whom it tells.
use doda.Base.{
  ℕ, ◌≤◌, String, Bool, true, false, ◌&&◌, Option, some, List, [], ◌∷◌, ◌++◌, ◌≡◌, ◌⊎◌, refl, ap,
  sym, ◌∙◌, arith, ◌==◌, inl, inr, Bool-cases, map, append-nil,
}
use doda.Base.Table.{find, select, update, All}
use doda.Base.Table.Laws.{find_holds, All-select, find-select}
use doda.Env.{Env}
use doda.Db.{Db, State, ok}
use doda.Domain.Task.{Task, Reminder, ReminderStatus}
use doda.Domain.Notification.{Notification, NotificationType, reminder_due}
use doda.Notification.{enabled_in}
use doda.Notification.Delivery.{notified, create_notification_lem, db-notified}
use doda.Task.Reminders.Rows.{
  fired_rows, among, find-fired_rows, selected_among, AreKeyed, among_selected, select-select,
}
use doda.Task.Reminders.{
  is_due, is_confirmed, is_task_of, task_by_id, fired_now, due_notice, fire_each,
  fire_due_reminders,
}

-- A reminder of the customer that is confirmed and whose time has come.
pub record IsDue (customer_id now : ℕ) (r : Reminder) : Type 0 where
  pub of_customer : r.customer_id ≡ customer_id
  pub confirmed : r.status ≡ ReminderStatus.confirmed
  pub in_time : r.remind_at ≤ now

-- What a notification says, to whom, and of what.
pub record Told : Type 0 where
  pub customer_id : ℕ
  pub workspace_id : Option ℕ
  pub recipient_id : String
  pub notification_type : NotificationType
  pub reference_type : String
  pub reference_id : ℕ

abbrev pub told : Notification → Told
told n = record {
  customer_id = n.customer_id;
  workspace_id = n.workspace_id;
  recipient_id = n.recipient_id;
  notification_type = n.notification_type;
  reference_type = n.reference_type;
  reference_id = n.reference_id;
}

abbrev pub told_of : Reminder → Told
told_of r = record {
  customer_id = r.customer_id;
  workspace_id = some r.workspace_id;
  recipient_id = r.actor_id;
  notification_type = reminder_due;
  reference_type = "task";
  reference_id = r.task_id;
}

-- The requester of a reminder has not switched its notifications off.
abbrev pub wants : Db → Reminder → Bool
wants db r = enabled_in db r.customer_id r.actor_id reminder_due

abbrev HasTask : List Task → Reminder → Type 0
HasTask tasks r = (t : Task) × (task_by_id r.task_id tasks ≡ some t)

told-append : (xs ys : List Notification) → map told (xs ++ ys) ≡ map told xs ++ map told ys
told-append [] ys = refl
told-append (x ∷ xs) ys = ap (λ (ts : List Told). told x ∷ ts) (told-append xs ys)

told_assoc : (xs ys zs : List Told) → (xs ++ ys) ++ zs ≡ xs ++ (ys ++ zs)
told_assoc [] ys zs = refl
told_assoc (x ∷ xs) ys zs = ap (λ (ts : List Told). x ∷ ts) (told_assoc xs ys zs)

-- A notice that is delivered is told, and one that is not leaves the notifications as they were.
told-notified :
    (r : Reminder) (t : Task) (e : Env) (s : State) (due : List Reminder)
    → t.id ≡ r.task_id
    → map told (notified (due_notice r t) e s).db.notifications
        ++ map told_of (select (wants s.db) due)
      ≡ map told s.db.notifications ++ map told_of (select (wants s.db) (r ∷ due))
unfolding notified
told-notified r t e s due its = elim (Bool-cases (wants s.db r)) [
  | inl on ↦ rw on (
      rw (told-append, its)
        (told_assoc (map told s.db.notifications) (told_of r ∷ [])
          (map told_of (select (wants s.db) due))))
  | inr off ↦ rw off refl
]

-- The loop returns if every reminder has its task: it fires each, and tells each requester.
fire_each_lem :
    (now : ℕ) (tasks : List Task) (due : List Reminder) (e : Env) (s : State)
    → All (HasTask tasks) due
    → (s' : State) × (fire_each now tasks due e s ≡ (ok (map (fired_now now) due), s'))
      × (s'.db.reminders ≡ fired_rows now due s.db.reminders)
      × (map told s'.db.notifications
          ≡ map told s.db.notifications ++ map told_of (select (wants s.db) due))
unfolding fire_each
fire_each_lem now tasks [] e s h = (s, refl, refl, sym (append-nil (map told s.db.notifications)))
fire_each_lem now tasks (r ∷ due) e s ((t, has), h) =
    let n = due_notice r t in
    let after = notified n e s in
    let written : State = record after {
      db = record after.db {
        reminders = update (λ x. x.id == r.id) (fired_now now) after.db.reminders;
      };
    } in
    let (s', runs, rows, tells) = fire_each_lem now tasks due e written h in
    let its : t.id ≡ r.task_id =
      ground (arith, find_holds (λ (x : Task). x.id == r.task_id) tasks t has) in
    let same : select (wants after.db) due ≡ select (wants s.db) due =
      ap (λ (db : Db). select (wants db) due) (db-notified n e s) in
    (
      s',
      rw has (rw create_notification_lem (rw runs refl)),
      rows
          ∙ ap
              (λ (db : Db).
                fired_rows now due (update (λ x. x.id == r.id) (fired_now now) db.reminders))
              (db-notified n e s),
      tells
          ∙ (ap (λ (rs : List Reminder). map told after.db.notifications ++ map told_of rs) same
              ∙ told-notified r t e s due its),
    )

-- The second query finds the tasks of every reminder of the first.
tasks_of_due :
    (tasks : List Task) (due all : List Reminder)
    → ((t : Task) → is_task_of due t ≡ true → is_task_of all t ≡ true)
    → All (HasTask tasks) due
    → All (HasTask (select (is_task_of all) tasks)) due
tasks_of_due tasks [] all wider h = tt
tasks_of_due tasks (r ∷ due) all wider ((t, has), h) = (
  (
    t,
    find-select (λ (x : Task). x.id == r.task_id) (is_task_of all) tasks
          (λ x its. wider x (rw its refl))
        ∙ has,
  ),
  tasks_of_due tasks due all
      (λ x later.
        wider x (elim (Bool-cases (x.id == r.task_id)) [ inl y ↦ rw y refl | inr n ↦ rw n later ]))
      h,
)

-- The tests of the query and of the row level security.
abbrev due_here : ℕ → ℕ → Reminder → Bool
due_here customer_id now r = r.customer_id == customer_id && is_due now r

confirmed_of :
    (status : ReminderStatus) → is_confirmed status ≡ true → status ≡ ReminderStatus.confirmed
confirmed_of ReminderStatus.confirmed h = refl
confirmed_of ReminderStatus.pending_confirmation h = cc
confirmed_of ReminderStatus.cancelled h = cc
confirmed_of ReminderStatus.fired h = cc

due_here-IsDue : (c now : ℕ) (r : Reminder) → due_here c now r ≡ true → IsDue c now r
due_here-IsDue c now r h = record {
  of_customer = ground (arith, h);
  confirmed = confirmed_of r.status (ground (arith, h));
  in_time = ground (arith, h);
}

IsDue-due_here : (c now : ℕ) (r : Reminder) → IsDue c now r → due_here c now r ≡ true
IsDue-due_here c now r h =
    let here = h.of_customer in
    let late = h.in_time in
    let confirmed : is_confirmed r.status ≡ true = rw h.confirmed refl in
    ground (arith, here, late, confirmed)

module _ (c now : ℕ) (e : Env) (s : State) (x : Reminder) where
  abbrev due : List Reminder
  due = select (is_due now) (select (λ r. r.customer_id == c) s.db.reminders)

  fired_or_not :
      AreKeyed s.db.reminders s.db.reminders
      → find (λ r. r.id == x.id) s.db.reminders ≡ some x
      → (IsDue c now x × (among x.id due ≡ true)) ⊎ ((¬ IsDue c now x) × (among x.id due ≡ false))
  fired_or_not keyed found =
      let rows = s.db.reminders in
      let same = select-select (is_due now) (λ r. r.customer_id == c) rows in
      elim (Bool-cases (due_here c now x)) [
        | inl late ↦ inl (
          due_here-IsDue c now x late,
          ap (among x.id) same ∙ selected_among (due_here c now) x.id rows x found late,
        )
        | inr early ↦ inr (
          (λ is. let late = IsDue-due_here c now x is in ground (arith, late, early)),
          ap (among x.id) same ∙ elim (Bool-cases (among x.id (select (due_here c now) rows))) [
            | inr out ↦ out
            | inl is ↦
                let late = among_selected (due_here c now) x.id rows rows x keyed found is in
                ground (arith, late, early)
          ],
        )
      ]

  -- A run of the job for a customer, at a time: if the ids of the reminders are a primary key, and
  -- every reminder of the customer has its task among the customer's (which foreign keys assert), it
  -- fires the stored reminders of the customer that are confirmed and whose time has come, and no
  -- other reminder changes, of that customer or another. It returns those that it fired, and adds,
  -- in their order, a notification for each whose requester has not switched them off.
  pub fire_due_reminders_complete :
      AreKeyed s.db.reminders s.db.reminders
      → All
          (HasTask (select (λ t. t.customer_id == c) s.db.tasks))
          (select (λ r. r.customer_id == c) s.db.reminders)
      → find (λ r. r.id == x.id) s.db.reminders ≡ some x
      → let (r, s') = fire_due_reminders c (some now) e s in
        let fired : Reminder → Reminder =
          λ y. record y { status = ReminderStatus.fired; fired_at = some now } in
        (r ≡ ok (map fired due))
        × ((IsDue c now x × (find (λ y. y.id == x.id) s'.db.reminders ≡ some (fired x)))
            ⊎ ((¬ IsDue c now x) × (find (λ y. y.id == x.id) s'.db.reminders ≡ some x)))
        × (map told s'.db.notifications
            ≡ map told s.db.notifications ++ map told_of (select (wants s.db) due))
  unfolding fire_due_reminders
  fire_due_reminders_complete keyed has_task found =
      let tasks = select (λ t. t.customer_id == c) s.db.tasks in
      let (s', runs, rows, tells) = fire_each_lem now (select (is_task_of due) tasks) due e s (
        tasks_of_due tasks due due (λ t h. h)
          (All-select (HasTask tasks) (is_due now) (select (λ r. r.customer_id == c) s.db.reminders)
            has_task)) in
      let after =
        ap (find (λ (r : Reminder). r.id == x.id)) rows
        ∙ find-fired_rows now x.id due s.db.reminders x found in
      rw runs (
        refl,
        (elim (fired_or_not keyed found) [
          | inl (is, among_due) ↦ inl (is, after ∙ rw among_due refl)
          | inr (is_not, not_among) ↦ inr (is_not, after ∙ rw not_among refl)
        ]),
        tells,
      )
