-- ===== src/Notification/Preferences.antt =====
-- What a recipient's preferences decide.
use doda.Base.{
  ℕ, String, Bool, true, false, not, ◌&&◌, some, [], ◌∷◌, ◌≡◌, ◌∙◌, refl, arith, ◌==◌, ==_refl, inl,
  inr, Option-cases, eq_iff,
}
use doda.Base.Table.{find, replace}
use doda.Base.Table.Laws.{find-append_none, find-replace_found, find_holds}
use doda.Env.{Env}
use doda.Db.{Db, State, ok, err, notification_preference_error}
use doda.Domain.Notification.{NotificationType, NotificationPreference, security_alert}
use doda.Notification.{
  always_on, enabled_in, preference_of, preference_is, store_preference,
  set_notification_preference,
}

own :
    (c : ℕ) (r : String) (t : NotificationType) (p : NotificationPreference)
    → p.customer_id ≡ c
    → p.recipient_id ≡ r
    → p.notification_type ≡ t
    → preference_is c r t p ≡ true
own c r t p hc hr ht = rw (hc, hr, ht) (ground (arith, eq_iff r r))

written :
    (c : ℕ) (r : String) (t : NotificationType) (b : Bool) (db : Db) (row : NotificationPreference)
    → preference_of c r t db ≡ some row
    → find (preference_is c r t) (
        replace
          (λ (p : NotificationPreference). p.id == row.id)
          (record row { enabled = b })
          db.preferences)
      ≡ some (record row { enabled = b })
written c r t b db row found =
    find-replace_found (λ (p : NotificationPreference). p.id == row.id) (preference_is c r t)
      (record row { enabled = b }) row db.preferences (==_refl row.id)
      (find_holds (preference_is c r t) db.preferences row found) found

abbrev new_row : ℕ → String → NotificationType → Bool → Env → State → NotificationPreference
new_row c r t b e s = record {
  id = e.uuid4 s.ids;
  created_at = e.clock s.reads;
  customer_id = c;
  recipient_id = r;
  notification_type = t;
  enabled = b;
}

-- The preference that a call stores is the one that later deliveries read.
stored :
    (meanwhile : Db → Db) (c : ℕ) (r : String) (t : NotificationType) (b : Bool) (e : Env)
    (s : State)
    → (not b && always_on t) ≡ false
    → (p : NotificationPreference) × (preference_of c r t
          (set_notification_preference meanwhile c r t b e s).1.db
        ≡ some p)
      × (p.enabled ≡ b)
      × ((set_notification_preference meanwhile c r t b e s).0 ≡ ok p)
unfolding set_notification_preference store_preference
stored meanwhile c r t b e s h = elim (Option-cases (preference_of c r t s.db)) [
  | inr (row, found) ↦ (
    record row { enabled = b },
    rw (h, found) (written c r t b s.db row found),
    refl,
    rw (h, found),
  )
  | inl missing ↦ elim (Option-cases (preference_of c r t (meanwhile s.db))) [
    | inr (row, found) ↦ (
      record row { enabled = b },
      rw (h, missing, found) (written c r t b (meanwhile s.db) row found),
      refl,
      rw (h, missing, found),
    )
    | inl gone ↦ (
      new_row c r t b e s,
      rw (h, missing, gone)
          (find-append_none (preference_is c r t) (meanwhile s.db).preferences
              (new_row c r t b e s ∷ []) gone
            ∙ rw (own c r t (new_row c r t b e s) refl refl refl)),
      refl,
      rw (h, missing, gone),
    )
  ]
]

-- Setting a preference that may be set, whatever other transactions commit between its lookup and
-- its insertion, returns, and from then on decides whether a notification of that type is delivered.
pub set_notification_preference_decides :
    (meanwhile : Db → Db) (c : ℕ) (r : String) (t : NotificationType) (b : Bool) (e : Env)
    (s : State)
    → always_on t ≡ false
    → let (r', s') = set_notification_preference meanwhile c r t b e s in
      ((p : NotificationPreference) × (r' ≡ ok p)) × (enabled_in s'.db c r t ≡ b)
set_notification_preference_decides meanwhile c r t b e s h =
    let (p, found, same, returns) = stored meanwhile c r t b e s (ground arith) in
    ((p, returns), rw (h, found) same)

-- A security alert is delivered whatever rows the table of preferences holds, and a call that would
-- turn it off raises and changes nothing.
pub security_alert_always_on :
    (meanwhile : Db → Db) (c : ℕ) (r : String) (e : Env) (s : State)
    → (enabled_in s.db c r security_alert ≡ true)
      × (set_notification_preference meanwhile c r security_alert false e s
          ≡ (err notification_preference_error, s))
unfolding set_notification_preference
security_alert_always_on meanwhile c r e s = (refl, refl)
