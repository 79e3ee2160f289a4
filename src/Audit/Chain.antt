-- ===== src/Audit/Chain.antt =====
-- The invariant of the hash chains, that recording keeps it, and that verification decides it.
use doda.Base.{
  ℕ, suc, ◌<◌, String, Bool, true, false, Option, none, some, List, [], ◌∷◌, ◌++◌, ◌≡◌, refl, sym,
  ap, ◌∙◌, ◌≢◌, ◌↔◌, arith, ◌==◌, ==_refl, inl, inr, opt_str_eq, eq_iff, Bool-cases, Option-cases,
  if◌then◌else◌,
}
use mathlib.Core.List.{append-nil}
use doda.Base.Table.{select, insert, length, All}
use doda.Base.Table.Laws.{
  find-append_none, find-append_some, find-replace_self, find-replace_other, select-append, All-map,
}
use doda.Base.Table.Order.{IsOrdered, order_by-IsOrdered, IsOrdered-append_one}
use doda.Env.{Env}
use doda.Db.{State, ok}
use doda.Domain.Audit.{AuditEvent, AuditChainTip}
use doda.Audit.{
  Entry, tip_of, upsert_tip, earlier, events_of, walk, recompute_event_hash, record_audit_event,
  verify_audit_chain,
}
use doda.Audit.Record.{
  hash_in, tip_hash, minted, tips_after, audited, record_audit_event_lem, tip_of-upsert,
}

-- Every event is chained to the one before it, and its stored hash is that of its own fields.
abbrev pub IsLinked : Env → Option String → List AuditEvent → Type 0
IsLinked e prev [] = Unit
IsLinked e prev (v ∷ vs) =
    (v.prev_hash ≡ prev) × (recompute_event_hash e v ≡ v.hash) × IsLinked e (some v.hash) vs

abbrev pub last_hash : Option String → List AuditEvent → Option String
last_hash prev [] = prev
last_hash prev (v ∷ vs) = last_hash (some v.hash) vs

-- The events of one customer, among all.
abbrev pub of_customer : ℕ → AuditEvent → Bool
of_customer c v = v.customer_id == c

-- Every customer's events are linked, and its tip is the hash of the last.
pub record AreLinked (e : Env) (s : State) : Type 0 where
  pub linked : (c : ℕ) → IsLinked e none (select (of_customer c) s.db.audit_events)
  pub tip_last :
      (c : ℕ)
      → tip_hash c s.db.audit_chain_tips ≡ last_hash none (select (of_customer c) s.db.audit_events)

-- Every customer's chain is intact: linked, with the tip of its last event, and the events stand in
-- the order in which they were created.
pub record IsChained (e : Env) (s : State) : Type 0 where
  pub links : AreLinked e s
  pub ordered : (c : ℕ) → IsOrdered earlier (select (of_customer c) s.db.audit_events)

IsLinked-append_one :
    (e : Env) (prev : Option String) (vs : List AuditEvent) (v : AuditEvent)
    → IsLinked e prev vs
    → v.prev_hash ≡ last_hash prev vs
    → recompute_event_hash e v ≡ v.hash
    → IsLinked e prev (vs ++ v ∷ [])
IsLinked-append_one e prev [] v l p h = (p, h, tt)
IsLinked-append_one e prev (w ∷ vs) v l p h =
    (l.0, l.1, IsLinked-append_one e (some w.hash) vs v l.2 p h)

last_hash-append_one :
    (prev : Option String) (vs : List AuditEvent) (v : AuditEvent)
    → last_hash prev (vs ++ v ∷ []) ≡ some v.hash
last_hash-append_one prev [] v = refl
last_hash-append_one prev (w ∷ vs) v = last_hash-append_one (some w.hash) vs v

tip_hash_self :
    (a : Entry) (e : Env) (s : State)
    → tip_hash a.customer_id (tips_after a e s) ≡ some (minted a e s).hash
unfolding tips_after
tip_hash_self a e s =
    let c = a.customer_id in
    let found =
      find-replace_self (λ (t : AuditChainTip). t.customer_id == c)
        (record { customer_id = c; tip_hash = some (minted a e s).hash })
        (record { customer_id = c; tip_hash = tip_hash c s.db.audit_chain_tips })
        (upsert_tip c s.db.audit_chain_tips) (==_refl c) (tip_of-upsert c s.db.audit_chain_tips) in
    rw found

tip_of-upsert_other :
    (d c : ℕ) (tips : List AuditChainTip) → d ≢ c → tip_of c (upsert_tip d tips) ≡ tip_of c tips
tip_of-upsert_other d c tips ne = elim (Option-cases (tip_of d tips)) [
  | inr (t, found) ↦ rw found
  | inl missing ↦ elim (Option-cases (tip_of c tips)) [
    | inr (t, found) ↦ ground (
      arith,
      find-append_some (λ (t : AuditChainTip). t.customer_id == c) tips
          (record { customer_id = d; tip_hash = none } ∷ []) t found,
    )
    | inl gone ↦ ground (
      arith,
      find-append_none (λ (t : AuditChainTip). t.customer_id == c) tips
          (record { customer_id = d; tip_hash = none } ∷ []) gone,
    )
  ]
]

-- A record of one customer's event leaves another's tip alone.
tip_hash-other :
    (a : Entry) (e : Env) (s : State) (c : ℕ)
    → a.customer_id ≢ c
    → tip_hash c (tips_after a e s) ≡ tip_hash c s.db.audit_chain_tips
unfolding tips_after
tip_hash-other a e s c ne =
    let d = a.customer_id in
    let kept =
      find-replace_other (λ (t : AuditChainTip). t.customer_id == d)
        (λ (t : AuditChainTip). t.customer_id == c)
        (record { customer_id = d; tip_hash = some (minted a e s).hash })
        (upsert_tip d s.db.audit_chain_tips) (λ x hx. ground arith) (ground arith) in
    ap hash_in (kept ∙ tip_of-upsert_other d c s.db.audit_chain_tips ne)

recompute-minted :
    (a : Entry) (e : Env) (s : State) → recompute_event_hash e (minted a e s) ≡ (minted a e s).hash
unfolding minted recompute_event_hash
recompute-minted a e s = refl

prev_hash-minted :
    (a : Entry) (e : Env) (s : State)
    → (minted a e s).prev_hash ≡ tip_hash a.customer_id s.db.audit_chain_tips
unfolding minted
prev_hash-minted a e s = refl

customer_id-minted : (a : Entry) (e : Env) (s : State) → (minted a e s).customer_id ≡ a.customer_id
unfolding minted
customer_id-minted a e s = refl

created_at-minted :
    (a : Entry) (e : Env) (s : State) → (minted a e s).created_at ≡ e.clock (suc s.reads)
unfolding minted
created_at-minted a e s = refl

-- The events of one customer after a record.
select-audited :
    (a : Entry) (e : Env) (s : State) (c : ℕ)
    → select (of_customer c) (insert (minted a e s) s.db.audit_events) ≡ (
        if a.customer_id == c
        then select (of_customer c) s.db.audit_events ++ minted a e s ∷ []
        else select (of_customer c) s.db.audit_events)
select-audited a e s c =
    rw (select-append (of_customer c) s.db.audit_events (minted a e s ∷ []), customer_id-minted)
      (elim (Bool-cases (a.customer_id == c)) [
        | inl same ↦ rw same
        | inr other ↦ rw (other, append-nil)
      ])

module _ (e : Env) (a : Entry) (s : State) (h : AreLinked e s) where
  IsLinked-after :
      (c : ℕ) → IsLinked e none (select (of_customer c) (insert (minted a e s) s.db.audit_events))
  IsLinked-after c = rw select-audited (elim (Bool-cases (a.customer_id == c)) [
    | inl same ↦ rw same (
        IsLinked-append_one e none (select (of_customer c) s.db.audit_events) (minted a e s)
          (h.linked c)
          (prev_hash-minted a e s
            ∙ ap (λ k. tip_hash k s.db.audit_chain_tips) (ground arith)
            ∙ h.tip_last c)
          (recompute-minted a e s))
    | inr other ↦ rw other (h.linked c)
  ])

  tip_after :
      (c : ℕ)
      → tip_hash c (tips_after a e s)
        ≡ last_hash none (select (of_customer c) (insert (minted a e s) s.db.audit_events))
  tip_after c = rw select-audited (elim (Bool-cases (a.customer_id == c)) [
    | inl same ↦ rw same (
        ap (λ k. tip_hash k (tips_after a e s)) (ground arith)
        ∙ tip_hash_self a e s
        ∙ sym (last_hash-append_one none (select (of_customer c) s.db.audit_events) _))
    | inr other ↦ rw other (tip_hash-other a e s c (ground arith) ∙ h.tip_last c)
  ])

  audited-AreLinked : AreLinked e (audited a e s)
  audited-AreLinked = record { linked = IsLinked-after; tip_last = tip_after }

-- Recording an event, for any customer, returns that event and keeps the chains of all customers
-- linked, each with its tip, whatever the clock shows.
pub record_audit_event-AreLinked :
    (e : Env) (a : Entry) (s : State)
    → AreLinked e s
    → let (r, s') = record_audit_event a e s in (r ≡ ok (minted a e s)) × AreLinked e s'
record_audit_event-AreLinked e a s h = rw record_audit_event_lem (refl, audited-AreLinked e a s h)

-- The events of a customer stand in order after a record, if the new one is the last in time.
IsOrdered-after :
    (e : Env) (a : Entry) (s : State)
    → ((c : ℕ) → IsOrdered earlier (select (of_customer c) s.db.audit_events))
    → All
        (λ v. v.created_at < e.clock (suc s.reads))
        (select (of_customer a.customer_id) s.db.audit_events)
    → (c : ℕ) → IsOrdered earlier (select (of_customer c) (insert (minted a e s) s.db.audit_events))
IsOrdered-after e a s h past c = rw select-audited (elim (Bool-cases (a.customer_id == c)) [
  | inl same ↦
      let at_c : a.customer_id ≡ c = ground (arith, same) in
      rw same (
        IsOrdered-append_one earlier (select (of_customer c) s.db.audit_events) (minted a e s)
          (All-map (λ (v : AuditEvent). v.created_at < e.clock (suc s.reads))
            (λ (v : AuditEvent). earlier (minted a e s) v ≡ false)
            (select (of_customer c) s.db.audit_events)
            (λ v lt. ground (arith, created_at-minted a e s)) (rw (← at_c) past))
          (h c))
  | inr other ↦ rw other (h c)
])

-- Recording an event, for any customer, keeps all the chains, if the clock reads a later time for
-- it than each event of that customer has.
pub record_audit_event-IsChained :
    (e : Env) (a : Entry) (s : State)
    → IsChained e s
    → All
        (λ v. v.created_at < e.clock (suc s.reads))
        (select (of_customer a.customer_id) s.db.audit_events)
    → IsChained e (record_audit_event a e s).1
record_audit_event-IsChained e a s h past = rw record_audit_event_lem (record {
  links = audited-AreLinked e a s h.links;
  ordered = IsOrdered-after e a s h.ordered past;
})

-- What `verify_audit_chain` finds nothing wrong with.
pub opt_str_eq_iff : (a b : Option String) → (opt_str_eq a b ≡ true) ↔ (a ≡ b)
opt_str_eq_iff none none = ground arith
opt_str_eq_iff none (some b) = ground arith
opt_str_eq_iff (some a) none = ground arith
opt_str_eq_iff (some a) (some b) = ground (arith, eq_iff a b)

-- The walk reports nothing exactly when every event is linked to the one before it and its stored
-- hash is that of its own fields.
pub walk-IsLinked :
    (e : Env) (prev : Option String) (vs : List AuditEvent)
    → (walk e prev vs ≡ []) ↔ IsLinked e prev vs
unfolding walk
walk-IsLinked e prev [] = (λ h. tt, λ h. refl)
walk-IsLinked e prev (v ∷ vs) = ground (
  arith,
  opt_str_eq_iff v.prev_hash prev,
  eq_iff (recompute_event_hash e v) v.hash,
  walk-IsLinked e (some v.hash) vs,
)

-- In a state whose chains are intact, the verification of any customer checks all of that
-- customer's events, reports no violation, and changes nothing.
pub verify_audit_chain_clean :
    (e : Env) (s : State)
    → IsChained e s
    → (c : ℕ)
    → verify_audit_chain c e s
      ≡ (ok (record { checked_count = length (events_of c s.db); violations = [] }), s)
unfolding verify_audit_chain
verify_audit_chain_clean e s h c =
    rw (order_by-IsOrdered earlier (events_of c s.db) (h.ordered c))
      (rw ((walk-IsLinked e none (events_of c s.db)).1 (h.links.linked c)))
