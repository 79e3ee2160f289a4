-- ===== src/Audit/Tamper.antt =====
-- What the verification of a chain reports of rows that were altered or deleted after the fact.
use doda.Base.{
  ℕ, String, Option, none, some, List, [], ◌∷◌, ◌++◌, ◌≡◌, ◌≢◌, refl, ap, sym, ◌∙◌, false, arith,
  eq_iff,
}
use doda.Base.Table.{order_by, length}
use doda.Env.{Env}
use doda.Db.{State, ok}
use doda.Domain.Audit.{AuditEvent}
use doda.Audit.{
  prev_hash_mismatch, hash_mismatch, earlier, events_of, walk, recompute_event_hash,
  verify_audit_chain,
}
use doda.Audit.Record.{tip_hash}
use doda.Base.Table.Laws.{All-left}
use doda.Base.Table.Order.{IsOrdered, order_by-IsOrdered}
use doda.Audit.Chain.{IsChained, IsLinked, last_hash, opt_str_eq_iff, walk-IsLinked}

IsLinked-left :
    (e : Env) (prev : Option String) (xs ys : List AuditEvent)
    → IsLinked e prev (xs ++ ys)
    → IsLinked e prev xs
IsLinked-left e prev [] ys h = tt
IsLinked-left e prev (x ∷ xs) ys h = (h.0, h.1, IsLinked-left e (some x.hash) xs ys h.2)

IsLinked-right :
    (e : Env) (prev : Option String) (xs ys : List AuditEvent)
    → IsLinked e prev (xs ++ ys)
    → IsLinked e (last_hash prev xs) ys
IsLinked-right e prev [] ys h = h
IsLinked-right e prev (x ∷ xs) ys h = IsLinked-right e (some x.hash) xs ys h.2

-- Linked events add no violation to those of the events behind them.
walk-append :
    (e : Env) (prev : Option String) (xs ys : List AuditEvent)
    → IsLinked e prev xs
    → walk e prev (xs ++ ys) ≡ walk e (last_hash prev xs) ys
unfolding walk
walk-append e prev [] ys h = refl
walk-append e prev (x ∷ xs) ys h = ground (
  arith,
  opt_str_eq_iff x.prev_hash prev,
  eq_iff (recompute_event_hash e x) x.hash,
  walk-append e (some x.hash) xs ys,
)

-- The rows that `verify_audit_chain` walks.
abbrev pub rows : ℕ → State → List AuditEvent
rows c s = order_by earlier (events_of c s.db)

module _ (e : Env) (c : ℕ) (s : State) (xs ys : List AuditEvent) (v : AuditEvent) where
  altered_walk :
      (v' : AuditEvent)
      → IsLinked e none (xs ++ v ∷ ys)
      → v'.hash ≡ v.hash
      → v'.prev_hash ≡ v.prev_hash
      → recompute_event_hash e v' ≢ v'.hash
      → walk e none (xs ++ v' ∷ ys) ≡ record { event_id = v'.id; reason = hash_mismatch } ∷ []
  unfolding walk
  altered_walk v' h same_hash same_prev bad =
      let right = IsLinked-right e none xs (v ∷ ys) h in
      rw (walk-append e none xs (v' ∷ ys) (IsLinked-left e none xs (v ∷ ys) h)) (
        ground (
          arith,
          opt_str_eq_iff v'.prev_hash (last_hash none xs),
          eq_iff (recompute_event_hash e v') v'.hash,
          walk-IsLinked e (some v.hash) ys,
          right,
        ))

  -- If the fields of one event of an intact chain are altered, but for its two hashes, so that its
  -- hash is no longer theirs, the verification reports that event alone, once, as a hash mismatch.
  pub altered_event_reported :
      (v' : AuditEvent)
      → rows c s ≡ xs ++ v' ∷ ys
      → IsLinked e none (xs ++ v ∷ ys)
      → v'.hash ≡ v.hash
      → v'.prev_hash ≡ v.prev_hash
      → recompute_event_hash e v' ≢ v'.hash
      → verify_audit_chain c e s ≡ (
        ok (record {
          checked_count = length (xs ++ v' ∷ ys);
          violations = record { event_id = v'.id; reason = hash_mismatch } ∷ [];
        }),
        s,
      )
  unfolding verify_audit_chain
  altered_event_reported v' at_rows h same_hash same_prev bad =
      rw at_rows (rw (altered_walk v' h same_hash same_prev bad))

  deleted_walk :
      (y : AuditEvent)
      → IsLinked e none (xs ++ v ∷ y ∷ ys)
      → some v.hash ≢ last_hash none xs
      → walk e none (xs ++ y ∷ ys) ≡ record { event_id = y.id; reason = prev_hash_mismatch } ∷ []
  unfolding walk
  deleted_walk y h fresh =
      let right = IsLinked-right e none xs (v ∷ y ∷ ys) h in
      rw (walk-append e none xs (y ∷ ys) (IsLinked-left e none xs (v ∷ y ∷ ys) h)) (
        ground (
          arith,
          opt_str_eq_iff y.prev_hash (last_hash none xs),
          eq_iff (recompute_event_hash e y) y.hash,
          walk-IsLinked e (some y.hash) ys,
          right,
        ))

  -- If an event of an intact chain is deleted that has an event `y` behind it, and whose hash is
  -- not that of the event before it, the verification reports `y` alone, as a broken link.
  pub deleted_event_reported :
      (y : AuditEvent)
      → rows c s ≡ xs ++ y ∷ ys
      → IsLinked e none (xs ++ v ∷ y ∷ ys)
      → some v.hash ≢ last_hash none xs
      → verify_audit_chain c e s ≡ (
        ok (record {
          checked_count = length (xs ++ y ∷ ys);
          violations = record { event_id = y.id; reason = prev_hash_mismatch } ∷ [];
        }),
        s,
      )
  unfolding verify_audit_chain
  deleted_event_reported y at_rows h fresh = rw at_rows (rw (deleted_walk y h fresh))

IsOrdered-left : (xs ys : List AuditEvent) → IsOrdered earlier (xs ++ ys) → IsOrdered earlier xs
IsOrdered-left [] ys h = tt
IsOrdered-left (x ∷ xs) ys h =
    (All-left (λ (y : AuditEvent). earlier y x ≡ false) xs ys h.0, IsOrdered-left xs ys h.1)

-- Deleting the last events `ys` of a customer's intact chain, and nothing else of its events or the
-- tips, is reported by nothing, if their last hash is not that of the last event `xs` that is left:
-- the verification of what is left is clean, although the customer's tip, which it does not read,
-- still holds another hash than the last that is left.
pub truncation_unseen :
    (e : Env) (c : ℕ) (s s' : State) (xs ys : List AuditEvent)
    → IsChained e s
    → events_of c s.db ≡ xs ++ ys
    → last_hash none (xs ++ ys) ≢ last_hash none xs
    → events_of c s'.db ≡ xs
    → s'.db.audit_chain_tips ≡ s.db.audit_chain_tips
    → (verify_audit_chain c e s' ≡ (ok (record { checked_count = length xs; violations = [] }), s'))
      × (tip_hash c s'.db.audit_chain_tips ≢ last_hash none (events_of c s'.db))
unfolding verify_audit_chain
truncation_unseen e c s s' xs ys h all differ left tips =
    let ordered : IsOrdered earlier (xs ++ ys) = rw (← all) (h.ordered c) in
    let linked : IsLinked e none (xs ++ ys) = rw (← all) (h.links.linked c) in
    let tip : tip_hash c s.db.audit_chain_tips ≡ last_hash none (xs ++ ys) =
      h.links.tip_last c ∙ ap (last_hash none) all in
    (
      rw left (
          rw (order_by-IsOrdered earlier xs (IsOrdered-left xs ys ordered))
            (rw ((walk-IsLinked e none xs).1 (IsLinked-left e none xs ys linked)))),
      rw (tips, left) (λ same. differ (sym tip ∙ same)),
    )
