-- ===== src/Tests/Audit.antt =====
-- Examples: the audit chain.
use doda.Base.{String, Option, none, some, List, [], ◌∷◌, ◌≡◌, ◌≢◌, refl, eq_iff, arith}
use doda.Base.Table.{length}
use doda.Json.{Json, text, object, field, null}
use doda.Env.{Env}
use doda.Db.{State, ok}
use doda.Domain.Audit.{AuditEvent}
use doda.Audit.{
  Entry, record_audit_event, verify_audit_chain, recompute_event_hash, hash_mismatch,
  prev_hash_mismatch, events_of,
}
use doda.Audit.Record.{minted, tips_after, audited, tip_hash}
use doda.Audit.Chain.{
  AreLinked, IsChained, IsLinked, last_hash, record_audit_event-AreLinked,
  record_audit_event-IsChained, verify_audit_chain_clean,
}
use doda.Audit.Tamper.{altered_event_reported, deleted_event_reported, truncation_unseen}
use doda.Tests.Data.{demo, empty, at_start}

abbrev entry : Entry
entry = record {
  customer_id = 1;
  workspace_id = none;
  trace_id = 9;
  actor_id = "user:id";
  event_type = "login.v1";
  safe_metadata = null;
}

empty-IsChained : IsChained demo (at_start empty)
empty-IsChained = record {
  links = record { linked = λ c. tt; tip_last = λ c. refl };
  ordered = λ c. tt;
}

abbrev one_event : State
one_event = audited entry demo (at_start empty)

record_audit_event-AreLinked_example :
    let (r, s') = record_audit_event entry demo (at_start empty) in
    (r ≡ ok (minted entry demo (at_start empty))) × AreLinked demo s'
record_audit_event-AreLinked_example =
    record_audit_event-AreLinked demo entry (at_start empty) empty-IsChained.links

one_event-IsChained : IsChained demo one_event
unfolding record_audit_event minted tips_after
one_event-IsChained = record_audit_event-IsChained demo entry (at_start empty) empty-IsChained tt

-- The second event of a customer: the clock has gone on since the first.
record_audit_event-IsChained_example : IsChained demo (record_audit_event entry demo one_event).1
unfolding record_audit_event minted tips_after
record_audit_event-IsChained_example =
    record_audit_event-IsChained demo entry one_event one_event-IsChained (omega arith, tt)

verify_audit_chain_clean_example : verify_audit_chain 1 demo one_event ≡ (
  ok (record { checked_count = length (events_of 1 one_event.db); violations = [] }),
  one_event,
)
verify_audit_chain_clean_example = verify_audit_chain_clean demo one_event one_event-IsChained 1

-- The actor alone stands for the dump of an event.
abbrev actor_of : Json → String
actor_of (object (field a x (field b y (field c z (field d (text t) rest))))) = t
actor_of _ = ""

abbrev actor_env : Env
actor_env = record demo { dumps = actor_of }

abbrev first_event : AuditEvent
first_event = record {
  id = 1;
  created_at = 1;
  customer_id = 1;
  workspace_id = none;
  trace_id = 9;
  actor_id = "user:id";
  event_type = "login.v1";
  occurred_at = 1;
  safe_metadata = null;
  prev_hash = none;
  hash = "hash of user:id";
}

abbrev second_event : AuditEvent
second_event = record {
  id = 2;
  created_at = 2;
  customer_id = 1;
  workspace_id = none;
  trace_id = 9;
  actor_id = "user:b";
  event_type = "logout.v1";
  occurred_at = 2;
  safe_metadata = null;
  prev_hash = some "hash of user:id";
  hash = "hash of user:b";
}

abbrev forged : AuditEvent
forged = record first_event { actor_id = "user:c" }

abbrev holding : List AuditEvent → State
holding events = at_start (record empty { audit_events = events })

both-IsLinked : IsLinked actor_env none (first_event ∷ second_event ∷ [])
unfolding recompute_event_hash
both-IsLinked = (refl, refl, (refl, refl, tt))

forged_differs : recompute_event_hash actor_env forged ≢ forged.hash
unfolding recompute_event_hash
forged_differs h = let same = (eq_iff "hash of user:c" "hash of user:id").1 h in cc

altered_event_reported_example :
    verify_audit_chain 1 actor_env (holding (forged ∷ second_event ∷ [])) ≡ (
      ok (record {
        checked_count = 2;
        violations = record { event_id = 1; reason = hash_mismatch } ∷ [];
      }),
      holding (forged ∷ second_event ∷ []),
    )
altered_event_reported_example =
    altered_event_reported actor_env 1 (holding (forged ∷ second_event ∷ [])) [] (second_event ∷ [])
      first_event forged refl both-IsLinked refl refl forged_differs

deleted_event_reported_example : verify_audit_chain 1 actor_env (holding (second_event ∷ [])) ≡ (
  ok (record {
    checked_count = 1;
    violations = record { event_id = 2; reason = prev_hash_mismatch } ∷ [];
  }),
  holding (second_event ∷ []),
)
deleted_event_reported_example =
    deleted_event_reported actor_env 1 (holding (second_event ∷ [])) [] [] first_event second_event
      refl both-IsLinked (λ h. cc)

abbrev other_entry : Entry
other_entry = record entry { actor_id = "user:b" }

abbrev one_actor : State
one_actor = audited entry actor_env (at_start empty)

abbrev two_actors : State
two_actors = audited other_entry actor_env one_actor

two_actors-IsChained : IsChained actor_env two_actors
unfolding record_audit_event minted tips_after
two_actors-IsChained =
    record_audit_event-IsChained actor_env other_entry one_actor
      (record_audit_event-IsChained actor_env entry (at_start empty)
        (record { links = record { linked = λ c. tt; tip_last = λ c. refl }; ordered = λ c. tt })
        tt)
      (omega arith, tt)

-- The state without its last event.
abbrev truncated : State
truncated = record two_actors {
  db = record two_actors.db { audit_events = minted entry actor_env (at_start empty) ∷ [] };
}

differ : ◌≢◌ {A = Option String} (some "hash of user:b") (some "hash of user:id")
differ h = cc

truncation_unseen_example :
    (verify_audit_chain 1 actor_env truncated
      ≡ (ok (record { checked_count = 1; violations = [] }), truncated))
    × (tip_hash 1 truncated.db.audit_chain_tips ≢ last_hash none (events_of 1 truncated.db))
unfolding minted tips_after
truncation_unseen_example =
    truncation_unseen actor_env 1 two_actors truncated
      (minted entry actor_env (at_start empty) ∷ []) (minted other_entry actor_env one_actor ∷ [])
      two_actors-IsChained refl differ refl refl
