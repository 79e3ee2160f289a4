-- ===== src/Session/Lifetime.antt =====
-- When a session resolves, and that a revocation and the absolute timeout are final.
use doda.Base.{
  ℕ, suc, ◌+◌, ◌≤◌, String, false, none, some, ◌≡◌, ◌⊎◌, refl, arith, ltb, ◌==◌, inl, inr,
  Bool-cases, Option-cases,
}
use doda.Base.Table.{update}
use doda.Env.{Env}
use doda.Db.{Db, State, ok, err, session_invalid}
use doda.Domain.Identity.{Session}
use doda.Session.{resolve_session, check_session, session_of, touched, idle_timeout}

-- The session is valid at that time: not revoked, not past its expiry, and seen within 30 minutes.
pub record IsLive (now : ℕ) (r : Session) : Type 0 where
  pub not_revoked : r.revoked_at ≡ none
  pub not_expired : now ≤ r.expires_at
  pub not_idle : now ≤ r.last_seen_at + idle_timeout

abbrev pub touched_state : Session → Env → State → State
touched_state r e s = record s {
  db = record s.db {
    sessions = update (λ x. x.id == r.id) (touched (e.clock s.reads)) s.db.sessions;
  };
  reads = suc s.reads;
}

check_session_live :
    (now : ℕ) (r : Session) (e : Env) (s : State)
    → IsLive now r
    → check_session now (some r) e s ≡ (
      ok (touched now r),
      record s {
        db = record s.db { sessions = update (λ x. x.id == r.id) (touched now) s.db.sessions };
      },
    )
unfolding check_session
check_session_live now r e s live =
    let in_time : ltb r.expires_at now ≡ false = let h = live.not_expired in ground arith in
    let seen : ltb (r.last_seen_at + idle_timeout) now ≡ false =
      let h = live.not_idle in ground arith in
    rw (live.not_revoked, in_time, seen) refl

-- The session exists and is valid at that time.
abbrev pub IsValid : ℕ → ℕ → Db → Type 0
IsValid session_id now db = (r : Session) × (session_of session_id db ≡ some r) × IsLive now r

-- A raise is for a reason that makes the session not live.
check_session_decides :
    (now : ℕ) (r : Session) (e : Env) (s : State)
    → IsLive now r
      ⊎ ((¬ IsLive now r)
          × ((reason : String) × (check_session now (some r) e s
                ≡ (err (session_invalid reason), s))))
unfolding check_session
check_session_decides now r e s = elim (Option-cases r.revoked_at) [
  | inr (t, gone) ↦ inr (
    (λ live. let h = live.not_revoked in ground (arith, gone, h)),
    ("session revoked", rw gone refl),
  )
  | inl kept ↦ elim (Bool-cases (ltb r.expires_at now)) [
    | inl late ↦ inr (
      (λ live. let h = live.not_expired in ground arith),
      ("session past absolute timeout", rw (kept, late) refl),
    )
    | inr in_time ↦ elim (Bool-cases (ltb (r.last_seen_at + idle_timeout) now)) [
      | inl idle ↦ inr (
        (λ live. let h = live.not_idle in ground arith),
        ("session idle timeout", rw (kept, in_time, idle) refl),
      )
      | inr seen ↦
          inl (record { not_revoked = kept; not_expired = ground arith; not_idle = ground arith })
    ]
  ]
]

-- Resolving a session returns it exactly if it exists and is live now, and then only its time of
-- last use is written; otherwise it raises and changes no table.
pub resolve_session_decides :
    (session_id : ℕ) (e : Env) (s : State)
    → ((r : Session) × (session_of session_id s.db ≡ some r)
        × IsLive (e.clock s.reads) r
        × (resolve_session session_id e s
            ≡ (ok (touched (e.clock s.reads) r), touched_state r e s)))
      ⊎ ((¬ IsValid session_id (e.clock s.reads) s.db)
          × ((reason : String) × (resolve_session session_id e s
                ≡ (err (session_invalid reason), record s { reads = suc s.reads }))))
unfolding resolve_session check_session
resolve_session_decides session_id e s = elim (Option-cases (session_of session_id s.db)) [
  | inl missing ↦
      inr
        ((λ (r, found, live). ground (arith, missing, found)), ("no such session", rw missing refl))
  | inr (r, found) ↦
      let now = e.clock s.reads in
      let s' : State = record s { reads = suc s.reads } in
      elim (check_session_decides now r e s') [
        | inl live ↦ inl (r, found, live, rw found (check_session_live now r e s' live))
        | inr (dead, (reason, raises)) ↦ inr (
          (λ (x, found', live).
              let same : x ≡ r = ground (arith, found, found') in dead (rw (← same) live)),
          (reason, rw found raises),
        )
      ]
]
