-- ===== src/Session/Final.antt =====
-- Sequences of session operations: a revocation and the absolute timeout are final.
use doda.Base.{
  ℕ, suc, ◌<◌, String, false, Option, some, List, [], ◌∷◌, ◌≡◌, ◌∙◌, refl, arith, ◌==◌, ==_refl,
  inl, inr, Bool-cases, Option-cases, is_none, if◌then◌else◌,
}
use doda.Base.Table.{update}
use doda.Base.Table.Laws.{find-append_some, find-update}
use doda.Env.{Env}
use doda.Db.{Db, State, err, session_invalid}
use doda.Domain.Identity.{Session, AuthStrength}
use doda.Session.{
  create_session, resolve_session, revoke_session, revoke_row, session_of, touched, revoked,
  list_active_sessions_for_user,
}
use doda.Session.Lifetime.{IsLive, IsValid, resolve_session_decides}

-- The operations on sessions.
pub data Call : Type 0 where
  create : ℕ → AuthStrength → Option String → Call
  resolve : ℕ → Call
  revoke : ℕ → Call
  list : ℕ → Call

unfoldable pub step : Call → Env → State → State
step (create user_id strength agent) e s = (create_session user_id strength agent e s).1
step (resolve session_id) e s = (resolve_session session_id e s).1
step (revoke session_id) e s = (revoke_session session_id e s).1
step (list user_id) e s = (list_active_sessions_for_user user_id e s).1

unfoldable pub run : List Call → Env → State → State
run [] e s = s
run (call ∷ calls) e s = run calls e (step call e s)

-- What no operation takes back: the expiry, and a revocation.
record Descends (r r' : Session) : Type 0 where
  same_expiry : r'.expires_at ≡ r.expires_at
  stays_revoked : is_none r.revoked_at ≡ false → is_none r'.revoked_at ≡ false

-- The session is still there, and descends from what it was.
abbrev IsHeir : ℕ → Session → Db → Type 0
IsHeir k r db = (r' : Session) × (session_of k db ≡ some r') × Descends r r'

module _ (k : ℕ) (r : Session) where
  touched-IsHeir :
      (now j : ℕ) (db : Db)
      → session_of k db ≡ some r
      → IsHeir k r (record db { sessions = update (λ x. x.id == j) (touched now) db.sessions })
  touched-IsHeir now j db found = (
    if r.id == j then touched now r else r,
    find-update (λ x. x.id == k) (λ x. x.id == j) (touched now) db.sessions r (λ x. refl) found,
    elim (Bool-cases (r.id == j)) [
      | inl hit ↦ rw hit (record { same_expiry = refl; stays_revoked = λ h. h })
      | inr miss ↦ rw miss (record { same_expiry = refl; stays_revoked = λ h. h })
    ],
  )

  revoked-IsHeir :
      (now j : ℕ) (db : Db)
      → session_of k db ≡ some r
      → IsHeir k r (record db { sessions = update (λ x. x.id == j) (revoked now) db.sessions })
  revoked-IsHeir now j db found = (
    if r.id == j then revoked now r else r,
    find-update (λ x. x.id == k) (λ x. x.id == j) (revoked now) db.sessions r (λ x. refl) found,
    elim (Bool-cases (r.id == j)) [
      | inl hit ↦ rw hit (record { same_expiry = refl; stays_revoked = λ h. refl })
      | inr miss ↦ rw miss (record { same_expiry = refl; stays_revoked = λ h. h })
    ],
  )

  resolve-IsHeir :
      (j : ℕ) (e : Env) (s : State)
      → session_of k s.db ≡ some r
      → IsHeir k r (resolve_session j e s).1.db
  resolve-IsHeir j e s found = elim (resolve_session_decides j e s) [
    | inl (x, there, live, returns) ↦ rw returns (touched-IsHeir (e.clock s.reads) x.id s.db found)
    | inr (dead, (reason, raises)) ↦
        rw raises (r, found, record { same_expiry = refl; stays_revoked = λ h. h })
  ]

  revoke-IsHeir :
      (j : ℕ) (e : Env) (s : State)
      → session_of k s.db ≡ some r
      → IsHeir k r (revoke_session j e s).1.db
  unfolding revoke_session revoke_row
  revoke-IsHeir j e s found = elim (Option-cases (session_of j s.db)) [
    | inl missing ↦ rw missing (r, found, record { same_expiry = refl; stays_revoked = λ h. h })
    | inr (x, there) ↦ elim (Bool-cases (is_none x.revoked_at)) [
      | inl fresh ↦ rw (there, fresh) (revoked-IsHeir (e.clock s.reads) x.id s.db found)
      | inr gone ↦
          rw (there, gone) (r, found, record { same_expiry = refl; stays_revoked = λ h. h })
    ]
  ]

  step-IsHeir :
      (call : Call) (e : Env) (s : State)
      → session_of k s.db ≡ some r
      → IsHeir k r (step call e s).db
  unfolding step create_session list_active_sessions_for_user
  step-IsHeir (create user_id strength agent) e s found = (
    r,
    find-append_some (λ (x : Session). x.id == k) s.db.sessions _ r found,
    record { same_expiry = refl; stays_revoked = λ h. h },
  )
  step-IsHeir (resolve j) e s found = resolve-IsHeir j e s found
  step-IsHeir (revoke j) e s found = revoke-IsHeir j e s found
  step-IsHeir (list user_id) e s found =
      (r, found, record { same_expiry = refl; stays_revoked = λ h. h })

run-IsHeir :
    (k : ℕ) (calls : List Call) (r : Session) (e : Env) (s : State)
    → session_of k s.db ≡ some r
    → IsHeir k r (run calls e s).db
unfolding run
run-IsHeir k [] r e s found = (r, found, record { same_expiry = refl; stays_revoked = λ h. h })
run-IsHeir k (call ∷ calls) r e s found =
    let (r', found', d) = step-IsHeir k r call e s found in
    let (r'', found'', d') = run-IsHeir k calls r' e (step call e s) found' in
    let same = d.same_expiry in
    let same' = d'.same_expiry in
    let kept = d.stays_revoked in
    let kept' = d'.stays_revoked in
    (r'', found'', record { same_expiry = ground arith; stays_revoked = λ h. kept' (kept h) })

dead_stays_out :
    (k : ℕ) (r : Session) (now : ℕ) (db : Db)
    → session_of k db ≡ some r
    → ¬ IsLive now r
    → ¬ IsValid k now db
dead_stays_out k r now db found dead (x, found', live) =
    let same : x ≡ r = ground (arith, found, found') in dead (rw (← same) live)

not_valid_raises :
    (k : ℕ) (e : Env) (s : State)
    → ¬ IsValid k (e.clock s.reads) s.db
    → (reason : String) × (resolve_session k e s
        ≡ (err (session_invalid reason), record s { reads = suc s.reads }))
not_valid_raises k e s dead = elim (resolve_session_decides k e s) [
  | inl (x, there, live, returns) ↦ elim (dead (x, there, live)) [ ]
  | inr (dead', raises) ↦ raises
]

revoke_session_revokes :
    (k : ℕ) (r : Session) (e : Env) (s : State)
    → session_of k s.db ≡ some r
    → (r' : Session) × (session_of k (revoke_session k e s).1.db ≡ some r')
      × (is_none r'.revoked_at ≡ false)
unfolding revoke_session revoke_row
revoke_session_revokes k r e s found = elim (Bool-cases (is_none r.revoked_at)) [
  | inr gone ↦ (r, rw (found, gone) found, gone)
  | inl fresh ↦ (
    revoked (e.clock s.reads) r,
    rw (found, fresh)
        (find-update (λ x. x.id == k) (λ x. x.id == r.id) (revoked (e.clock s.reads)) s.db.sessions
            r (λ x. refl) found
          ∙ rw (==_refl r.id) refl),
    refl,
  )
]

-- Once a session is revoked, it never resolves again: whatever session operations follow, resolving
-- it raises and changes no table.
pub revocation_final :
    (k : ℕ) (r : Session) (calls : List Call) (e : Env) (s : State)
    → session_of k s.db ≡ some r
    → let s' = run calls e (revoke_session k e s).1 in
      (reason : String) × (resolve_session k e s'
        ≡ (err (session_invalid reason), record s' { reads = suc s'.reads }))
revocation_final k r calls e s found =
    let (r', found', gone) = revoke_session_revokes k r e s found in
    let (r'', found'', d) = run-IsHeir k calls r' e (revoke_session k e s).1 found' in
    let s' = run calls e (revoke_session k e s).1 in
    let still = d.stays_revoked gone in
    not_valid_raises k e s' (
      dead_stays_out k r'' (e.clock s'.reads) s'.db found''
        (λ live. let h = live.not_revoked in ground (arith, still, h)))

-- A session never resolves past the expiry that it had: whatever session operations happen, if the
-- clock then shows a later time, resolving it raises and changes no table.
pub expiry_final :
    (k : ℕ) (r : Session) (calls : List Call) (e : Env) (s : State)
    → session_of k s.db ≡ some r
    → r.expires_at < e.clock (run calls e s).reads
    → let s' = run calls e s in
      (reason : String) × (resolve_session k e s'
        ≡ (err (session_invalid reason), record s' { reads = suc s'.reads }))
expiry_final k r calls e s found late =
    let (r', found', d) = run-IsHeir k calls r e s found in
    let s' = run calls e s in
    let same = d.same_expiry in
    not_valid_raises k e s' (
      dead_stays_out k r' (e.clock s'.reads) s'.db found'
        (λ live. let h = live.not_expired in ground (arith, same, h, late)))
