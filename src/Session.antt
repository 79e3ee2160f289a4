-- ===== src/Session.antt =====
-- backend/src/doda/application/session_service.py
pub mod Final
pub mod Lifetime
use doda.Base.{
  ℕ, ◌+◌, ◌*◌, String, Bool, true, false, not, ◌&&◌, Option, none, some, List, ltb, leb, ◌==◌,
  str_eq, is_none, if◌then◌else◌,
}
use doda.Base.Table.{find, select, update, insert, order_by}
use doda.Db.{
  Db, M, session_invalid, ◌>>=◌, ◌>>◌, pure, raise, raise_if, gets, modify, utcnow, uuid4,
}
use doda.Domain.Identity.{Session, AuthStrength}

-- Thirty minutes and twelve hours, in microseconds.
abbrev pub idle_timeout : ℕ
idle_timeout = 30 * 60000000

abbrev pub absolute_timeout : ℕ
absolute_timeout = 12 * 3600000000

unfoldable pub create_session : ℕ → AuthStrength → Option String → M Session
create_session user_id auth_strength user_agent = do
  now ← utcnow
  id ← uuid4
  created_at ← utcnow
  let row : Session = record {
    id = id;
    created_at = created_at;
    user_id = user_id;
    auth_strength = auth_strength;
    last_seen_at = now;
    expires_at = now + absolute_timeout;
    revoked_at = none;
    user_agent = user_agent;
  }
  modify (λ db. record db { sessions = insert row db.sessions })
  pure row

abbrev is_agent : String → Option String → Bool
is_agent user_agent none = false
is_agent user_agent (some other) = str_eq other user_agent

unfoldable pub is_new_device_login : ℕ → String → M Bool
is_new_device_login user_id user_agent = do
  known ← gets (λ db. find (λ r. r.user_id == user_id && not (is_none r.user_agent)) db.sessions)
  matching ←
      gets (λ db. find (λ r. r.user_id == user_id && is_agent user_agent r.user_agent) db.sessions)
  pure (if is_none known then false else is_none matching)

abbrev pub session_of : ℕ → Db → Option Session
session_of session_id db = find (λ r. r.id == session_id) db.sessions

abbrev touched : ℕ → Session → Session
touched now row = record row { last_seen_at = now }

-- The rest of `resolve_session`, by the row. `now - last_seen_at > IDLE_TIMEOUT` is written with a
-- sum, since the difference is signed.
check_session : ℕ → Option Session → M Session
check_session now none = raise (session_invalid "no such session")
check_session now (some row) = do
  raise_if (not (is_none row.revoked_at)) (session_invalid "session revoked")
  raise_if (ltb row.expires_at now) (session_invalid "session past absolute timeout")
  raise_if (ltb (row.last_seen_at + idle_timeout) now) (session_invalid "session idle timeout")
  modify (λ db. record db { sessions = update (λ r. r.id == row.id) (touched now) db.sessions })
  pure (touched now row)

unfoldable pub resolve_session : ℕ → M Session
unfolding check_session
resolve_session session_id = do
  row ← gets (session_of session_id)
  now ← utcnow
  check_session now row

-- `ORDER BY last_seen_at DESC`
abbrev seen_later : Session → Session → Bool
seen_later x y = ltb y.last_seen_at x.last_seen_at

abbrev pub is_listed : ℕ → ℕ → Session → Bool
is_listed user_id now r =
    r.user_id == user_id
    && is_none r.revoked_at
    && ltb now r.expires_at
    && ltb now (r.last_seen_at + idle_timeout)

unfoldable pub list_active_sessions_for_user : ℕ → M (List Session)
list_active_sessions_for_user user_id = do
  now ← utcnow
  gets (λ db. order_by seen_later (select (is_listed user_id now) db.sessions))

abbrev revoked : ℕ → Session → Session
revoked now row = record row { revoked_at = some now }

revoke_row : Option Session → M (Unit {0})
revoke_row none = pure tt
revoke_row (some row) =
    if is_none row.revoked_at
    then (do
      now ← utcnow
      modify
          (λ db. record db { sessions = update (λ r. r.id == row.id) (revoked now) db.sessions }))
    else pure tt

unfoldable pub revoke_session : ℕ → M (Unit {0})
unfolding revoke_row
revoke_session session_id = do row ← gets (session_of session_id); revoke_row row
