-- ===== src/Remote/Repository/Sessions.antt =====
-- backend/internal/remote/repository.go: the statements on remote_sessions, among them the
-- compare-and-swap that every change of a session goes through.
use serein.Base.{
  ℕ, zero, suc, ◌+◌, Bool, true, false, not, ◌&&◌, ◌||◌, Option, none, some, String, List, str_eq,
  ◌==◌, if◌then◌else◌, keep_if, order_by, leb, ℤ, pos, negsuc,
}
use serein.Base.Table.{find_key, update_key, affected, insert_key}
use serein.Remote.Model.{
  Session, SessionState, state_eq, allows, is_terminal_state, waiting_primary, waiting_consent,
  connected_view, connected_control,
}
use serein.Remote.World.{
  conflict, not_found, message, Action, fail, gets, or_fail, ◌>>=◌, ◌>>◌, modify, fail_if,
}

abbrev pub session_key : Session → String
session_key s = s.id

unfoldable pub get_session : String → Action Session
get_session id = do or_fail (← gets (λ w. find_key session_key id w.sessions)) not_found

abbrev pub put_sessions : Option (List Session) → Action (Unit {0})
put_sessions none = fail (message "UNIQUE constraint failed: remote_sessions.id")
put_sessions (some rows) = modify λ w. record w { sessions = rows }

unfoldable pub insert_session : Session → Action (Unit {0})
insert_session s = do put_sessions (← gets (λ w. insert_key session_key s w.sessions))

abbrev is_older : Session → Session → Bool
is_older a b = leb a.requested_at b.requested_at

unfoldable pub list_sessions_by_host_state : String → SessionState → Action (List Session)
list_sessions_by_host_state host_id state = gets λ w.
    order_by is_older (keep_if (λ s. str_eq s.host_id host_id && state_eq s.state state) w.sessions)

unfoldable pub list_sessions_by_state : SessionState → Action (List Session)
list_sessions_by_state state =
    gets λ w. order_by is_older (keep_if (λ s. state_eq s.state state) w.sessions)

-- `expectedRevision > 0 && s.Revision != expectedRevision`
abbrev pub is_stale : ℤ → ℕ → Bool
is_stale (pos zero) revision = false
is_stale (pos (suc n)) revision = not (revision == suc n)
is_stale (negsuc n) revision = false

-- The arguments of `TransitionSession` behind the guards. `granted` is `none` for a nil slice.
pub record Change : Type 0 where
  pub next_state : SessionState
  pub granted : Option (List String)
  pub transport : String
  pub end_reason : String

abbrev pub or_current : {A : Type 0} → Option A → A → A
or_current none a = a
or_current (some b) a = b

-- The columns that the UPDATE sets.
unfoldable pub moved : Change → ℕ → Session → Session
moved c now s = record s {
  state = c.next_state;
  revision = s.revision + 1;
  granted_capabilities = or_current c.granted s.granted_capabilities;
  transport_type = if str_eq c.transport "" then s.transport_type else c.transport;
  updated_at = now;
  started_at =
      if state_eq c.next_state connected_view || state_eq c.next_state connected_control
      then some (or_current s.started_at now)
      else s.started_at;
  ended_at = if is_terminal_state c.next_state then some now else s.ended_at;
  end_reason = c.end_reason;
}

unfoldable pub transition_session : String → ℤ → List SessionState → Change → ℕ → Action Session
transition_session id expected allowed c now = do
  s ← get_session id
  fail_if (is_stale expected s.revision) conflict
  fail_if (not (allows allowed s.state)) conflict
  n ← gets (λ w. affected session_key id (λ r. r.revision == s.revision) w.sessions)
  fail_if (not (n == 1)) conflict
  modify (λ w. record w {
    sessions = update_key session_key id (λ r. r.revision == s.revision) (moved c now) w.sessions;
  })
  get_session id

abbrev pub approved : ℕ → Session → Session
approved now s = record s {
  state = waiting_consent;
  primary_approved = true;
  revision = s.revision + 1;
  updated_at = now;
}

unfoldable pub approve_primary_session : String → ℤ → ℕ → Action Session
approve_primary_session id expected now = do
  s ← get_session id
  fail_if (is_stale expected s.revision || not (state_eq s.state waiting_primary)) conflict
  n ← gets (λ w. affected session_key id (λ r. r.revision == s.revision) w.sessions)
  fail_if (not (n == 1)) conflict
  modify (λ w. record w {
    sessions = update_key session_key id (λ r. r.revision == s.revision) (approved now) w.sessions;
  })
  get_session id
