-- ===== src/Remote/Service/Timeout.antt =====
-- backend/internal/remote/service.go: reading a session as its controller or its host. Whoever reads
-- a session that has waited too long fails it first (`applyTimeout`).
use serein.Base.{
  ℕ, ◌+◌, ◌*◌, not, ◌||◌, Option, none, some, String, List, [], ◌∷◌, str_eq, ltb, if◌then◌else◌,
  pos,
}
use serein.Remote.Model.{
  Session, SessionState, Role, controller, host, other, text, state_eq, is_terminal_state,
  waiting_primary, waiting_host, waiting_consent, negotiating, reconnecting, failed,
}
use serein.Remote.World.{
  conflict, unauthorized, Result, ok, err, Action, pure, fail, asks, ◌>>=◌, ◌>>◌, fail_if, attempt,
  EventType,
}
use serein.Remote.Repository.{
  get_host, get_session, list_sessions_by_host_state, list_sessions_by_state, transition_session,
  Change,
}
use serein.Remote.Audit.{audit}
use serein.Remote.Tickets.{second}
use serein.Remote.Service.Hosts.{emit}

-- How long a state may last, and the reason when it has lasted too long.
unfoldable pub time_limit : SessionState → Option (ℕ × String)
time_limit waiting_primary = some (120 * second, "primary_approval_timeout")
time_limit waiting_host = some (120 * second, "host_timeout")
time_limit waiting_consent = some (60 * second, "consent_timeout")
time_limit negotiating = some (120 * second, "negotiation_timeout")
time_limit reconnecting = some (30 * second, "reconnect_timeout")
time_limit _ = none

abbrev pub to_failed : String → Change
to_failed reason = record {
  next_state = failed;
  granted = none;
  transport = "";
  end_reason = reason;
}

-- A lost race gives what the winner wrote.
abbrev pub after_expiry : Session → String → Result Session → Action Session
after_expiry s reason (err conflict) = get_session s.id
after_expiry s reason (err x) = fail x
after_expiry s reason (ok updated) = do
  audit s.id "system" "remote-timeout" "remote.session.failed" (("reason", text reason) ∷ [])
  emit EventType.failed updated
  pure updated

unfoldable pub expire : Session → String → ℕ → Action Session
expire s reason now = do
  r ← attempt (transition_session s.id (pos s.revision) (s.state ∷ []) (to_failed reason) now)
  after_expiry s reason r

abbrev pub apply_limit : Session → Option (ℕ × String) → ℕ → Action Session
apply_limit s none now = pure s
apply_limit s (some (ttl, reason)) now =
    if ltb now (s.updated_at + ttl) then pure s else expire s reason now

-- The terminal states have no limit, and the source returns them first.
unfoldable pub apply_timeout : Session → Action Session
apply_timeout s = do
  now ← asks (λ e. e.now)
  if is_terminal_state s.state then pure s else apply_limit s (time_limit s.state) now

unfoldable pub get_session_for_controller : String → String → Action Session
get_session_for_controller session_id controller_id = do
  s ← get_session session_id
  fail_if (str_eq controller_id "" || not (str_eq s.controller_device_id controller_id))
      unauthorized
  apply_timeout s

unfoldable pub get_session_for_host : String → String → Action Session
get_session_for_host session_id host_id = do
  s ← get_session session_id
  fail_if (str_eq host_id "" || not (str_eq s.host_id host_id)) unauthorized
  apply_timeout s

-- `role` decides how the session is read.
unfoldable pub get_session_for : Role → String → String → Action Session
get_session_for controller session_id endpoint_id =
    get_session_for_controller session_id endpoint_id
get_session_for host session_id endpoint_id = get_session_for_host session_id endpoint_id
get_session_for (other _) session_id endpoint_id = fail unauthorized

-- The loops of `ListPendingForHost` and `ListPendingForPrimary`.
unfoldable pub still_pending : SessionState → List Session → Action (List Session)
still_pending state [] = pure []
still_pending state (item ∷ items) = do
  current ← apply_timeout item
  rest ← still_pending state items
  pure (if state_eq current.state state then current ∷ rest else rest)

unfoldable pub list_pending_for_host : String → Action (List Session)
list_pending_for_host host_id = do
  get_host host_id
  items ← list_sessions_by_host_state host_id waiting_consent
  still_pending waiting_consent items

unfoldable pub list_pending_for_primary : Action (List Session)
list_pending_for_primary = do
  items ← list_sessions_by_state waiting_primary
  still_pending waiting_primary items
