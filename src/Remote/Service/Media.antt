-- ===== src/Remote/Service/Media.antt =====
-- backend/internal/remote/service.go: the media connection and the tickets of its signalling.
use serein.Base.{
  Bool, true, not, ◌||◌, some, String, List, [], ◌∷◌, str_eq, if◌then◌else◌, contains, ℤ,
}
use serein.Remote.Model.{
  Session, SessionState, TicketClaims, TicketResult, Role, controller, host, other, text, state_eq,
  is_terminal_state, negotiating, connected_view, connected_control, reconnecting,
}
use serein.Remote.World.{
  conflict, unauthorized, Action, pure, asks, ◌>>=◌, ◌>>◌, fail_if, EventType,
}
use serein.Remote.Capability.{capability_input}
use serein.Remote.Repository.{get_session, transition_session, Change}
use serein.Remote.Audit.{audit}
use serein.Remote.Tickets.{issue, revision_eq, validate_and_consume}
use serein.Remote.Service.Hosts.{emit}
use serein.Remote.Service.Timeout.{get_session_for, get_session_for_host}
use serein.Remote.Service.Decisions.{or_revision}

-- Control goes only to a session that was granted input.
unfoldable pub connected_state : List String → SessionState
connected_state granted =
    if contains granted capability_input then connected_control else connected_view

abbrev pub to_connected : List String → Change
to_connected granted = record {
  next_state = connected_state granted;
  granted = some granted;
  transport = "webrtc";
  end_reason = "";
}

unfoldable pub mark_connected : String → String → ℤ → Action Session
mark_connected session_id host_id expected = do
  current ← get_session_for_host session_id host_id
  now ← asks (λ e. e.now)
  updated ←
      transition_session session_id (or_revision expected current.revision)
        (negotiating ∷ reconnecting ∷ []) (to_connected current.granted_capabilities) now
  audit session_id "host" host_id "remote.session.connected" (("transport", text "webrtc") ∷ [])
  emit EventType.connected updated
  pure updated

abbrev role_name : Role → String
role_name controller = "controller"
role_name host = "host"
role_name (other r) = r

abbrev pub to_reconnecting : Session → Change
to_reconnecting s = record {
  next_state = reconnecting;
  granted = some s.granted_capabilities;
  transport = s.transport_type;
  end_reason = "";
}

unfoldable pub reconnect_live : Session → String → String → Role → ℤ → Action Session
reconnect_live current session_id endpoint_id role expected = do
  now ← asks (λ e. e.now)
  updated ←
      transition_session session_id (or_revision expected current.revision)
        (connected_view ∷ connected_control ∷ []) (to_reconnecting current) now
  audit session_id (role_name role) endpoint_id "remote.session.reconnecting"
      (("transport", text current.transport_type) ∷ [])
  emit EventType.reconnecting updated
  pure updated

unfoldable pub mark_reconnecting : String → String → Role → ℤ → Action Session
mark_reconnecting session_id endpoint_id role expected = do
  current ← get_session_for role session_id endpoint_id
  if state_eq current.state reconnecting || is_terminal_state current.state
      then pure current
      else reconnect_live current session_id endpoint_id role expected

abbrev pub is_signalling : SessionState → Bool
is_signalling s = state_eq s negotiating || state_eq s reconnecting

unfoldable pub refresh_ticket : String → String → Role → Action TicketResult
refresh_ticket session_id endpoint_id role = do
  s ← get_session_for role session_id endpoint_id
  fail_if (not (is_signalling s.state)) conflict
  issue s endpoint_id role

-- `role` is not checked further here: a ticket of another role does not exist.
abbrev pub is_endpoint_of : Role → String → Session → Bool
is_endpoint_of controller endpoint_id s = str_eq s.controller_device_id endpoint_id
is_endpoint_of host endpoint_id s = str_eq s.host_id endpoint_id
is_endpoint_of (other _) endpoint_id s = true

unfoldable pub consume_ticket : String → String → String → Role → ℤ → Action TicketClaims
consume_ticket ticket session_id endpoint_id role revision = do
  s ← get_session session_id
  fail_if (not (revision_eq s.revision revision) || not (is_signalling s.state)) conflict
  fail_if (not (is_endpoint_of role endpoint_id s)) unauthorized
  validate_and_consume ticket session_id endpoint_id role revision
