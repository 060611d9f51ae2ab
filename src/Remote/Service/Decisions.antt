-- ===== src/Remote/Service/Decisions.antt =====
-- backend/internal/remote/service.go: what the primary phone, the host and the controller decide of
-- a session. A revision of 0 stands for the one that was just read.
use serein.Base.{
  ℕ, zero, suc, none, some, String, List, [], ◌∷◌, str_eq, if◌then◌else◌, ℤ, pos, negsuc,
}
use serein.Remote.Model.{
  Session, SessionState, TicketResult, Role, text, number, is_terminal_state, requesting,
  waiting_primary, waiting_host, waiting_consent, negotiating, connected_view, connected_control,
  reconnecting, ending, ended,
}
use serein.Remote.World.{unauthorized, Action, pure, asks, ◌>>=◌, ◌>>◌, fail_if, EventType}
use serein.Remote.Capability.{normalize_end_reason}
use serein.Remote.Repository.{get_session, transition_session, approve_primary_session, Change}
use serein.Remote.Audit.{audit}
use serein.Remote.Tickets.{issue}
use serein.Remote.Service.Hosts.{emit}
use serein.Remote.Service.Timeout.{get_session_for_controller, get_session_for_host}

abbrev pub or_revision : ℤ → ℕ → ℤ
or_revision (pos zero) revision = pos revision
or_revision (pos (suc n)) revision = pos (suc n)
or_revision (negsuc n) revision = negsuc n

abbrev pub to_ended : String → Change
to_ended reason = record { next_state = ended; granted = none; transport = ""; end_reason = reason }

-- A waiting request goes to the host's consent, whatever its age.
unfoldable pub approve_by_primary : String → String → ℤ → Action Session
approve_by_primary session_id primary_id expected = do
  fail_if (str_eq primary_id "") unauthorized
  now ← asks (λ e. e.now)
  updated ← approve_primary_session session_id expected now
  audit session_id "primary_device" primary_id "remote.session.primary_approved"
      (("revision", number updated.revision) ∷ [])
  emit EventType.primary_approved updated
  pure updated

unfoldable pub reject_by_primary : String → String → String → ℤ → Action Session
reject_by_primary session_id primary_id raw_reason expected = do
  fail_if (str_eq primary_id "") unauthorized
  current ← get_session session_id
  now ← asks (λ e. e.now)
  let reason = normalize_end_reason raw_reason "rejected_by_primary"
  updated ←
      transition_session session_id (or_revision expected current.revision) (waiting_primary ∷ [])
        (to_ended reason) now
  audit session_id "primary_device" primary_id "remote.session.primary_rejected"
      (("reason", text reason) ∷ [])
  emit EventType.ended updated
  pure updated

abbrev pub to_negotiating : List String → Change
to_negotiating granted = record {
  next_state = negotiating;
  granted = some granted;
  transport = "webrtc";
  end_reason = "";
}

unfoldable pub accept : String → String → ℤ → Action (Session × TicketResult)
accept session_id host_id expected = do
  current ← get_session_for_host session_id host_id
  now ← asks (λ e. e.now)
  updated ←
      transition_session session_id (or_revision expected current.revision) (waiting_consent ∷ [])
        (to_negotiating current.requested_capabilities) now
  ticket ← issue updated host_id Role.host
  audit session_id "host" host_id "remote.session.accepted"
      (("revision", number updated.revision) ∷ [])
  emit EventType.accepted updated
  pure (updated, ticket)

unfoldable pub reject : String → String → String → ℤ → Action Session
reject session_id host_id raw_reason expected = do
  current ← get_session_for_host session_id host_id
  now ← asks (λ e. e.now)
  let reason = normalize_end_reason raw_reason "rejected_by_host"
  updated ←
      transition_session session_id (or_revision expected current.revision)
        (waiting_host ∷ waiting_consent ∷ []) (to_ended reason) now
  audit session_id "host" host_id "remote.session.rejected" (("reason", text reason) ∷ [])
  emit EventType.ended updated
  pure updated

abbrev pub live_states : List SessionState
live_states =
    requesting ∷ waiting_primary ∷ waiting_host ∷ waiting_consent ∷ negotiating ∷ connected_view
    ∷ connected_control ∷ reconnecting ∷ ending ∷ []

unfoldable pub end_live : Session → String → String → String → ℤ → Action Session
end_live current actor_type actor_id raw_reason expected = do
  now ← asks (λ e. e.now)
  let reason = normalize_end_reason raw_reason "ended_by_user"
  updated ←
      transition_session current.id (or_revision expected current.revision) live_states
        (to_ended reason) now
  audit current.id actor_type actor_id "remote.session.ended" (("reason", text reason) ∷ [])
  emit EventType.ended updated
  pure updated

-- `end`: a session that is over stays as it is.
unfoldable pub end : Session → String → String → String → ℤ → Action Session
end current actor_type actor_id reason expected =
    if is_terminal_state current.state
    then pure current
    else end_live current actor_type actor_id reason expected

unfoldable pub end_by_controller : String → String → String → ℤ → Action Session
end_by_controller session_id controller_id reason expected = do
  current ← get_session_for_controller session_id controller_id
  end current "controller" controller_id reason expected

unfoldable pub end_by_host : String → String → String → ℤ → Action Session
end_by_host session_id host_id reason expected = do
  current ← get_session_for_host session_id host_id
  end current "host" host_id reason expected
