-- ===== src/Remote/Run.antt =====
-- The calls that the API makes of the service, and sequences of them. Each call runs to its end
-- before the next, as on the one database connection; the environment of each is its own.
pub mod Refines
pub mod Sound
pub mod History
use serein.Base.{ℕ, String, List, [], ◌∷◌, Option, ℤ}
use serein.Remote.Model.{Role, RegisterHostInput, HeartbeatHostInput, RequestSessionInput, Session}
use serein.Remote.World.{Env, World}
use serein.Remote.Service.{
  register_host_credential, authenticate_host, revoke_host_credential, heartbeat_host,
  request_session, get_session_for_controller, get_session_for_host, list_pending_for_host,
  list_pending_for_primary, approve_by_primary, reject_by_primary, accept, reject,
  end_by_controller, end_by_host, mark_connected, mark_reconnecting, refresh_ticket, consume_ticket,
}

pub data Call : Type 0 where
  register : RegisterHostInput → Call
  authenticate : String → String → Call
  revoke : String → Call
  heartbeat : String → Option HeartbeatHostInput → Call
  request : String → RequestSessionInput → Call
  read_as_controller read_as_host : String → String → Call
  pending_for_host : String → Call
  pending_for_primary : Call
  approve : String → String → ℤ → Call
  refuse : String → String → String → ℤ → Call
  accepts : String → String → ℤ → Call
  rejects : String → String → String → ℤ → Call
  end_as_controller end_as_host : String → String → String → ℤ → Call
  connected : String → String → ℤ → Call
  disconnected : String → String → Role → ℤ → Call
  new_ticket : String → String → Role → Call
  use_ticket : String → String → String → Role → ℤ → Call

-- The state after a call, whatever it returns.
unfoldable pub perform : Call → Env → World → World
perform (register input) e w = (register_host_credential input e w).1
perform (authenticate id token) e w = (authenticate_host id token e w).1
perform (revoke id) e w = (revoke_host_credential id e w).1
perform (heartbeat id input) e w = (heartbeat_host id input e w).1
perform (request controller_id input) e w = (request_session controller_id input e w).1
perform (read_as_controller id controller_id) e w =
    (get_session_for_controller id controller_id e w).1
perform (read_as_host id host_id) e w = (get_session_for_host id host_id e w).1
perform (pending_for_host host_id) e w = (list_pending_for_host host_id e w).1
perform pending_for_primary e w = (list_pending_for_primary e w).1
perform (approve id primary_id revision) e w = (approve_by_primary id primary_id revision e w).1
perform (refuse id primary_id reason revision) e w =
    (reject_by_primary id primary_id reason revision e w).1
perform (accepts id host_id revision) e w = (accept id host_id revision e w).1
perform (rejects id host_id reason revision) e w = (reject id host_id reason revision e w).1
perform (end_as_controller id actor reason revision) e w =
    (end_by_controller id actor reason revision e w).1
perform (end_as_host id actor reason revision) e w = (end_by_host id actor reason revision e w).1
perform (connected id host_id revision) e w = (mark_connected id host_id revision e w).1
perform (disconnected id endpoint role revision) e w =
    (mark_reconnecting id endpoint role revision e w).1
perform (new_ticket id endpoint role) e w = (refresh_ticket id endpoint role e w).1
perform (use_ticket ticket id endpoint role revision) e w =
    (consume_ticket ticket id endpoint role revision e w).1

unfoldable pub run : List (Env × Call) → World → World
run [] w = w
run ((e, c) ∷ calls) w = run calls (perform c e w)

abbrev pub empty : World
empty = record {
  hosts = [];
  credentials = [];
  authorizations = [];
  sessions = [];
  nonces = [];
  audits = [];
  events = [];
  drawn = 0;
}
