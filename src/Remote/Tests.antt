-- ===== src/Remote/Tests.antt =====
-- The theorems on remote sessions at concrete worlds, with an environment whose hash is the text
-- itself, whose signature of a payload is "mac", and whose base64 changes nothing.
mod Scanner
mod Sessions
mod Access
use serein.Base.{
  arith, ℕ, zero, suc, ◌*◌, ◌≡◌, refl, true, false, not, ◌||◌, ◌==◌, none, some, String, List, [],
  ◌∷◌, ◌^^◌, pos, All, if◌then◌else◌,
}
use serein.Base.Table.{find_key, update_key}
use serein.Remote.Model.{
  negotiating, Session, HostCapabilities, TicketClaims, host, waiting_primary, ended, allows,
  state_eq,
}
use serein.Remote.World.{Env, World, Nonce, ok, err, conflict, ticket_consumed, ◌>>=◌}
use serein.Remote.Repository.{
  session_key, transition_session, approve_primary_session, get_session, moved, approved, is_stale,
}
use serein.Remote.Tickets.{second, consume_ticket_nonce, validate_and_consume, two_parts, is_scope}
use serein.Remote.Tickets.{issue, claims_for}
use serein.Remote.Tickets.RoundTrip.{Works, its_ticket, validate_and_consume-issue}
use serein.Remote.Tickets.Once.{consume_ticket_nonce_once, validate_and_consume_sound, IsVerified}
use serein.Remote.Service.{to_negotiating, to_ended, accept, get_session_for_host}
use serein.Remote.Lifecycle.{Lives}
use serein.Remote.Run.{
  Call, register, request, approve, accepts, connected, end_as_host, run, perform, empty,
}
use serein.Remote.Run.Refines.{run-Lives}
use serein.Remote.Run.Sound.{run-IsSound, IsSound}
use serein.Remote.Run.History.{run-Keeps, run_terminal, run_revision, Keeps}

unfoldable pub nth_name : ℕ → String
nth_name zero = "x"
nth_name (suc n) = "x" ^^ nth_name n

abbrev pub claims : TicketClaims
claims = record {
  audience = "serein-remote";
  session_id = "s1";
  endpoint_id = "h1";
  role = host;
  capabilities = "view" ∷ [];
  revision = 2;
  nonce = "x";
  issued_at = 1000;
  expires_at = 1090;
}

abbrev pub at : ℕ → Env
at t = record {
  now = t * second;
  uuid = nth_name;
  random = λ n. some (nth_name n);
  hash = λ s. s;
  sign = λ s. "mac";
  encode64 = λ s. s;
  decode64 = some;
  marshal = λ c. c.nonce;
  unmarshal = λ s. some claims;
}

abbrev pub abilities : HostCapabilities
abilities = record {
  protocol_version = pos 1;
  capture = "dxgi" ∷ [];
  video_codecs = "h264" ∷ [];
  transports = "webrtc" ∷ [];
  hardware_encoder = true;
  input = [];
  monitors = pos 1;
  unattended_enabled = false;
  secure_desktop = false;
}

abbrev pub calls : List (Env × Call)
calls =
    (
      at 1000,
      register (record {
        id = "h1";
        device_fingerprint = "f1";
        display_name = "desk";
        version = "1";
        capabilities = abilities;
        rotate_credential = false;
      }),
    )
    ∷ (
      at 1001,
      request "phone2" (record {
        host_id = "h1";
        requested_capabilities = "view" ∷ [];
        primary_device = false;
        controller_is_primary = false;
      }),
    )
    ∷ (at 1002, approve "s1" "phone1" (pos 1))
    ∷ (at 1003, accepts "s1" "h1" (pos 0))
    ∷ (at 1004, connected "s1" "h1" (pos 0))
    ∷ (at 1005, end_as_host "s1" "h1" "done" (pos 0))
    ∷ []

abbrev pub waiting : Session
waiting = record {
  id = "s1";
  host_id = "h1";
  controller_device_id = "phone2";
  controller_is_primary = false;
  primary_approved = false;
  state = waiting_primary;
  revision = 1;
  requested_capabilities = "view" ∷ [];
  granted_capabilities = [];
  transport_type = "";
  requested_at = 1000 * second;
  updated_at = 1000 * second;
  started_at = none;
  ended_at = none;
  end_reason = "";
}

abbrev pub finished : Session
finished = record waiting {
  state = ended;
  revision = 3;
  ended_at = some (1001 * second);
  end_reason = "rejected_by_primary";
}

abbrev pub nonce : Nonce
nonce = record {
  nonce_hash = "x";
  session_id = "s1";
  endpoint_id = "h1";
  role = host;
  revision = 2;
  expires_at = 1090 * second;
  consumed_at = none;
  created_at = 1000 * second;
}

abbrev pub holding : Session → World
holding s = record empty { sessions = s ∷ []; nonces = nonce ∷ [] }

abbrev pub spent_world : World
spent_world = record (holding waiting) {
  nonces = record nonce { consumed_at = some (1010 * second) } ∷ [];
}

-- The session once the host has accepted it, and the ticket that its host is given at 1000.
abbrev pub accepted : Session
accepted = record waiting {
  state = negotiating;
  primary_approved = true;
  revision = 2;
  granted_capabilities = "view" ∷ [];
}
