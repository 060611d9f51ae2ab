-- ===== src/Remote/Model.antt =====
-- backend/internal/remote/model.go: the states of a remote-control session and the records that the
-- repository stores. Times are nanoseconds on one clock; `time.Time` pointers are `Option ℕ`.
use serein.Base.{ℕ, Bool, false, Option, String, List, [], ◌∷◌, ◌||◌, ◌==◌, ℤ}

pub data SessionState : Type 0 where
  requesting waiting_primary waiting_host waiting_consent negotiating : SessionState
  connected_view connected_control reconnecting ending ended failed : SessionState

abbrev pub ordinal : SessionState → ℕ
ordinal requesting = 0
ordinal waiting_primary = 1
ordinal waiting_host = 2
ordinal waiting_consent = 3
ordinal negotiating = 4
ordinal connected_view = 5
ordinal connected_control = 6
ordinal reconnecting = 7
ordinal ending = 8
ordinal ended = 9
ordinal failed = 10

-- The states are string constants in the source, compared with `==`.
abbrev pub state_eq : SessionState → SessionState → Bool
state_eq s t = ordinal s == ordinal t

-- `contains(allowedStates, s.State)`
abbrev pub allows : List SessionState → SessionState → Bool
allows [] s = false
allows (x ∷ xs) s = state_eq x s || allows xs s

abbrev pub is_terminal_state : SessionState → Bool
is_terminal_state s = state_eq s ended || state_eq s failed

-- `role` is a string of the caller.
pub data Role : Type 0 where
  controller host : Role
  other : String → Role

pub record HostCapabilities : Type 0 where
  pub protocol_version : ℤ
  pub capture : List String
  pub video_codecs : List String
  pub transports : List String
  pub hardware_encoder : Bool
  pub input : List String
  pub monitors : ℤ
  pub unattended_enabled : Bool
  pub secure_desktop : Bool

pub record Host : Type 0 where
  pub id : String
  pub device_fingerprint : String
  pub display_name : String
  pub version : String
  pub capabilities : HostCapabilities
  pub online : Bool
  pub last_seen_at : ℕ
  pub revoked_at : Option ℕ

-- A revision starts at 1 and goes up by one: 2^63 steps are out of reach, so it does not wrap.
pub record Session : Type 0 where
  pub id : String
  pub host_id : String
  pub controller_device_id : String
  pub controller_is_primary : Bool
  pub primary_approved : Bool
  pub state : SessionState
  pub revision : ℕ
  pub requested_capabilities : List String
  pub granted_capabilities : List String
  pub transport_type : String
  pub requested_at : ℕ
  pub updated_at : ℕ
  pub started_at : Option ℕ
  pub ended_at : Option ℕ
  pub end_reason : String

-- A value of the metadata of an audit event.
pub data Value : Type 0 where
  text : String → Value
  number : ℕ → Value
  state_name : SessionState → Value

-- A row of remote_audit_events. The session is `none` where the column is NULL.
pub record AuditEvent : Type 0 where
  pub id : String
  pub session_id : Option String
  pub actor_type : String
  pub actor_id : String
  pub event_type : String
  pub safe_metadata : List (String × Value)
  pub client_ip : String
  pub created_at : ℕ

pub record TicketClaims : Type 0 where
  pub audience : String
  pub session_id : String
  pub endpoint_id : String
  pub role : Role
  pub capabilities : List String
  pub revision : ℕ
  pub nonce : String
  pub issued_at : ℕ
  pub expires_at : ℕ

pub record RegisterHostInput : Type 0 where
  pub id : String
  pub device_fingerprint : String
  pub display_name : String
  pub version : String
  pub capabilities : HostCapabilities
  pub rotate_credential : Bool

pub record HeartbeatHostInput : Type 0 where
  pub version : String
  pub capabilities : Option HostCapabilities

pub record HostRegistrationResult : Type 0 where
  pub host : Host
  pub host_token : String

pub record RequestSessionInput : Type 0 where
  pub host_id : String
  pub requested_capabilities : List String
  pub primary_device : Bool
  pub controller_is_primary : Bool

pub record TicketResult : Type 0 where
  pub ticket : String
  pub expires_at : ℕ
  pub revision : ℕ
