-- ===== src/Remote/Service/Hosts.antt =====
-- backend/internal/remote/service.go: registration, credentials and heartbeats of hosts. A heartbeat
-- or a registration moves the sessions that wait for the host on to its consent.
use serein.Base.{
  ℕ, ◌+◌, ◌*◌, Bool, true, false, not, ◌&&◌, ◌||◌, Option, none, some, String, len, List, [], ◌∷◌,
  ◌++◌, map, str_eq, ltb, if◌then◌else◌, trim_space, pos,
}
use serein.Remote.Model.{
  Host, HostCapabilities, Session, RegisterHostInput, HeartbeatHostInput, HostRegistrationResult,
  waiting_host, waiting_consent, text,
}
use serein.Remote.World.{
  Error, not_found, unauthorized, message, Result, ok, err, Action, pure, fail, asks, ◌>>=◌, ◌>>◌,
  modify, fail_if, attempt, new_random, EventType, consent_required,
}
use serein.Remote.Capability.{validate_host_capabilities}
use serein.Remote.Repository.{
  upsert_host, touch_host, get_host as read_host, list_hosts as read_hosts, host_credential_hash,
  host_credential_age, set_host_credential, revoke_host_credential as revoke_credential_row,
  list_sessions_by_host_state, transition_session, Change,
}
use serein.Remote.Audit.{audit}
use serein.Remote.Tickets.{second}

unfoldable pub emit : EventType → Session → Action (Unit {0})
emit t s = modify λ w. record w { events = w.events ++ record { event_type = t; session = s } ∷ [] }

abbrev pub to_consent : Change
to_consent = record {
  next_state = waiting_consent;
  granted = none;
  transport = "";
  end_reason = "";
}

abbrev pub announce : String → String → Result Session → Action (Unit {0})
announce id host_id (err x) = pure tt
announce id host_id (ok s) = do
  audit id "host" host_id "remote.session.consent_required" []
  emit consent_required s

-- The loop of `promoteWaitingHost`: a transition that fails is passed over.
unfoldable pub promote_all : String → ℕ → List Session → Action (Unit {0})
promote_all host_id now [] = pure tt
promote_all host_id now (item ∷ items) = do
  advanced ←
      attempt (transition_session item.id (pos item.revision) (waiting_host ∷ []) to_consent now)
  announce item.id host_id advanced
  promote_all host_id now items

unfoldable pub promote_waiting_host : String → ℕ → Action (Unit {0})
promote_waiting_host host_id now = do
  pending ← list_sessions_by_host_state host_id waiting_host
  promote_all host_id now pending

abbrev is_bad_identity : String → String → String → String → Bool
is_bad_identity id fingerprint name version =
    str_eq id ""
    || ltb 128 (len id)
    || str_eq fingerprint ""
    || ltb 256 (len fingerprint)
    || str_eq name ""
    || ltb 128 (len name)
    || ltb 64 (len version)

abbrev pub fail_some : Option Error → Action (Unit {0})
fail_some none = pure tt
fail_some (some x) = fail x

unfoldable pub register_host : RegisterHostInput → Action Host
register_host input = do
  let id = trim_space input.id
  let fingerprint = trim_space input.device_fingerprint
  let name = trim_space input.display_name
  fail_if (is_bad_identity id fingerprint name input.version)
      (message "invalid remote host identity")
  fail_some (validate_host_capabilities input.capabilities)
  now ← asks (λ e. e.now)
  let host : Host = record {
    id = id;
    device_fingerprint = fingerprint;
    display_name = name;
    version = input.version;
    capabilities = input.capabilities;
    online = true;
    last_seen_at = now;
    revoked_at = none;
  }
  upsert_host host
  audit "" "host" id "remote.host.registered" (("version", text input.version) ∷ [])
  promote_waiting_host id now
  pure host

-- The stored credential: a missing row is no error here.
abbrev pub needs_credential : Result (String × Bool) → Action Bool
needs_credential (ok _) = pure false
needs_credential (err not_found) = pure true
needs_credential (err x) = fail x

abbrev pub issue_credential : Host → Bool → Action HostRegistrationResult
issue_credential host is_new = do
  token ← new_random
  now ← asks (λ e. e.now)
  hashed ← asks (λ e. e.hash token)
  set_host_credential host.id hashed now
  audit "" "host" host.id
      (if is_new then "remote.host.credential_issued" else "remote.host.credential_rotated") []
  pure (record { host = host; host_token = token })

unfoldable pub register_host_credential : RegisterHostInput → Action HostRegistrationResult
register_host_credential input = do
  host ← register_host input
  found ← attempt (host_credential_hash host.id)
  is_new ← needs_credential found
  let rotates = is_new || input.rotate_credential
  if not rotates
      then pure (record { host = host; host_token = "" })
      else issue_credential host is_new

abbrev pub credential_max_age : ℕ
credential_max_age = 7 * 24 * 3600 * second

abbrev pub is_some : Option ℕ → Bool
is_some none = false
is_some (some _) = true

-- An error of `HostCredentialAge` lets the host pass.
abbrev pub check_age : String → ℕ → Result ℕ → Action (Unit {0})
check_age host_id now (err x) = pure tt
check_age host_id now (ok rotated) =
    if ltb (rotated + credential_max_age) now
    then audit "" "host" host_id "remote.host.credential_expired" [] >> fail unauthorized
    else pure tt

abbrev pub or_unauthorized : {A : Type 0} → Result A → Action A
or_unauthorized (ok a) = pure a
or_unauthorized (err x) = fail unauthorized

unfoldable pub authenticate_host : String → String → Action (Unit {0})
authenticate_host raw_id token = do
  let host_id = trim_space raw_id
  fail_if (str_eq host_id "" || str_eq token "") unauthorized
  (stored, revoked) ← or_unauthorized (← attempt (host_credential_hash host_id))
  fail_if revoked unauthorized
  presented ← asks (λ e. e.hash token)
  fail_if (not (str_eq stored presented)) unauthorized
  host ← or_unauthorized (← attempt (read_host host_id))
  fail_if (is_some host.revoked_at) unauthorized
  now ← asks (λ e. e.now)
  check_age host_id now (← attempt (host_credential_age host_id))

unfoldable pub revoke_host_credential : String → Action (Unit {0})
revoke_host_credential raw_id = do
  let host_id = trim_space raw_id
  fail_if (str_eq host_id "") not_found
  now ← asks (λ e. e.now)
  revoke_credential_row host_id now
  audit "" "host" host_id "remote.host.credential_revoked" []

abbrev pub refresh : HeartbeatHostInput → HostCapabilities → ℕ → Host → Host
refresh input capabilities now h = record h {
  capabilities = capabilities;
  version = if str_eq input.version "" then h.version else input.version;
  online = true;
  last_seen_at = now;
}

abbrev pub heartbeat_row : String → Option HeartbeatHostInput → ℕ → Action (Unit {0})
heartbeat_row host_id none now = touch_host host_id now
heartbeat_row host_id (some input) now = elim input.capabilities [
  | none ↦ touch_host host_id now
  | some capabilities ↦
      fail_if (ltb 64 (len input.version)) (message "invalid remote host version")
      >> (fail_some (validate_host_capabilities capabilities)
          >> (read_host host_id >>= λ current.
              upsert_host (refresh input capabilities now current)))
]

unfoldable pub heartbeat_host : String → Option HeartbeatHostInput → Action Host
heartbeat_host host_id input = do
  now ← asks (λ e. e.now)
  heartbeat_row host_id input now
  promote_waiting_host host_id now
  read_host host_id

-- `LastSeenAt.After(now - 90s)`, with the seconds on the other side.
abbrev pub is_fresh : ℕ → ℕ → Host → Bool
is_fresh seconds now h = ltb now (h.last_seen_at + seconds * second)

unfoldable pub list_hosts : Action (List Host)
list_hosts = do
  hosts ← read_hosts
  now ← asks (λ e. e.now)
  pure (
      map {A = Host}
        (λ h. record h { online = h.online && is_fresh 90 now h && not (is_some h.revoked_at) })
        hosts)

unfoldable pub get_host : String → Action Host
get_host host_id = do
  host ← read_host host_id
  now ← asks (λ e. e.now)
  pure (if is_fresh 90 now host then host else record host { online = false })
