-- ===== src/Remote/Service/Request.antt =====
-- backend/internal/remote/service.go: a phone's request for a session.
use serein.Base.{
  Bool, true, false, not, ◌&&◌, Option, none, some, String, [], ◌∷◌, str_eq, if◌then◌else◌,
  trim_space, contains,
}
use serein.Remote.Model.{
  Session, SessionState, RequestSessionInput, waiting_primary, waiting_host, waiting_consent,
  state_name,
}
use serein.Remote.World.{
  unauthorized, invalid_capability, Action, pure, asks, ◌>>=◌, ◌>>◌, fail_if, from_result, new_uuid,
  EventType,
}
use serein.Remote.Capability.{
  capability_input, host_supports_view, host_supports_input, normalize_requested_capabilities,
}
use serein.Remote.Repository.{upsert_authorization, insert_session}
use serein.Remote.Audit.{audit}
use serein.Remote.Service.Hosts.{emit, get_host, is_fresh}

abbrev is_null : {A : Type 0} → Option A → Bool
is_null none = true
is_null (some _) = false

-- Only the primary phone reaches the host at once, and asks its consent at once if the host has been
-- heard of within 30 seconds.
unfoldable pub first_state : Bool → Bool → SessionState
first_state primary online =
    if primary then if online then waiting_consent else waiting_host else waiting_primary

unfoldable pub request_session : String → RequestSessionInput → Action Session
request_session controller_id input = do
  fail_if (str_eq controller_id "") unauthorized
  host ← get_host (trim_space input.host_id)
  requested ← from_result (normalize_requested_capabilities input.requested_capabilities)
  fail_if (not (host_supports_view host.capabilities)) invalid_capability
  fail_if (contains requested capability_input && not (host_supports_input host.capabilities))
      invalid_capability
  now ← asks (λ e. e.now)
  let online = is_null host.revoked_at && is_fresh 30 now host
  authorization_id ← new_uuid
  upsert_authorization authorization_id host.id controller_id requested now
  id ← new_uuid
  let session : Session = record {
    id = id;
    host_id = host.id;
    controller_device_id = controller_id;
    controller_is_primary = input.primary_device;
    primary_approved = input.primary_device;
    state = first_state input.primary_device online;
    revision = 1;
    requested_capabilities = requested;
    granted_capabilities = [];
    transport_type = "";
    requested_at = now;
    updated_at = now;
    started_at = none;
    ended_at = none;
    end_reason = "";
  }
  insert_session session
  audit id "controller" controller_id "remote.session.requested"
      (("state", state_name session.state) ∷ [])
  emit EventType.requested session
  pure session
