-- ===== src/Remote/Tests/Access.antt =====
-- The theorems on capabilities, credentials, tickets and audit events at the worlds of Remote/Tests.
use serein.Base.{arith, ◌*◌, ◌≡◌, refl, true, none, some, String, List, [], ◌∷◌, pos, All}
use serein.Base.Table.{find_key, update_key}
use serein.Remote.Model.{host}
use serein.Remote.World.{World, ok, ◌>>=◌}
use serein.Remote.Tickets.{second, validate_and_consume}
use serein.Remote.Tickets.{issue, claims_for}
use serein.Remote.Tickets.RoundTrip.{Works, its_ticket, validate_and_consume-issue}
use serein.Remote.Run.{empty}
use serein.Base.{length, ◌≤◌, ◌≢◌, ◌↔◌, trim_space}
use serein.Remote.Model.{AuditEvent, Host}
use serein.Remote.Service.{authenticate_host, revoke_host_credential}
use serein.Remote.Repository.{revoke_host_credential as revoke_row}
use serein.Remote.Authentication.{IsAuthentic, authenticate_host_lem, authenticate_host-revoke}
use serein.Remote.Audit.{audit, list_audit_for_controller}
use serein.Remote.Audit.Privacy.{IsOwn, list_audit_for_controller_lem}
use serein.Remote.Tests.{nth_name, at, abilities, waiting, holding, accepted}

accepted-Works : Works (at 1000) empty accepted "h1" host "x"
unfolding find_key nth_name
accepted-Works = record {
  payload_no_dot = refl;
  mac_no_dot = refl;
  payload_decodes = refl;
  mac_decodes = refl;
  parses = refl;
  draws = refl;
  not_empty = refl;
  is_new = refl;
  fits = omega arith;
}

validate_and_consume-issue_example :
    ((issue accepted "h1" host (at 1000) empty).0
      ≡ ok (its_ticket (at 1000) accepted "h1" host "x"))
    × ((validate_and_consume
          (its_ticket (at 1000) accepted "h1" host "x").ticket
          "s1"
          "h1"
          host
          (pos 2)
          (at 1089)
          (issue accepted "h1" host (at 1000) empty).1).0
        ≡ ok (claims_for accepted "h1" host "x" (1000 * second)))
validate_and_consume-issue_example =
    validate_and_consume-issue (at 1000) empty accepted "h1" host "x" accepted-Works refl refl
      (1089 * second) (omega arith) (omega arith)

abbrev asked : List String
asked = "input" ∷ " view" ∷ []

abbrev desk : Host
desk = record {
  id = "h1";
  device_fingerprint = "f1";
  display_name = "desk";
  version = "1";
  capabilities = abilities;
  online = true;
  last_seen_at = 1000 * second;
  revoked_at = none;
}

abbrev registered : World
registered = record empty {
  hosts = desk ∷ [];
  credentials =
      record {
        host_id = "h1";
        token_hash = "secret";
        created_at = 1000 * second;
        rotated_at = none;
        revoked_at = none;
      }
      ∷ [];
}

authenticate_host_example :
    ((authenticate_host " h1" "secret" (at 1001) registered).0 ≡ ok tt)
    ↔ IsAuthentic (at 1001) registered (trim_space " h1") "secret"
authenticate_host_example = authenticate_host_lem " h1" "secret" (at 1001) registered

abbrev revoked : World
revoked = (revoke_host_credential "h1" (at 1001) registered).1

authenticate_host-revoke_example : (authenticate_host "h1" "secret" (at 1002) revoked).0 ≢ ok tt
unfolding revoke_host_credential revoke_row find_key update_key trim_space audit ◌>>=◌
authenticate_host-revoke_example =
    authenticate_host-revoke "h1" "secret" (at 1001) (at 1002) registered revoked refl

abbrev event : AuditEvent
event = record {
  id = "a1";
  session_id = some "s1";
  actor_type = "controller";
  actor_id = "phone2";
  event_type = "remote.session.requested";
  safe_metadata = [];
  client_ip = "";
  created_at = 1000 * second;
}

has_session : event.session_id ≢ some ""
has_session h = cc

list_audit_example :
    (events : List AuditEvent) × (list_audit_for_controller "phone2" ""
        (pos 10)
        (at 1001)
        (record (holding waiting) { audits = event ∷ [] })
      ≡ (ok events, record (holding waiting) { audits = event ∷ [] }))
    × (length events ≤ 200)
    × All (IsOwn (waiting ∷ []) "phone2") events
list_audit_example =
    list_audit_for_controller_lem "phone2" "" (pos 10) (at 1001)
      (record (holding waiting) { audits = event ∷ [] }) refl (has_session, tt)
