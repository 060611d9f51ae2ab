-- ===== src/Remote/Lifecycle/Hosts.antt =====
-- Registration, heartbeats, credentials and new requests take the table of sessions along the diagram.
use serein.Base.{ℕ, refl, Bool, Option, none, some, String, not, ◌||◌}
use serein.Remote.Model.{
  Host, RequestSessionInput, RegisterHostInput, HeartbeatHostInput, HostCapabilities,
}
use serein.Remote.World.{Error, Result, ok, err, Action, not_found}
use serein.Remote.Service.{
  register_host, register_host_credential, authenticate_host, revoke_host_credential,
  heartbeat_host, get_host, request_session, fail_some, needs_credential, issue_credential,
  check_age, or_unauthorized, heartbeat_row,
}
use serein.Remote.Repository.{host_credential_age, revoke_host_credential as revoke_row}
use serein.Remote.Lifecycle.Rules.{
  Any, Ensures, Ensures-bind, Ensures-from_result, Ensures-new_uuid,
}
use serein.Remote.Lifecycle.Rows.{insert-Ensures}
use serein.Remote.Lifecycle.Calls.{promote_waiting_host-Ensures, told}
use serein.Remote.Lifecycle.Quiet.{
  Quiet, Quiet-pure, Quiet-fail, Quiet-gets, Quiet-asks, Quiet-bind, Quiet-if, Quiet-attempt,
  Quiet-modify, Quiet-fail_if, Ensures-Quiet, Quiet-audit, Quiet-upsert_host, Quiet-touch_host,
  Quiet-get_host, Quiet-host_credential_hash, Quiet-set_host_credential, Quiet-upsert_authorization,
  quiet_rules,
}

Quiet-fail_some : (o : Option Error) → Quiet (fail_some o)
Quiet-fail_some none = Quiet-pure _
Quiet-fail_some (some x) = Quiet-fail x

quietly : {A : Type 0} (m : Action A) → Quiet m → Ensures Any m (λ _. Any)
quietly m q = Ensures-Quiet m Any q

pub register_host-Ensures :
    (input : RegisterHostInput) → Ensures Any (register_host input) (λ _. Any)
unfolding register_host
register_host-Ensures input = Ensures-bind _ _ _ _ _ (quietly _ (Quiet-fail_if _ _)) λ _.
    Ensures-bind _ _ _ _ _ (quietly _ (Quiet-fail_some _)) λ _.
      Ensures-bind _ _ _ _ _ (quietly _ (Quiet-asks _)) λ now.
        Ensures-bind _ _ _ _ _ (quietly _ (Quiet-upsert_host _)) λ _.
          Ensures-bind _ _ _ _ _ (quietly _ (Quiet-audit _ _ _ _ _)) λ _.
            Ensures-bind _ _ _ _ _ (promote_waiting_host-Ensures _ now)
              (λ _. quietly _ (Quiet-pure _))

Quiet-needs_credential : (r : Result (String × Bool)) → Quiet (needs_credential r)
Quiet-needs_credential (ok p) = Quiet-pure _
Quiet-needs_credential (err not_found) = Quiet-pure _
Quiet-needs_credential (err x) = Quiet-fail _

Quiet-issue_credential : (h : Host) (is_new : Bool) → Quiet (issue_credential h is_new)
Quiet-issue_credential h is_new =
    search (quiet_rules, Quiet-set_host_credential, Quiet-audit) depth 12

pub register_host_credential-Ensures :
    (input : RegisterHostInput) → Ensures Any (register_host_credential input) (λ _. Any)
unfolding register_host_credential
register_host_credential-Ensures input =
    Ensures-bind _ _ _ _ _ (register_host-Ensures input) λ host.
      Ensures-bind _ _ _ _ _ (quietly _ (Quiet-attempt _ (Quiet-host_credential_hash _))) λ found.
        Ensures-bind _ _ _ _ _ (quietly _ (Quiet-needs_credential found)) λ is_new. quietly _ (
          Quiet-if (not (is_new || input.rotate_credential)) _ _ (Quiet-pure _)
            (Quiet-issue_credential host is_new))

Quiet-check_age : (id : String) (now : ℕ) (r : Result ℕ) → Quiet (check_age id now r)
Quiet-check_age id now (err x) = Quiet-pure _
Quiet-check_age id now (ok t) =
    Quiet-if _ _ _ (Quiet-bind _ _ (Quiet-audit _ _ _ _ _) (λ _. Quiet-fail _)) (Quiet-pure _)

Quiet-or_unauthorized : {A : Type 0} (r : Result A) → Quiet (or_unauthorized r)
Quiet-or_unauthorized (ok a) = Quiet-pure a
Quiet-or_unauthorized (err x) = Quiet-fail _

Quiet-host_credential_age : (id : String) → Quiet (host_credential_age id)
unfolding host_credential_age
Quiet-host_credential_age id = search quiet_rules

pub Quiet-authenticate_host : (id token : String) → Quiet (authenticate_host id token)
unfolding authenticate_host
Quiet-authenticate_host id token = Quiet-bind _ _ (Quiet-fail_if _ _) λ _.
    Quiet-bind _ _ (Quiet-attempt _ (Quiet-host_credential_hash _)) λ r.
      Quiet-bind _ _ (Quiet-or_unauthorized r) λ p. Quiet-bind _ _ (Quiet-fail_if _ _) λ _.
        Quiet-bind _ _ (Quiet-asks _) λ h. Quiet-bind _ _ (Quiet-fail_if _ _) λ _.
          Quiet-bind _ _ (Quiet-attempt _ (Quiet-get_host _)) λ q.
            Quiet-bind _ _ (Quiet-or_unauthorized q) λ host. Quiet-bind _ _ (Quiet-fail_if _ _) λ _.
              Quiet-bind _ _ (Quiet-asks _) λ now.
                Quiet-bind _ _ (Quiet-attempt _ (Quiet-host_credential_age _))
                  (Quiet-check_age _ now)

Quiet-revoke_row : (id : String) (now : ℕ) → Quiet (revoke_row id now)
unfolding revoke_row
Quiet-revoke_row id now =
    Quiet-bind _ _ (Quiet-gets _)
      λ n. Quiet-bind _ _ (Quiet-fail_if _ _) λ _. Quiet-modify _ (λ w. refl)

pub Quiet-revoke_host_credential : (id : String) → Quiet (revoke_host_credential id)
unfolding revoke_host_credential
Quiet-revoke_host_credential id = search (quiet_rules, Quiet-revoke_row, Quiet-audit) depth 8

Quiet-refresh :
    (id : String) (input : HeartbeatHostInput) (c : Option HostCapabilities) (now : ℕ)
    → Quiet (heartbeat_row id (some (record input { capabilities = c })) now)
Quiet-refresh id input none now = Quiet-touch_host id now
Quiet-refresh id input (some c) now = Quiet-bind _ _ (Quiet-fail_if _ _) λ _.
    Quiet-bind _ _ (Quiet-fail_some _)
      λ _. Quiet-bind _ _ (Quiet-get_host _) λ h. Quiet-upsert_host _

Quiet-heartbeat_row :
    (id : String) (input : Option HeartbeatHostInput) (now : ℕ) → Quiet (heartbeat_row id input now)
Quiet-heartbeat_row id none now = Quiet-touch_host id now
Quiet-heartbeat_row id (some input) now = Quiet-refresh id input input.capabilities now

pub heartbeat_host-Ensures :
    (id : String) (input : Option HeartbeatHostInput)
    → Ensures Any (heartbeat_host id input) (λ _. Any)
unfolding heartbeat_host
heartbeat_host-Ensures id input = Ensures-bind _ _ _ _ _ (quietly _ (Quiet-asks _)) λ now.
    Ensures-bind _ _ _ _ _ (quietly _ (Quiet-heartbeat_row id input now)) λ _.
      Ensures-bind _ _ _ _ _ (promote_waiting_host-Ensures id now)
        (λ _. quietly _ (Quiet-get_host id))

Quiet-service_get_host : (id : String) → Quiet (get_host id)
unfolding get_host
Quiet-service_get_host id = search (quiet_rules, Quiet-get_host) depth 6

pub request_session-Ensures :
    (controller_id : String) (input : RequestSessionInput)
    → Ensures Any (request_session controller_id input) (λ _. Any)
unfolding request_session
request_session-Ensures controller_id input =
    Ensures-bind _ _ _ _ _ (quietly _ (Quiet-fail_if _ _)) λ _.
      Ensures-bind _ _ _ _ _ (quietly _ (Quiet-service_get_host _)) λ host.
        Ensures-bind _ _ _ _ _ (Ensures-from_result _ Any) λ requested.
          Ensures-bind _ _ _ _ _ (quietly _ (Quiet-fail_if _ _)) λ _.
            Ensures-bind _ _ _ _ _ (quietly _ (Quiet-fail_if _ _)) λ _.
              Ensures-bind _ _ _ _ _ (quietly _ (Quiet-asks _)) λ now.
                Ensures-bind _ _ _ _ _ (Ensures-new_uuid Any) λ a.
                  Ensures-bind _ _ _ _ _ (quietly _ (Quiet-upsert_authorization _ _ _ _ _)) λ _.
                    Ensures-bind _ _ _ _ _ (Ensures-new_uuid Any) λ id.
                      Ensures-bind _ _ _ _ _
                        (insert-Ensures _ Any (record {
                          first_revision = refl;
                          nothing_granted = refl;
                          own_approval = refl;
                          online = _;
                          first = refl;
                          not_started = refl;
                          not_ended = refl;
                        }))
                        (λ _. told _ _ _ _ _ _ _ _)
