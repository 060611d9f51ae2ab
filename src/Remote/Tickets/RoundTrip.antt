-- ===== src/Remote/Tickets/RoundTrip.antt =====
-- A ticket that was issued is accepted at the endpoint that it was issued for.
use text.Mathlib.TextPositions.{len-append}
use Prim.Native.Nat.{◌≤◌, ◌<◌, ◌/◌}
use serein.Base.{
  ℕ, ◌+◌, ◌≡◌, refl, ◌∙◌, ap, true, false, none, some, String, [], ◌∷◌, pos, arith, ◌^^◌, ltb,
  keep_if, suc, ◌++◌, str_eq, eq_refl, len,
}
use serein.Base.Table.{find_key, find_key-append, find_key-keep_if}
use serein.Remote.Model.{Session, Role, TicketClaims, TicketResult}
use serein.Remote.World.{Env, World, Nonce, ok, ◌>>=◌}
use serein.Remote.Tickets.{
  nonce_key, issue, validate_and_consume, claims_for, consume_ticket_nonce, create_ticket_nonce,
  delete_expired_ticket_nonces, is_endpoint_role, is_scope, is_current, is_in_scope, role_eq,
  second, ticket_ttl,
}
use serein.Remote.Tickets.Once.{consume_ticket_nonce_lem, validate_verified, IsVerified}
use serein.Remote.Tickets.Join.{has_no_dot, two_parts-join}

abbrev pub payload_of : Env → Session → String → Role → String → String
payload_of e s endpoint role nonce = e.encode64 (e.marshal (claims_for s endpoint role nonce e.now))

abbrev pub mac_of : Env → Session → String → Role → String → String
mac_of e s endpoint role nonce = e.encode64 (e.sign (payload_of e s endpoint role nonce))

abbrev pub ticket_text : Env → Session → String → Role → String → String
ticket_text e s endpoint role nonce =
    payload_of e s endpoint role nonce ^^ ("." ^^ mac_of e s endpoint role nonce)

abbrev pub its_ticket : Env → Session → String → Role → String → TicketResult
its_ticket e s endpoint role nonce = record {
  ticket = ticket_text e s endpoint role nonce;
  expires_at = e.now + ticket_ttl;
  revision = s.revision;
}

abbrev nonce_row : Env → Session → String → Role → String → Nonce
nonce_row e s endpoint role nonce = record {
  nonce_hash = e.hash nonce;
  session_id = s.id;
  endpoint_id = endpoint;
  role = role;
  revision = s.revision;
  expires_at = e.now + ticket_ttl;
  consumed_at = none;
  created_at = e.now;
}

-- What the generators, base64 and JSON of an environment have to do for the ticket: the base64 of the
-- claims and of their signature have no dot and are decoded to these, JSON gives the claims back, the
-- nonce that is drawn is a text whose hash is new, and the ticket fits into 4096 bytes.
pub record Works (e : Env) (w : World) (s : Session) (endpoint : String) (role : Role)
    (nonce : String) : Type 0 where
  pub payload_no_dot : has_no_dot (payload_of e s endpoint role nonce) ≡ true
  pub mac_no_dot : has_no_dot (mac_of e s endpoint role nonce) ≡ true
  pub payload_decodes :
      e.decode64 (payload_of e s endpoint role nonce)
      ≡ some (e.marshal (claims_for s endpoint role nonce e.now))
  pub mac_decodes :
      e.decode64 (mac_of e s endpoint role nonce)
      ≡ some (e.sign (payload_of e s endpoint role nonce))
  pub parses :
      e.unmarshal (e.marshal (claims_for s endpoint role nonce e.now))
      ≡ some (claims_for s endpoint role nonce e.now)
  pub draws : e.random w.drawn ≡ some nonce
  pub not_empty : str_eq nonce "" ≡ false
  pub is_new : find_key nonce_key (e.hash nonce) w.nonces ≡ none
  pub fits : len (ticket_text e s endpoint role nonce) ≤ 4096

module _ (e : Env) (w : World) (s : Session) (endpoint : String) (role : Role) (nonce : String)
    (works : Works e w s endpoint role nonce) (endpoint_ok : str_eq endpoint "" ≡ false)
    (role_ok : is_endpoint_role role ≡ true) where
  -- The rows after the expired ones are deleted do not have the nonce either.
  still_new :
      find_key nonce_key (e.hash nonce) (keep_if (λ n. ltb e.now n.expires_at) w.nonces) ≡ none
  still_new =
      find_key-keep_if nonce_key (e.hash nonce) (λ n. ltb e.now n.expires_at) w.nonces works.is_new

  abbrev issued_world : World
  issued_world = record w {
    nonces =
        keep_if (λ n. ltb e.now n.expires_at) w.nonces ++ nonce_row e s endpoint role nonce ∷ [];
    drawn = suc w.drawn;
  }

  issue_lem : issue s endpoint role e w ≡ (ok (its_ticket e s endpoint role nonce), issued_world)
  unfolding issue delete_expired_ticket_nonces create_ticket_nonce ◌>>=◌
  issue_lem = ground (arith, endpoint_ok, role_ok, works.draws, still_new)

  module _ (later : ℕ) (after : e.now ≤ later)
      (in_time : later / second < (e.now + ticket_ttl) / second) where
    abbrev env_later : Env
    env_later = record e { now = later }

    abbrev its_claims : TicketClaims
    its_claims = claims_for s endpoint role nonce e.now

    issued_current : is_current later its_claims ≡ true
    issued_current = ground arith

    role_self : role_eq role role ≡ true
    role_self = ground (arith, role_ok)

    issued_in_scope : is_in_scope its_claims s.id endpoint role (pos s.revision) ≡ true
    issued_in_scope = ground (arith, eq_refl s.id, eq_refl endpoint, role_self, works.not_empty)

    size : 1 ≤ len (ticket_text e s endpoint role nonce)
    size =
        let payload = payload_of e s endpoint role nonce in
        let mac = mac_of e s endpoint role nonce in
        omega (arith, len-append payload ("." ^^ mac), len-append "." mac)

    issued-IsVerified :
        IsVerified env_later
          (ticket_text e s endpoint role nonce)
          s.id
          endpoint
          role
          (pos s.revision)
          its_claims
    issued-IsVerified =
        let payload = payload_of e s endpoint role nonce in
        let mac = mac_of e s endpoint role nonce in
        record {
          payload = payload;
          mac = mac;
          body = e.marshal its_claims;
          short = (size, works.fits);
          parts = two_parts-join payload mac works.payload_no_dot works.mac_no_dot;
          signed = works.mac_decodes;
          decoded = works.payload_decodes;
          parsed = works.parses;
          in_scope = issued_in_scope;
          current = issued_current;
        }

    nonce_stored :
        find_key nonce_key (e.hash nonce) issued_world.nonces
        ≡ some (nonce_row e s endpoint role nonce)
    nonce_stored =
        find_key-append nonce_key (e.hash nonce) (keep_if (λ n. ltb e.now n.expires_at) w.nonces)
          (nonce_row e s endpoint role nonce) still_new refl

    scope_self :
        is_scope s.id endpoint role (pos s.revision) (nonce_row e s endpoint role nonce) ≡ true
    unfolding is_scope
    scope_self = ground (arith, eq_refl s.id, eq_refl endpoint, role_self)

    not_expired : later < e.now + ticket_ttl
    not_expired = omega arith

    consumed :
        (consume_ticket_nonce
          (e.hash nonce)
          s.id
          endpoint
          role
          (pos s.revision)
          later
          env_later
          issued_world).0
        ≡ ok tt
    consumed = ground (
      arith,
      not_expired,
      scope_self,
      consume_ticket_nonce_lem (e.hash nonce) s.id endpoint role (pos s.revision) later env_later
          issued_world (nonce_row e s endpoint role nonce) nonce_stored,
    )

    accepted_later :
        (validate_and_consume
          (ticket_text e s endpoint role nonce)
          s.id
          endpoint
          role
          (pos s.revision)
          env_later
          issued_world).0
        ≡ ok its_claims
    accepted_later = ground (
      arith,
      consumed,
      validate_verified (ticket_text e s endpoint role nonce) s.id endpoint role (pos s.revision)
          env_later issued_world its_claims issued-IsVerified,
    )

    -- The round trip: for an endpoint with a name and one of the two roles, a ticket of a session is
    -- issued, and where it is presented later for the same session, endpoint, role and revision, it is
    -- accepted with the claims that it was issued with, until the second in which its 90 seconds end.
    -- Base64, JSON, the random values and the hash are taken to work for this ticket (`Works`).
    pub validate_and_consume-issue :
        ((issue s endpoint role e w).0 ≡ ok (its_ticket e s endpoint role nonce))
        × ((validate_and_consume
              (its_ticket e s endpoint role nonce).ticket
              s.id
              endpoint
              role
              (pos s.revision)
              (record e { now = later })
              (issue s endpoint role e w).1).0
            ≡ ok (claims_for s endpoint role nonce e.now))
    validate_and_consume-issue = (
      ap (λ r. r.0) issue_lem,
      ap
            (λ r.
              (validate_and_consume (ticket_text e s endpoint role nonce) s.id endpoint role
                (pos s.revision) env_later r.1).0)
            issue_lem
          ∙ accepted_later,
    )
