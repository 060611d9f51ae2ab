-- ===== src/Remote/Tickets.antt =====
-- backend/internal/remote/tickets.go: signed single-use tickets, with the statements of
-- repository.go on remote_ticket_nonces. HMAC-SHA256, base64 and JSON are functions of the
-- environment; a ticket's text is its payload, a dot and its signature.
mod Format
pub mod Once
pub mod Join
pub mod RoundTrip
unfoldable pub use Format.*
use serein.Base.{
  ℕ, ◌+◌, ◌*◌, ◌/◌, Bool, true, false, not, ◌&&◌, ◌||◌, Option, none, some, String, len, List, [],
  ◌∷◌, ◌++◌, ◌^^◌, str_eq, ltb, leb, ◌==◌, if◌then◌else◌, keep_if, ℤ, pos, negsuc,
}
use serein.Base.Table.{find_key, update_key, affected, insert_key}
use serein.Remote.Model.{Role, controller, host, other, Session, TicketClaims, TicketResult}
use serein.Remote.World.{
  Error, not_found, conflict, ticket_consumed, ticket_expired, message, Action, pure, fail, gets,
  asks, or_fail, ◌>>=◌, ◌>>◌, modify, fail_if, new_random, Nonce,
}

abbrev pub second : ℕ
second = 1_000_000_000

-- `t.Unix()`
abbrev pub unix : ℕ → ℕ
unix t = t / second

abbrev pub nonce_key : Nonce → String
nonce_key n = n.nonce_hash

abbrev pub put_nonces : Option (List Nonce) → Action (Unit {0})
put_nonces none = fail (message "UNIQUE constraint failed: remote_ticket_nonces.nonce_hash")
put_nonces (some rows) = modify λ w. record w { nonces = rows }

unfoldable pub create_ticket_nonce : Nonce → Action (Unit {0})
create_ticket_nonce n = do put_nonces (← gets (λ w. insert_key nonce_key n w.nonces))

unfoldable pub delete_expired_ticket_nonces : ℕ → Action (Unit {0})
delete_expired_ticket_nonces now =
    modify λ w. record w { nonces = keep_if (λ n. ltb now n.expires_at) w.nonces }

abbrev pub is_unconsumed : Nonce → Bool
is_unconsumed n = elim n.consumed_at [ none ↦ true | some _ ↦ false ]

-- `session_id=? AND endpoint_id=? AND role=? AND revision=?`
unfoldable pub is_scope : String → String → Role → ℤ → Nonce → Bool
is_scope session_id endpoint_id role revision n =
    str_eq n.session_id session_id
    && str_eq n.endpoint_id endpoint_id
    && role_eq n.role role
    && revision_eq n.revision revision

abbrev pub refusal : ℕ → Option Nonce → Error
refusal now none = not_found
refusal now (some n) =
    if not (is_unconsumed n)
    then ticket_consumed
    else if leb n.expires_at now
    then ticket_expired
    else conflict

unfoldable pub consume_ticket_nonce : String → String → String → Role → ℤ → ℕ → Action (Unit {0})
consume_ticket_nonce hash session_id endpoint_id role revision now = do
  n ← gets (λ w.
      affected nonce_key hash
        (λ r.
          is_scope session_id endpoint_id role revision r
          && is_unconsumed r
          && ltb now r.expires_at)
        w.nonces)
  modify (λ w. record w {
    nonces =
        update_key nonce_key hash
          (λ r.
            is_scope session_id endpoint_id role revision r
            && is_unconsumed r
            && ltb now r.expires_at)
          (λ r. record r { consumed_at = some now }) w.nonces;
  })
  row ← gets (λ w. find_key nonce_key hash w.nonces)
  fail_if (not (n == 1)) (refusal now row)

abbrev pub ticket_audience : String
ticket_audience = "serein-remote"

abbrev pub ticket_ttl : ℕ
ticket_ttl = 90 * second

abbrev pub is_endpoint_role : Role → Bool
is_endpoint_role controller = true
is_endpoint_role host = true
is_endpoint_role (other _) = false

abbrev pub claims_for : Session → String → Role → String → ℕ → TicketClaims
claims_for session endpoint_id role nonce now = record {
  audience = ticket_audience;
  session_id = session.id;
  endpoint_id = endpoint_id;
  role = role;
  capabilities = session.granted_capabilities;
  revision = session.revision;
  nonce = nonce;
  issued_at = unix now;
  expires_at = unix (now + ticket_ttl);
}

unfoldable pub issue : Session → String → Role → Action TicketResult
issue session endpoint_id role = do
  fail_if (str_eq endpoint_id "" || not (is_endpoint_role role))
      (message "invalid remote ticket endpoint")
  now ← asks (λ e. e.now)
  delete_expired_ticket_nonces now
  nonce ← new_random
  payload ← asks (λ e. e.encode64 (e.marshal (claims_for session endpoint_id role nonce now)))
  signature ← asks (λ e. e.encode64 (e.sign payload))
  nonce_hash ← asks (λ e. e.hash nonce)
  create_ticket_nonce (record {
    nonce_hash = nonce_hash;
    session_id = session.id;
    endpoint_id = endpoint_id;
    role = role;
    revision = session.revision;
    expires_at = now + ticket_ttl;
    consumed_at = none;
    created_at = now;
  })
  pure (record {
    ticket = payload ^^ ("." ^^ signature);
    expires_at = now + ticket_ttl;
    revision = session.revision;
  })

abbrev pub is_in_scope : TicketClaims → String → String → Role → ℤ → Bool
is_in_scope c session_id endpoint_id role revision =
    str_eq c.audience ticket_audience
    && str_eq c.session_id session_id
    && str_eq c.endpoint_id endpoint_id
    && role_eq c.role role
    && revision_eq c.revision revision
    && not (str_eq c.nonce "")

-- Clocks may differ by 30 seconds on the way of issue.
abbrev pub is_current : ℕ → TicketClaims → Bool
is_current now c = ltb (unix now) c.expires_at && leb c.issued_at (unix (now + 30 * second))

unfoldable pub validate_and_consume : String → String → String → Role → ℤ → Action TicketClaims
validate_and_consume token session_id endpoint_id role revision = do
  fail_if (len token == 0 || ltb 4096 (len token)) (message "invalid remote ticket size")
  (payload, mac) ← or_fail (two_parts token) (message "invalid remote ticket format")
  signature ← or_fail (← asks (λ e. e.decode64 mac)) (message "invalid remote ticket signature")
  want ← asks (λ e. e.sign payload)
  fail_if (not (str_eq signature want)) (message "invalid remote ticket signature")
  body ← or_fail (← asks (λ e. e.decode64 payload)) (message "invalid remote ticket payload")
  claims ← or_fail (← asks (λ e. e.unmarshal body)) (message "invalid remote ticket claims")
  now ← asks (λ e. e.now)
  fail_if (not (is_in_scope claims session_id endpoint_id role revision))
      (message "remote ticket scope mismatch")
  fail_if (not (is_current now claims)) ticket_expired
  nonce_hash ← asks (λ e. e.hash claims.nonce)
  consume_ticket_nonce nonce_hash session_id endpoint_id role revision now
  pure claims
