-- ===== src/Remote/Tickets/Once.antt =====
-- A ticket is good once, and only for the endpoint, session, role and revision that it names.
use serein.Base.{
  ℕ, ◌≤◌, ◌≡◌, refl, Bool, true, not, ◌&&◌, ◌==◌, none, some, String, ℤ, arith, if◌then◌else◌,
  Option-cases, inl, inr, ltb, str_eq, eq_iff, len, ◌||◌,
}
use serein.Base.Table.{find_key, update_key, find_key-update_self, update_key-none}
use serein.Remote.Model.{Role, TicketClaims}
use serein.Remote.World.{
  Env, World, Nonce, ok, err, ticket_consumed, ticket_expired, not_found, message, ◌>>=◌,
}
use serein.Remote.Tickets.{
  nonce_key, consume_ticket_nonce, is_scope, is_unconsumed, refusal, validate_and_consume,
  is_in_scope, is_current, two_parts,
}

abbrev spend : ℕ → Nonce → Nonce
spend now r = record r { consumed_at = some now }

abbrev is_open : String → String → Role → ℤ → ℕ → Nonce → Bool
is_open session endpoint role revision now r =
    is_scope session endpoint role revision r && is_unconsumed r && ltb now r.expires_at

module _ (hash session endpoint : String) (role : Role) (revision : ℤ) (now : ℕ) (e : Env)
    (w : World) where
  -- The statement as a whole: a row that is in scope, unconsumed and unexpired is consumed.
  pub consume_ticket_nonce_lem :
      (n : Nonce)
      → find_key nonce_key hash w.nonces ≡ some n
      → consume_ticket_nonce hash session endpoint role revision now e w ≡ (
        (if is_open session endpoint role revision now n
            then ok tt
            else err (refusal now (some n))),
        record w {
          nonces =
              update_key nonce_key hash
                (is_open session endpoint role revision now)
                (spend now)
                w.nonces;
        },
      )
  unfolding consume_ticket_nonce ◌>>=◌
  consume_ticket_nonce_lem n found = ground (
    arith,
    found,
    find_key-update_self nonce_key hash (is_open session endpoint role revision now) (spend now)
        w.nonces n found refl,
  )

  consume_missing :
      find_key nonce_key hash w.nonces ≡ none
      → (consume_ticket_nonce hash session endpoint role revision now e w).0 ≡ err not_found
  unfolding consume_ticket_nonce ◌>>=◌
  consume_missing missing = ground (
    arith,
    missing,
    update_key-none nonce_key hash (is_open session endpoint role revision now) (spend now) w.nonces
        missing,
  )

module _ (hash session endpoint : String) (role : Role) (revision : ℤ) (now : ℕ) (e : Env)
    (w w' : World)
    (first : consume_ticket_nonce hash session endpoint role revision now e w ≡ (ok tt, w')) where
  spent : (n : Nonce) × (find_key nonce_key hash w'.nonces ≡ some (spend now n))
  spent = elim (Option-cases (find_key nonce_key hash w.nonces)) [
    | inl missing ↦ cc (first, consume_missing hash session endpoint role revision now e w missing)
    | inr (n, found) ↦ (
      n,
      ground (
        arith,
        first,
        consume_ticket_nonce_lem hash session endpoint role revision now e w n found,
        find_key-update_self nonce_key hash (is_open session endpoint role revision now) (spend now)
            w.nonces n found refl,
      ),
    )
  ]

  -- After a call has consumed a nonce, the next call that presents it is refused with
  -- ticket_consumed, whatever its time, session, endpoint, role and revision.
  pub consume_ticket_nonce_once :
      (session' endpoint' : String) (role' : Role) (revision' : ℤ) (now' : ℕ) (e' : Env)
      → (consume_ticket_nonce hash session' endpoint' role' revision' now' e' w').0
        ≡ err ticket_consumed
  consume_ticket_nonce_once session' endpoint' role' revision' now' e' =
      let (n, found) = spent in
      ground (
        arith,
        consume_ticket_nonce_lem hash session' endpoint' role' revision' now' e' w' (spend now n)
            found,
      )

-- What the checks before the nonce have found in a ticket: it is signed with the server's key, its
-- claims are for this session, endpoint, role and revision, and its time has not passed.
pub record IsVerified (e : Env) (token session endpoint : String) (role : Role) (revision : ℤ)
    (c : TicketClaims) : Type 0 where
  pub payload : String
  pub mac : String
  pub body : String
  pub short : (1 ≤ len token) × (len token ≤ 4096)
  pub parts : two_parts token ≡ some (payload, mac)
  pub signed : e.decode64 mac ≡ some (e.sign payload)
  pub decoded : e.decode64 payload ≡ some body
  pub parsed : e.unmarshal body ≡ some c
  pub in_scope : is_in_scope c session endpoint role revision ≡ true
  pub current : is_current e.now c ≡ true

module _ (token session endpoint : String) (role : Role) (revision : ℤ) (e : Env) (w : World) where
  -- A verified ticket is good exactly if its nonce is.
  pub validate_verified :
      (c : TicketClaims)
      → IsVerified e token session endpoint role revision c
      → validate_and_consume token session endpoint role revision e w ≡ (
        (elim (consume_ticket_nonce (e.hash c.nonce) session endpoint role revision e.now e w).0 [
          | ok _ ↦ ok c
          | err x ↦ err x
        ]),
        (consume_ticket_nonce (e.hash c.nonce) session endpoint role revision e.now e w).1,
      )
  unfolding validate_and_consume ◌>>=◌
  validate_verified c v = ground (arith, eq_iff (e.sign v.payload) (e.sign v.payload))

  -- The checks in their order, once the text of the ticket could be read.
  readable :
      (payload mac signature body : String) (c : TicketClaims)
      → two_parts token ≡ some (payload, mac)
      → e.decode64 mac ≡ some signature
      → e.decode64 payload ≡ some body
      → e.unmarshal body ≡ some c
      → validate_and_consume token session endpoint role revision e w ≡ (
          if len token == 0 || ltb 4096 (len token)
          then (err (message "invalid remote ticket size"), w)
          else if not (str_eq signature (e.sign payload))
          then (err (message "invalid remote ticket signature"), w)
          else if not (is_in_scope c session endpoint role revision)
          then (err (message "remote ticket scope mismatch"), w)
          else if not (is_current e.now c)
          then (err ticket_expired, w)
          else (
            (elim (consume_ticket_nonce
                (e.hash c.nonce)
                session
                endpoint
                role
                revision
                e.now
                e
                w).0 [ ok _ ↦ ok c | err x ↦ err x ]),
            (consume_ticket_nonce (e.hash c.nonce) session endpoint role revision e.now e w).1,
          ))
  unfolding validate_and_consume ◌>>=◌
  readable payload mac signature body c x y z u = ground (arith, x, y, z, u)

  accepted :
      (payload mac signature body : String) (c c' : TicketClaims) (w' : World)
      → two_parts token ≡ some (payload, mac)
      → e.decode64 mac ≡ some signature
      → e.decode64 payload ≡ some body
      → e.unmarshal body ≡ some c'
      → validate_and_consume token session endpoint role revision e w ≡ (ok c, w')
      → IsVerified e token session endpoint role revision c
        × (consume_ticket_nonce (e.hash c.nonce) session endpoint role revision e.now e w
            ≡ (ok tt, w'))
  accepted payload mac signature body c c' w' x y z u h =
      let steps = readable payload mac signature body c' x y z u in
      (
        record {
          payload = payload;
          mac = mac;
          body = body;
          short = ground (arith, steps);
          parts = x;
          signed = ground (arith, steps, eq_iff signature (e.sign payload));
          decoded = z;
          parsed = ground (arith, steps);
          in_scope = ground (arith, steps);
          current = ground (arith, steps);
        },
        ground (arith, steps),
      )

  -- A ticket that is accepted was verified: it has 1 to 4096 bytes in two parts, the second is the
  -- signature of the first, and its claims are for the session, endpoint, role and revision
  -- presented and current; and its nonce was consumed in this very call.
  pub validate_and_consume_sound :
      (c : TicketClaims) (w' : World)
      → validate_and_consume token session endpoint role revision e w ≡ (ok c, w')
      → IsVerified e token session endpoint role revision c
        × (consume_ticket_nonce (e.hash c.nonce) session endpoint role revision e.now e w
            ≡ (ok tt, w'))
  unfolding validate_and_consume ◌>>=◌
  validate_and_consume_sound c w' h = elim (Option-cases (two_parts token)) [
    | inl x ↦ absurd (ground (arith, x))
    | inr (pm, x) ↦ elim (Option-cases (e.decode64 pm.1)) [
      | inl y ↦ absurd (ground (arith, x, y))
      | inr (sig, y) ↦ elim (Option-cases (e.decode64 pm.0)) [
        | inl z ↦ absurd (ground (arith, x, y, z))
        | inr (body, z) ↦ elim (Option-cases (e.unmarshal body)) [
          | inl u ↦ absurd (ground (arith, x, y, z, u))
          | inr (c', u) ↦ accepted pm.0 pm.1 sig body c c' w' x y z u h
        ]
      ]
    ]
  ]
