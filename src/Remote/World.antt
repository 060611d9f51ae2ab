-- ===== src/Remote/World.antt =====
-- What the remote service works on: the rows of its tables, the events that it has emitted, and an
-- action with errors over them (`Service` and `Repository` of backend/internal/remote).
use serein.Base.{ℕ, suc, Bool, Option, none, some, String, List, if◌then◌else◌}
use serein.Remote.Model.{Host, Session, AuditEvent, TicketClaims, Role}

-- The errors that the code tells apart by `errors.Is`, and any other message.
pub data Error : Type 0 where
  not_found conflict ticket_consumed ticket_expired : Error
  unauthorized invalid_capability : Error
  message : String → Error

pub data Result (A : Type 0) : Type 0 where
  ok : A → Result A
  err : Error → Result A

-- A row of remote_host_credentials.
pub record Credential : Type 0 where
  pub host_id : String
  pub token_hash : String
  pub created_at : ℕ
  pub rotated_at : Option ℕ
  pub revoked_at : Option ℕ

-- A row of remote_authorizations.
pub record Authorization : Type 0 where
  pub id : String
  pub host_id : String
  pub controller_device_id : String
  pub capabilities : List String
  pub created_at : ℕ
  pub last_used_at : ℕ

-- A row of remote_ticket_nonces.
pub record Nonce : Type 0 where
  pub nonce_hash : String
  pub session_id : String
  pub endpoint_id : String
  pub role : Role
  pub revision : ℕ
  pub expires_at : ℕ
  pub consumed_at : Option ℕ
  pub created_at : ℕ

pub data EventType : Type 0 where
  consent_required requested primary_approved ended failed : EventType
  accepted connected reconnecting : EventType

pub record Event : Type 0 where
  pub event_type : EventType
  pub session : Session

pub record World : Type 0 where
  pub hosts : List Host
  pub credentials : List Credential
  pub authorizations : List Authorization
  pub sessions : List Session
  pub nonces : List Nonce
  pub audits : List AuditEvent
  pub events : List Event
  pub drawn : ℕ  -- the random values drawn so far

-- What the code calls and this repository does not hold: the clock as one call of the service reads
-- it, the generators of random values, SHA-256, HMAC, base64 and JSON.
pub record Env : Type 0 where
  pub now : ℕ
  pub uuid : ℕ → String
  pub random : ℕ → Option String  -- base64 of random bytes, `none` where `rand.Read` fails
  pub hash : String → String
  pub sign : String → String
  pub encode64 : String → String
  pub decode64 : String → Option String
  pub marshal : TicketClaims → String
  pub unmarshal : String → Option TicketClaims

abbrev pub Action : Type 0 → Type 0
Action A = Env → World → Result A × World

-- The actions are shut, so that a proof follows the steps of a call by rules for them.
module _ {A : Type 0} where
  unfoldable pub pure : A → Action A
  pure a e w = (ok a, w)

  unfoldable pub fail : Error → Action A
  fail x e w = (err x, w)

  unfoldable pub gets : (World → A) → Action A
  gets f e w = (ok (f w), w)

  unfoldable pub asks : (Env → A) → Action A
  asks f e w = (ok (f e), w)

  unfoldable pub or_fail : Option A → Error → Action A
  unfolding pure fail
  or_fail none x = fail x
  or_fail (some a) x = pure a

  unfoldable pub from_result : Result A → Action A
  from_result r e w = (r, w)

  -- The result of an action as a value, for the code that looks at `err`.
  unfoldable pub attempt : Action A → Action (Result A)
  attempt m e w = let (r, w') = m e w in (ok r, w')

unfoldable pub modify : (World → World) → Action (Unit {0})
modify f e w = (ok tt, f w)

unfoldable pub fail_if : Bool → Error → Action (Unit {0})
fail_if c x e w = (if c then err x else ok tt, w)

abbrev drawn_text : Option String → Result String
drawn_text none = err (message "generate random bytes")
drawn_text (some t) = ok t

unfoldable pub new_uuid : Action String
new_uuid e w = (ok (e.uuid w.drawn), record w { drawn = suc w.drawn })

unfoldable pub new_random : Action String
new_random e w = (drawn_text (e.random w.drawn), record w { drawn = suc w.drawn })

module _ {A B : Type 0} where
  abbrev pub continue : Result A → (A → Action B) → Action B
  continue (ok a) f e w = f a e w
  continue (err x) f e w = (err x, w)

  infixl 5 ◌>>=◌ ◌>>◌
  -- Opening this opens the actions above too.
  unfoldable pub ◌>>=◌ : Action A → (A → Action B) → Action B
  unfolding pure fail gets asks or_fail from_result attempt modify fail_if new_uuid new_random
  ◌>>=◌ m f e w = let (r, w') = m e w in continue r f e w'

  abbrev pub ◌>>◌ : Action A → Action B → Action B
  m >> k = m >>= λ _. k
