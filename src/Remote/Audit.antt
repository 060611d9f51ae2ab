-- ===== src/Remote/Audit.antt =====
-- The audit trail: `audit` of backend/internal/remote/service.go, and InsertAudit, ListAudit and
-- ListRecentAuditEvents of repository.go.
pub mod Privacy
use serein.Base.{
  ℕ, Bool, false, ◌&&◌, ◌||◌, Option, none, some, String, List, [], ◌∷◌, ◌++◌, str_eq, leb,
  if◌then◌else◌, keep_if, order_by, take, ℤ, pos, negsuc, ltb, zero, suc,
}
use serein.Base.Table.{find_key, insert_key}
use serein.Remote.Model.{AuditEvent, Session, Value}
use serein.Remote.World.{Action, gets, asks, ◌>>=◌, ◌>>◌, modify, new_uuid, unauthorized, fail_if}
use serein.Remote.Repository.{session_key}

-- Every key but these is dropped.
unfoldable pub is_safe_key : String → Bool
is_safe_key k =
    str_eq k "state"
    || str_eq k "reason"
    || str_eq k "transport"
    || str_eq k "revision"
    || str_eq k "version"
    || str_eq k "error_code"

unfoldable pub safe_metadata : List (String × Value) → List (String × Value)
safe_metadata = keep_if λ entry. is_safe_key entry.0

abbrev audit_key : AuditEvent → String
audit_key a = a.id

abbrev or_old : Option (List AuditEvent) → List AuditEvent → List AuditEvent
or_old none rows = rows
or_old (some rows') rows = rows'

-- Every caller drops the error of a duplicate id.
unfoldable pub insert_audit : AuditEvent → Action (Unit {0})
insert_audit event =
    modify λ w. record w { audits = or_old (insert_key audit_key event w.audits) w.audits }

abbrev null_if_empty : String → Option String
null_if_empty s = if str_eq s "" then none else some s

-- The log of an event; every caller drops its error.
unfoldable pub audit : String → String → String → String → List (String × Value) → Action (Unit {0})
unfolding insert_audit
audit session_id actor_type actor_id event_type metadata = do
  id ← new_uuid
  now ← asks (λ e. e.now)
  insert_audit (record {
    id = id;
    session_id = null_if_empty session_id;
    actor_type = actor_type;
    actor_id = actor_id;
    event_type = event_type;
    safe_metadata = safe_metadata metadata;
    client_ip = "";
    created_at = now;
  })

abbrev pub is_newer : AuditEvent → AuditEvent → Bool
is_newer a b = leb b.created_at a.created_at

-- A comparison of a column of the LEFT JOIN: NULL, where no session fits, selects nothing.
abbrev pub joined : List Session → AuditEvent → Option Session
joined sessions a = elim a.session_id [ none ↦ none | some id ↦ find_key session_key id sessions ]

abbrev pub column_is : (Session → String) → String → Option Session → Bool
column_is f v none = false
column_is f v (some s) = str_eq (f s) v

-- `a.session_id='' AND a.actor_id=?`
abbrev pub is_sessionless : AuditEvent → String → Bool
is_sessionless a actor =
    (elim a.session_id [ none ↦ false | some id ↦ str_eq id "" ]) && str_eq a.actor_id actor

unfoldable pub is_listed : List Session → String → String → AuditEvent → Bool
is_listed sessions controller_id host_id a =
    (str_eq controller_id ""
      || column_is (λ s. s.controller_device_id) controller_id (joined sessions a)
      || is_sessionless a controller_id)
    && (str_eq host_id ""
        || column_is (λ s. s.host_id) host_id (joined sessions a)
        || is_sessionless a host_id)

-- `limit <= 0 || limit > most` gives the default.
abbrev pub clamp_limit : ℕ → ℕ → ℤ → ℕ
clamp_limit most default (pos zero) = default
clamp_limit most default (pos (suc n)) = if ltb most (suc n) then default else suc n
clamp_limit most default (negsuc n) = default

unfoldable pub list_audit : String → String → ℤ → Action (List AuditEvent)
list_audit controller_id host_id limit = gets λ w.
    take (clamp_limit 200 50 limit)
      (order_by is_newer (keep_if (is_listed w.sessions controller_id host_id) w.audits))

unfoldable pub list_recent_audit_events : ℕ → ℤ → Action (List AuditEvent)
list_recent_audit_events since limit = gets λ w.
    take (clamp_limit 500 200 limit)
      (order_by is_newer (keep_if (λ a. leb since a.created_at) w.audits))

unfoldable pub list_audit_for_controller : String → String → ℤ → Action (List AuditEvent)
list_audit_for_controller controller_id host_id limit = do
  fail_if (str_eq controller_id "") unauthorized
  list_audit controller_id host_id limit
