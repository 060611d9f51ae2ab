-- ===== src/Remote/Repository.antt =====
-- backend/internal/remote/repository.go: the statements on the tables of hosts, credentials and
-- sessions. Failures of the database itself (disk, driver, JSON of a stored column) are left out;
-- the constraints of the schema are errors.
mod Sessions
unfoldable pub use Sessions.*
use serein.Base.{
  ℕ, Bool, true, false, not, ◌&&◌, Option, none, some, String, List, [], ◌∷◌, ◌++◌, str_eq, ◌==◌,
  if◌then◌else◌, any, keep_if, order_by,
}
use serein.Base.Table.{find_key, update_key, affected, upsert_key}
use serein.Remote.Model.{Host}
use serein.Remote.World.{
  not_found, message, Action, pure, gets, or_fail, ◌>>=◌, ◌>>◌, modify, fail_if, Credential,
  Authorization,
}
use Prim.Native.Nat.{Ordering}
use Prim.Native.String.{compare}

abbrev pub is_null : Option ℕ → Bool
is_null none = true
is_null (some _) = false

abbrev pub host_key : Host → String
host_key h = h.id

abbrev pub credential_key : Credential → String
credential_key c = c.host_id

-- `device_fingerprint` is UNIQUE; `revoked_at` is not among the columns that a conflict updates.
unfoldable pub upsert_host : Host → Action (Unit {0})
upsert_host host = do
  hosts ← gets (λ w. w.hosts)
  fail_if
      (any (λ h. str_eq h.device_fingerprint host.device_fingerprint && not (str_eq h.id host.id))
        hosts)
      (message "UNIQUE constraint failed: remote_hosts.device_fingerprint")
  modify (λ w. record w {
    hosts = upsert_key host_key host (λ h. record host { revoked_at = h.revoked_at }) w.hosts;
  })

abbrev touch : ℕ → Host → Host
touch at h = record h { online = true; last_seen_at = at }

unfoldable pub touch_host : String → ℕ → Action (Unit {0})
touch_host id at = do
  n ← gets (λ w. affected host_key id (λ h. is_null h.revoked_at) w.hosts)
  modify (λ w. record w {
    hosts = update_key host_key id (λ h. is_null h.revoked_at) (touch at) w.hosts;
  })
  fail_if (n == 0) not_found

unfoldable pub get_host : String → Action Host
get_host id = do or_fail (← gets (λ w. find_key host_key id w.hosts)) not_found

abbrev is_le : Ordering → Ordering → Bool
is_le Ordering.lt o = true
is_le Ordering.eq Ordering.gt = false
is_le Ordering.eq o = true
is_le Ordering.gt o = false

-- `WHERE revoked_at IS NULL ORDER BY display_name, id`
unfoldable pub list_hosts : Action (List Host)
list_hosts = gets λ w.
    order_by (λ (a b : Host). is_le (compare a.display_name b.display_name) (compare a.id b.id))
      (keep_if (λ h. is_null h.revoked_at) w.hosts)

-- `HostCredentialHash`: the hash, and whether the credential is revoked.
unfoldable pub host_credential_hash : String → Action (String × Bool)
host_credential_hash host_id = do
  c ← or_fail (← gets (λ w. find_key credential_key host_id w.credentials)) not_found
  pure (c.token_hash, not (is_null c.revoked_at))

abbrev pub age_of : Credential → ℕ
age_of c = elim c.rotated_at [ none ↦ c.created_at | some t ↦ t ]

unfoldable pub host_credential_age : String → Action ℕ
host_credential_age host_id = do
  c ← or_fail (← gets (λ w. find_key credential_key host_id w.credentials)) not_found
  pure (age_of c)

abbrev issued : String → String → ℕ → Credential
issued host_id token_hash now = record {
  host_id = host_id;
  token_hash = token_hash;
  created_at = now;
  rotated_at = none;
  revoked_at = none;
}

unfoldable pub set_host_credential : String → String → ℕ → Action (Unit {0})
set_host_credential host_id token_hash now = modify λ w. record w {
  credentials =
      upsert_key credential_key (issued host_id token_hash now)
        (λ c. record c { token_hash = token_hash; rotated_at = some now; revoked_at = none })
        w.credentials;
}

-- One transaction: a missing or revoked credential rolls it back.
unfoldable pub revoke_host_credential : String → ℕ → Action (Unit {0})
revoke_host_credential host_id now = do
  n ← gets (λ w. affected credential_key host_id (λ c. is_null c.revoked_at) w.credentials)
  fail_if (n == 0) not_found
  modify (λ w. record w {
    credentials =
        update_key credential_key host_id (λ c. is_null c.revoked_at)
          (λ c. record c { revoked_at = some now }) w.credentials;
    hosts = update_key host_key host_id (λ _. true) (λ h. record h { online = false }) w.hosts;
  })

abbrev is_pair : String → String → Authorization → Bool
is_pair host_id controller_id a =
    str_eq a.host_id host_id && str_eq a.controller_device_id controller_id

abbrev renew :
    (Authorization → Bool)
    → (Authorization → Authorization)
    → List Authorization
    → List Authorization
renew p f [] = []
renew p f (a ∷ rows) = if p a then f a ∷ rows else a ∷ renew p f rows

-- `ON CONFLICT(host_id, controller_device_id) DO UPDATE`
unfoldable pub upsert_authorization : String → String → String → List String → ℕ → Action (Unit {0})
upsert_authorization id host_id controller_id capabilities now = modify λ w. record w {
  authorizations =
      if any (is_pair host_id controller_id) w.authorizations
      then renew (is_pair host_id controller_id)
          (λ a. record a { capabilities = capabilities; last_used_at = now }) w.authorizations
      else w.authorizations
        ++ record {
          id = id;
          host_id = host_id;
          controller_device_id = controller_id;
          capabilities = capabilities;
          created_at = now;
          last_used_at = now;
        }
          ∷ [];
}
