-- ===== src/Remote/Authentication.antt =====
-- Which host a token authenticates (`AuthenticateHost` of backend/internal/remote/service.go).
use serein.Base.{
  ◌+◌, ◌≤◌, ◌≡◌, refl, ◌↔◌, ◌≢◌, true, false, none, some, String, arith, str_eq, eq_iff, trim_space,
  Option-cases, inl, inr,
}
use serein.Base.Table.{find_key, find_key-update_self}
use serein.Remote.Model.{Host}
use serein.Remote.World.{Env, World, Credential, ok, err, not_found, unauthorized, ◌>>=◌}
use serein.Remote.Repository.{
  host_key, credential_key, host_credential_hash, host_credential_age, get_host, age_of, is_null,
  revoke_host_credential as revoke_row,
}
use serein.Remote.Audit.{audit}
use serein.Remote.Service.{authenticate_host, revoke_host_credential, credential_max_age}

-- A host with a credential that is not revoked, of at most seven days, whose token is presented.
pub record IsAuthentic (e : Env) (w : World) (host_id token : String) : Type 0 where
  pub credential : Credential
  pub host : Host
  pub named : str_eq host_id "" ≡ false
  pub presented : str_eq token "" ≡ false
  pub has_credential : find_key credential_key host_id w.credentials ≡ some credential
  pub not_revoked : credential.revoked_at ≡ none
  pub same_token : credential.token_hash ≡ e.hash token
  pub has_host : find_key host_key host_id w.hosts ≡ some host
  pub host_not_revoked : host.revoked_at ≡ none
  pub young : e.now ≤ age_of credential + credential_max_age

module _ (raw_id token : String) (e : Env) (w : World) where
  steps :
      (c : Credential) (h : Host)
      → find_key credential_key (trim_space raw_id) w.credentials ≡ some c
      → find_key host_key (trim_space raw_id) w.hosts ≡ some h
      → ((authenticate_host raw_id token e w).0 ≡ ok tt) ↔ (
          (str_eq (trim_space raw_id) "" ≡ false)
          × (str_eq token "" ≡ false)
          × (c.revoked_at ≡ none)
          × (str_eq c.token_hash (e.hash token) ≡ true)
          × (h.revoked_at ≡ none)
          × (e.now ≤ age_of c + credential_max_age))
  unfolding authenticate_host host_credential_hash host_credential_age get_host audit ◌>>=◌
  steps c h found found' = ground (arith, found, found')

  no_credential :
      find_key credential_key (trim_space raw_id) w.credentials ≡ none
      → (authenticate_host raw_id token e w).0 ≡ err unauthorized
  unfolding authenticate_host host_credential_hash ◌>>=◌
  no_credential h = ground (arith, h)

  no_host :
      (c : Credential)
      → find_key credential_key (trim_space raw_id) w.credentials ≡ some c
      → find_key host_key (trim_space raw_id) w.hosts ≡ none
      → (authenticate_host raw_id token e w).0 ≡ err unauthorized
  unfolding authenticate_host host_credential_hash get_host ◌>>=◌
  no_host c h k = ground (arith, h, k)

  authentic :
      (authenticate_host raw_id token e w).0 ≡ ok tt → IsAuthentic e w (trim_space raw_id) token
  authentic accepted =
      elim (Option-cases (find_key credential_key (trim_space raw_id) w.credentials)) [
        | inl missing ↦ absurd (ground (arith, accepted, no_credential missing))
        | inr (c, found) ↦ elim (Option-cases (find_key host_key (trim_space raw_id) w.hosts)) [
          | inl missing ↦ absurd (ground (arith, accepted, no_host c found missing))
          | inr (h, found') ↦
              let (named, presented, valid, same, known, young) =
                (steps c h found found').0 accepted in
              record {
                credential = c;
                host = h;
                named = named;
                presented = presented;
                has_credential = found;
                not_revoked = valid;
                same_token = (eq_iff c.token_hash (e.hash token)).0 same;
                has_host = found';
                host_not_revoked = known;
                young = young;
              }
        ]
      ]

  -- A token authenticates a host exactly if the host's id, spaces around it aside, and the token
  -- are not empty, the host is stored and has a credential with the token's hash, neither the
  -- credential nor the host is revoked, and the credential is at most seven days old.
  pub authenticate_host_lem :
      ((authenticate_host raw_id token e w).0 ≡ ok tt) ↔ IsAuthentic e w (trim_space raw_id) token
  authenticate_host_lem = (
    authentic,
    λ a. (steps a.credential a.host a.has_credential a.has_host).1 (
      a.named,
      a.presented,
      a.not_revoked,
      (eq_iff a.credential.token_hash (e.hash token)).1 a.same_token,
      a.host_not_revoked,
      a.young,
    ),
  )

module _ (raw_id : String) (e : Env) (w : World) where
  revoke_missing :
      find_key credential_key (trim_space raw_id) w.credentials ≡ none
      → (revoke_host_credential raw_id e w).0 ≡ err not_found
  unfolding revoke_host_credential revoke_row ◌>>=◌
  revoke_missing h = ground (arith, h)

  revoke_found :
      (c : Credential) (w' : World)
      → find_key credential_key (trim_space raw_id) w.credentials ≡ some c
      → revoke_host_credential raw_id e w ≡ (ok tt, w')
      → find_key credential_key (trim_space raw_id) w'.credentials
        ≡ some (record c { revoked_at = some e.now })
  unfolding revoke_host_credential revoke_row audit ◌>>=◌
  revoke_found c w' h k = ground (
    arith,
    h,
    find_key-update_self credential_key (trim_space raw_id) (λ r. is_null r.revoked_at)
        (λ r. record r { revoked_at = some e.now }) w.credentials c h refl,
  )

-- Revoking a host's credential stops every token at once: after a revocation that succeeded, no token
-- authenticates that host.
pub authenticate_host-revoke :
    (raw_id token : String) (e e' : Env) (w w' : World)
    → revoke_host_credential raw_id e w ≡ (ok tt, w')
    → (authenticate_host raw_id token e' w').0 ≢ ok tt
authenticate_host-revoke raw_id token e e' w w' revoked accepted =
    let a = (authenticate_host_lem raw_id token e' w').0 accepted in
    elim (Option-cases (find_key credential_key (trim_space raw_id) w.credentials)) [
      | inl missing ↦ absurd (ground (arith, revoked, revoke_missing raw_id e w missing))
      | inr (c, found) ↦
          ground
            (arith, a.has_credential, a.not_revoked, revoke_found raw_id e w c w' found revoked)
    ]
