-- ===== src/Remote/Lifecycle.antt =====
-- The life of a remote-control session as a diagram, apart from the code: which changes a stored
-- session may go through, and what a new one looks like.
pub mod Rules
pub mod Rows
pub mod Quiet
pub mod Reads
pub mod Calls
pub mod Media
pub mod Hosts
use serein.Base.{
  ℕ, ◌+◌, ◌≤◌, ◌≡◌, refl, ◌⊎◌, Bool, true, false, Option, none, some, String, List, [], ◌∷◌,
}
use serein.Base.Table.{Grows, Grows-trans, Grows-refl}
use serein.Remote.Model.{
  Session, is_terminal_state, waiting_primary, waiting_host, waiting_consent, negotiating,
  connected_view, connected_control, reconnecting,
}
use serein.Remote.Repository.{Change, moved, approved}
use serein.Remote.Service.{
  to_consent, to_failed, to_ended, to_negotiating, to_connected, to_reconnecting, time_limit,
  first_state,
}

-- The changes that a session `s` may go through.
pub data Edge (s : Session) (c : Change) : Type 0 where
  wake : s.state ≡ waiting_host → c ≡ to_consent → Edge s c
  accept : s.state ≡ waiting_consent → c ≡ to_negotiating s.requested_capabilities → Edge s c
  connect :
      (s.state ≡ negotiating) ⊎ (s.state ≡ reconnecting)
      → c ≡ to_connected s.granted_capabilities
      → Edge s c
  drop :
      (s.state ≡ connected_view) ⊎ (s.state ≡ connected_control) → c ≡ to_reconnecting s → Edge s c
  expire :
      (ttl : ℕ) (reason : String)
      → time_limit s.state ≡ some (ttl, reason)
      → c ≡ to_failed reason
      → Edge s c
  finish : (reason : String) → is_terminal_state s.state ≡ false → c ≡ to_ended reason → Edge s c

pub data Step (s t : Session) : Type 0 where
  change : (c : Change) (now : ℕ) → Edge s c → t ≡ moved c now s → Step s t
  approve : (now : ℕ) → s.state ≡ waiting_primary → t ≡ approved now s → Step s t

pub data Evolves (s : Session) : Session → Type 0 where
  here : Evolves s s
  next : {t u : Session} → Evolves s t → Step t u → Evolves s u

pub Evolves_trans : {s t u : Session} → Evolves s t → Evolves t u → Evolves s u
Evolves_trans p here = p
Evolves_trans p (next q st) = next (Evolves_trans p q) st

-- A session as `RequestSession` stores it.
pub record IsRequest (s : Session) : Type 0 where
  pub first_revision : s.revision ≡ 1
  pub nothing_granted : s.granted_capabilities ≡ []
  pub own_approval : s.primary_approved ≡ s.controller_is_primary
  pub online : Bool
  pub first : s.state ≡ first_state s.controller_is_primary online
  pub not_started : s.started_at ≡ none
  pub not_ended : s.ended_at ≡ none

-- A row that was not there: a request, and what it has become since.
pub data IsNew (s : Session) : Type 0 where
  requested : (r : Session) → IsRequest r → Evolves r s → IsNew s

abbrev pub Lives : List Session → List Session → Type 0
Lives = Grows Evolves IsNew

IsNew-Evolves : (s t : Session) → IsNew s → Evolves s t → IsNew t
IsNew-Evolves s t (requested r q p) e = requested r q (Evolves_trans p e)

pub Lives-refl : (xs : List Session) → Lives xs xs
Lives-refl = Grows-refl Evolves IsNew (λ s. here)

pub Lives-trans : (xs ys zs : List Session) → Lives xs ys → Lives ys zs → Lives xs zs
Lives-trans = Grows-trans Evolves IsNew (λ a b c p q. Evolves_trans p q) IsNew-Evolves
