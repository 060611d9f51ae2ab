-- ===== src/Remote/Run/Sound.antt =====
-- What holds of every session that the service has stored.
use serein.Base.{ℕ, ◌≤◌, ◌≡◌, Bool, true, false, Option, none, some, List, [], contains, arith, All}
use serein.Base.Table.{All-Grows}
use serein.Remote.Model.{
  Session, SessionState, waiting_host, waiting_consent, negotiating, connected_view,
  connected_control, reconnecting, is_terminal_state,
}
use serein.Remote.World.{Env}
use serein.Remote.Capability.{capability_input}
use serein.Remote.Repository.{moved}
use serein.Remote.Service.{time_limit, first_state, connected_state}
use serein.Remote.Lifecycle.{
  wake, accept, connect, drop, expire, finish, Step, change, approve, Evolves, here, next,
  IsRequest, IsNew, requested,
}
use serein.Remote.Run.{Call, run, empty}
use serein.Remote.Run.Refines.{run-Lives}

-- The states that the host takes part in: it knows of the session.
abbrev pub reaches_host : SessionState → Bool
reaches_host waiting_host = true
reaches_host waiting_consent = true
reaches_host negotiating = true
reaches_host connected_view = true
reaches_host connected_control = true
reaches_host reconnecting = true
reaches_host _ = false

-- The states in which the host has consented.
abbrev pub has_consent : SessionState → Bool
has_consent negotiating = true
has_consent connected_view = true
has_consent connected_control = true
has_consent reconnecting = true
has_consent _ = false

abbrev is_null : Option ℕ → Bool
is_null none = true
is_null (some _) = false

pub record IsSound (s : Session) : Type 0 where
  pub approved_first : reaches_host s.state ≡ true → s.primary_approved ≡ true
  pub grant_is_request :
      has_consent s.state ≡ true → s.granted_capabilities ≡ s.requested_capabilities
  pub grant_needs_consent :
      has_consent s.state ≡ false → is_terminal_state s.state ≡ false → s.granted_capabilities ≡ []
  pub control_was_granted :
      s.state ≡ connected_control → contains s.granted_capabilities capability_input ≡ true
  pub view_only :
      s.state ≡ connected_view → contains s.granted_capabilities capability_input ≡ false
  pub over_has_end : is_terminal_state s.state ≡ true → is_null s.ended_at ≡ false
  pub live_has_no_end : is_terminal_state s.state ≡ false → s.ended_at ≡ none
  pub revision_counts : 1 ≤ s.revision

IsRequest-IsSound : (s : Session) → IsRequest s → IsSound s
unfolding first_state
IsRequest-IsSound s r = ground arith

Step-IsSound : (s t : Session) → IsSound s → Step s t → IsSound t
unfolding moved connected_state time_limit
Step-IsSound s t h (approve now st eq) = ground arith
Step-IsSound s t h (change c now (wake st ce) eq) = ground arith
Step-IsSound s t h (change c now (accept st ce) eq) = ground arith
Step-IsSound s t h (change c now (connect st ce) eq) = ground arith
Step-IsSound s t h (change c now (drop st ce) eq) = ground arith
Step-IsSound s t h (change c now (expire ttl reason st ce) eq) = ground arith
Step-IsSound s t h (change c now (finish reason st ce) eq) = ground arith

pub Evolves-IsSound : (s t : Session) → IsSound s → Evolves s t → IsSound t
Evolves-IsSound s t h here = h
Evolves-IsSound s t h (next {t = u} p st) = Step-IsSound u t (Evolves-IsSound s u h p) st

IsNew-IsSound : (s : Session) → IsNew s → IsSound s
IsNew-IsSound s (requested r q p) = Evolves-IsSound r s (IsRequest-IsSound r q) p

-- After any calls on an empty database, every stored session is sound: the host takes part only
-- after the primary phone's approval; what is granted is what was requested once the host has
-- consented and nothing before; a session has control exactly if input was granted among the
-- connected ones; it has an end time exactly when it is over; and its revision is at least 1.
pub run-IsSound : (calls : List (Env × Call)) → All IsSound (run calls empty).sessions
run-IsSound calls =
    All-Grows Evolves IsNew IsSound Evolves-IsSound IsNew-IsSound [] (run calls empty).sessions
      (run-Lives calls empty) tt
