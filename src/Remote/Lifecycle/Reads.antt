-- ===== src/Remote/Lifecycle/Reads.antt =====
-- Reading a session, with the timeout that a read applies, takes the table along the diagram, and
-- returns the row as it is stored afterwards.
use serein.Base.{
  ℕ, ◌≡◌, refl, sym, ◌∙◌, ap, Bool, true, Option, none, some, String, List, [], ◌∷◌, ==_iff, ◌==◌,
  subst, arith, if◌then◌else◌,
}
use serein.Base.Table.{key-find_key}
use serein.Remote.Model.{
  Session, SessionState, Role, ordinal, state_eq, requesting, waiting_primary, waiting_host,
  waiting_consent, negotiating, connected_view, connected_control, reconnecting, ending, ended,
  failed,
}
use serein.Remote.World.{Env, Error, Result, ok, err, conflict, fail_if, ◌>>=◌}
use serein.Remote.Repository.{session_key, list_sessions_by_host_state, list_sessions_by_state}
use serein.Remote.Service.{
  time_limit, after_expiry, expire, apply_limit, apply_timeout, get_session_for_controller,
  get_session_for_host, get_session_for, still_pending, list_pending_for_host,
  list_pending_for_primary,
}
use serein.Remote.Lifecycle.{Edge}
use serein.Remote.Lifecycle.Rules.{
  Fact, Any, Caught, Ensures, Ensures-pure, Ensures-fail, Ensures-bind, Ensures-asks,
  Ensures-fail_if, Ensures-weaken, Ensures-if, Ensures-known, Ensures-attempt, Ensures-gets,
}
use serein.Remote.Lifecycle.Rows.{Stored, get_session-Ensures, transition-Ensures}
use serein.Remote.Lifecycle.Quiet.{Ensures-Quiet, Quiet-audit, Quiet-emit, Quiet-get_host}

abbrev state_of : ℕ → SessionState
state_of n =
    if n == 0
    then requesting
    else if n == 1
    then waiting_primary
    else if n == 2
    then waiting_host
    else if n == 3
    then waiting_consent
    else if n == 4
    then negotiating
    else if n == 5
    then connected_view
    else if n == 6
    then connected_control
    else if n == 7
    then reconnecting
    else if n == 8
    then ending
    else if n == 9
    then ended
    else failed

state_of-ordinal : (s : SessionState) → state_of (ordinal s) ≡ s
state_of-ordinal requesting = refl
state_of-ordinal failed = refl
state_of-ordinal _ = refl

pub eq_of_state_eq : (s t : SessionState) → state_eq s t ≡ true → s ≡ t
eq_of_state_eq s t h =
    sym (state_of-ordinal s) ∙ ap state_of ((==_iff _ _).0 h) ∙ state_of-ordinal t

after_expiry-Ensures :
    (s : Session) (reason : String) (r : Result Session)
    → Ensures (Caught (Stored s.id) r) (after_expiry s reason r) (Stored s.id)
after_expiry-Ensures s reason (err conflict) =
    Ensures-weaken _ _ _ _ _ (λ e xs p. p) (λ t e xs p. p.1) (get_session-Ensures s.id Any)
after_expiry-Ensures s reason (err x) = Ensures-fail _ _ _
after_expiry-Ensures s reason (ok t) =
    Ensures-bind _ _ _ _ _ (Ensures-Quiet _ _ (Quiet-audit _ _ _ _ _)) λ _.
      Ensures-bind _ _ _ _ _ (Ensures-Quiet _ _ (Quiet-emit _ _))
        λ _. Ensures-pure t _ _ (λ e xs p. p)

expire-Ensures :
    (s : Session) (ttl now : ℕ) (reason : String) (P : Fact)
    → time_limit s.state ≡ some (ttl, reason)
    → Ensures P (expire s reason now) (Stored s.id)
unfolding expire
expire-Ensures s ttl now reason P limit =
    Ensures-bind _ _ _ _ _
      (Ensures-attempt _ _ _ (
        transition-Ensures _ _ _ P _ _ λ e xs t p found fresh hit.
          Edge.expire ttl reason (rw (← eq_of_state_eq s.state t.state (ground arith)) limit) refl))
      (after_expiry-Ensures s reason)

module _ (s : Session) (P : Fact) (Q : Session → Fact) where
  apply_limit-Ensures :
      (limit : Option (ℕ × String)) (now : ℕ)
      → time_limit s.state ≡ limit
      → ((e : Env) (xs : List Session) → P e xs → Q s e xs)
      → ((t : Session) (e : Env) (xs : List Session) → Stored s.id t e xs → Q t e xs)
      → Ensures P (apply_limit s limit now) Q
  apply_limit-Ensures none now eq same stored = Ensures-pure s P Q same
  apply_limit-Ensures (some (ttl, reason)) now eq same stored =
      Ensures-if _ _ _ _ _ (λ _. Ensures-pure s P Q same)
        (λ _. Ensures-weaken _ _ _ _ _ (λ e xs p. p) stored (expire-Ensures s ttl now reason P eq))

  -- The session is handed back, or what is now stored under its name.
  pub apply_timeout-Ensures :
      ((e : Env) (xs : List Session) → P e xs → Q s e xs)
      → ((t : Session) (e : Env) (xs : List Session) → Stored s.id t e xs → Q t e xs)
      → Ensures P (apply_timeout s) Q
  unfolding apply_timeout
  apply_timeout-Ensures same stored =
      Ensures-bind P _ (λ _. P) _ _
        (Ensures-weaken _ _ _ _ _ (λ e xs p. p) (λ _ e xs p. p.0) (Ensures-asks _ P))
        λ now.
          Ensures-if _ _ _ _ _ (λ _. Ensures-pure s P Q same)
            (λ _. apply_limit-Ensures _ now refl same stored)

-- A reader of `id`, behind its guard.
guarded-Ensures :
    (id : String) (b : Bool) (x : Error) (s : Session)
    → Ensures (λ e xs. Unit × Stored id s e xs) (fail_if b x >>= λ _. apply_timeout s) (Stored id)
guarded-Ensures id b x s =
    Ensures-known (s.id ≡ id) _ _ _ (λ e xs p. key-find_key session_key id xs s p.1)
      λ same. Ensures-bind _ _ _ _ _ (Ensures-fail_if b x _) λ _.
        apply_timeout-Ensures s _ _ (λ e xs p. p.0.1)
          (λ t e xs found. subst (λ i. Stored i t e xs) same found)

pub get_session_for_controller-Ensures :
    (id controller_id : String)
    → Ensures Any (get_session_for_controller id controller_id) (Stored id)
unfolding get_session_for_controller
get_session_for_controller-Ensures id controller_id =
    Ensures-bind _ _ _ _ _ (get_session-Ensures id Any) (λ s. guarded-Ensures id _ _ s)

pub get_session_for_host-Ensures :
    (id host_id : String) → Ensures Any (get_session_for_host id host_id) (Stored id)
unfolding get_session_for_host
get_session_for_host-Ensures id host_id =
    Ensures-bind _ _ _ _ _ (get_session-Ensures id Any) (λ s. guarded-Ensures id _ _ s)

pub get_session_for-Ensures :
    (role : Role) (id endpoint_id : String)
    → Ensures Any (get_session_for role id endpoint_id) (Stored id)
unfolding get_session_for
get_session_for-Ensures Role.controller id endpoint_id =
    get_session_for_controller-Ensures id endpoint_id
get_session_for-Ensures Role.host id endpoint_id = get_session_for_host-Ensures id endpoint_id
get_session_for-Ensures (Role.other r) id endpoint_id = Ensures-fail _ _ _

still_pending-Ensures :
    (state : SessionState) (items : List Session)
    → Ensures Any (still_pending state items) (λ _. Any)
unfolding still_pending
still_pending-Ensures state [] = Ensures-pure _ _ _ (λ e xs p. tt)
still_pending-Ensures state (item ∷ items) =
    Ensures-bind _ _ (λ _. Any) _ _
      (apply_timeout-Ensures item Any _ (λ e xs p. tt) (λ t e xs p. tt))
      λ current.
        Ensures-bind _ _ _ _ _ (still_pending-Ensures state items)
          (λ rest. Ensures-pure _ _ _ (λ e xs p. tt))

pub list_pending_for_host-Ensures :
    (host_id : String) → Ensures Any (list_pending_for_host host_id) (λ _. Any)
unfolding list_pending_for_host list_sessions_by_host_state
list_pending_for_host-Ensures host_id =
    Ensures-bind _ _ _ _ _ (Ensures-Quiet _ Any (Quiet-get_host host_id)) λ _.
      Ensures-bind _ _ (λ _. Any) _ _ (Ensures-gets _ _ _ (λ e w p. tt))
        (still_pending-Ensures waiting_consent)

pub list_pending_for_primary-Ensures : Ensures Any list_pending_for_primary (λ _. Any)
unfolding list_pending_for_primary list_sessions_by_state
list_pending_for_primary-Ensures =
    Ensures-bind _ _ (λ _. Any) _ _ (Ensures-gets _ _ _ (λ e w p. tt))
      (still_pending-Ensures waiting_primary)
