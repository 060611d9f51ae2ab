-- ===== src/Remote/Lifecycle/Calls.antt =====
-- Each call that changes sessions takes the table along the diagram.
use serein.Base.{
  ℕ, ◌≡◌, refl, sym, ◌∙◌, ap, ◌⊎◌, inl, inr, true, false, String, List, [], ◌∷◌, Bool-cases, ℤ,
  arith,
}
use mathlib.Core.Option.{some-injective}
use serein.Remote.Model.{
  Session, SessionState, state_eq, allows, requesting, is_terminal_state, waiting_host,
  waiting_consent, ended, failed, Value,
}
use serein.Remote.World.{Env, Result, ok, err, Action, pure, ◌>>=◌, EventType}
use serein.Remote.Repository.{list_sessions_by_host_state}
use serein.Remote.Service.{
  emit, promote_all, promote_waiting_host, announce, to_negotiating, approve_by_primary,
  reject_by_primary, accept, reject, end_live, end, end_by_controller, end_by_host, live_states,
}
use serein.Remote.Audit.{audit}
use serein.Remote.Lifecycle.{Edge}
use serein.Remote.Lifecycle.Rules.{
  Fact, Any, Ensures, Ensures-pure, Ensures-bind, Ensures-asks, Ensures-fail_if, Ensures-weaken,
  Ensures-if, Ensures-attempt, Ensures-gets,
}
use serein.Remote.Lifecycle.Rows.{Stored, get_session-Ensures, transition-Ensures, approve-Ensures}
use serein.Remote.Lifecycle.Quiet.{Quiet, Ensures-Quiet, Quiet-audit, Quiet-emit, Quiet-issue}
use serein.Remote.Lifecycle.Reads.{
  eq_of_state_eq, get_session_for_controller-Ensures, get_session_for_host-Ensures,
}

-- The end of a call: quiet steps, and nothing to show.
module _ {A : Type 0} where
  pub after_Quiet : (m : Action A) (P : Fact) → Quiet m → Ensures P m (λ _. Any)
  after_Quiet m P q = Ensures-weaken _ _ _ _ _ (λ e xs p. p) (λ _ e xs p. tt) (Ensures-Quiet m P q)

announced :
    (id host_id : String) (r : Result Session) → Ensures Any (announce id host_id r) (λ _. Any)
announced id host_id (ok s) =
    Ensures-bind _ _ _ _ _ (Ensures-Quiet _ Any (Quiet-audit _ _ _ _ _))
      (λ _. Ensures-Quiet _ Any (Quiet-emit _ _))
announced id host_id (err x) = Ensures-pure _ _ _ (λ e xs p. tt)

promote_all-Ensures :
    (host_id : String) (now : ℕ) (items : List Session)
    → Ensures Any (promote_all host_id now items) (λ _. Any)
unfolding promote_all
promote_all-Ensures host_id now [] = Ensures-pure _ _ _ (λ e xs p. tt)
promote_all-Ensures host_id now (item ∷ items) =
    Ensures-bind _ _ (λ _. Any) _ _
      (Ensures-weaken _ _ _ _ _ (λ e xs p. p) (λ r e xs p. tt)
        (Ensures-attempt _ _ _ (
          transition-Ensures _ _ _ Any _ _ λ e xs t p found fresh hit.
            Edge.wake (sym (eq_of_state_eq waiting_host t.state (ground arith))) refl)))
      λ r. Ensures-bind _ _ _ _ _ (announced _ _ r) (λ _. promote_all-Ensures host_id now items)

pub promote_waiting_host-Ensures :
    (host_id : String) (now : ℕ) → Ensures Any (promote_waiting_host host_id now) (λ _. Any)
unfolding promote_waiting_host list_sessions_by_host_state
promote_waiting_host-Ensures host_id now =
    Ensures-bind _ _ (λ _. Any) _ _ (Ensures-gets _ _ _ (λ e w p. tt))
      (promote_all-Ensures host_id now)

-- The tail of a decision: an audit entry, an event, and the updated session.
pub told :
    (id type actor event : String) (m : List (String × Value)) (P : Fact) (t : EventType)
    (s : Session)
    → Ensures P (audit id type actor event m >>= λ _. emit t s >>= λ _. pure s) (λ _. Any)
told id type actor event m P t s =
    Ensures-bind _ _ _ _ _ (Ensures-Quiet _ P (Quiet-audit _ _ _ _ _)) λ _.
      Ensures-bind _ _ _ _ _ (Ensures-Quiet _ P (Quiet-emit _ _))
        (λ _. Ensures-pure _ _ _ (λ e xs p. tt))

live-not_terminal : (s : SessionState) → allows live_states s ≡ true → is_terminal_state s ≡ false
live-not_terminal requesting h = refl
live-not_terminal ended h = cc
live-not_terminal failed h = cc
live-not_terminal _ h = refl

pub one_of_two : (a b s : SessionState) → allows (a ∷ b ∷ []) s ≡ true → (s ≡ a) ⊎ (s ≡ b)
one_of_two a b s h = elim (Bool-cases (state_eq a s)) [
  | inl p ↦ inl (sym (eq_of_state_eq a s p))
  | inr p ↦ inr (sym (eq_of_state_eq b s (ground arith)))
]

pub same_row :
    (id : String) (s t : Session) (e : Env) (xs : List Session)
    → Stored id s e xs
    → Stored id t e xs
    → s ≡ t
same_row id s t e xs p q = some-injective s t (sym p ∙ q)

pub approve_by_primary-Ensures :
    (id primary_id : String) (expected : ℤ)
    → Ensures Any (approve_by_primary id primary_id expected) (λ _. Any)
unfolding approve_by_primary
approve_by_primary-Ensures id primary_id expected =
    Ensures-bind _ _ _ _ _ (Ensures-fail_if _ _ Any) λ _.
      Ensures-bind _ _ _ _ _ (Ensures-asks _ _) λ now.
        Ensures-bind _ _ _ _ _ (approve-Ensures id expected now _) (λ s. told _ _ _ _ _ _ _ s)

pub reject_by_primary-Ensures :
    (id primary_id reason : String) (expected : ℤ)
    → Ensures Any (reject_by_primary id primary_id reason expected) (λ _. Any)
unfolding reject_by_primary
reject_by_primary-Ensures id primary_id reason expected =
    Ensures-bind _ _ _ _ _ (Ensures-fail_if _ _ Any) λ _.
      Ensures-bind _ _ _ _ _ (get_session-Ensures id _) λ current.
        Ensures-bind _ _ _ _ _ (Ensures-asks _ _) λ now.
          Ensures-bind _ _ _ _ _
            (transition-Ensures id _ now _ _ _
              λ e xs t p found fresh hit. Edge.finish _ (ground arith) refl)
            (λ s. told _ _ _ _ _ _ _ s)

pub accept-Ensures :
    (id host_id : String) (expected : ℤ) → Ensures Any (accept id host_id expected) (λ _. Any)
unfolding accept
accept-Ensures id host_id expected =
    Ensures-bind _ _ _ _ _ (get_session_for_host-Ensures id host_id) λ current.
      Ensures-bind _ _ _ _ _ (Ensures-asks _ _) λ now.
        Ensures-bind _ _ _ _ _
          (transition-Ensures id _ now _ _ _ λ e xs t p found fresh hit.
            Edge.accept (sym (eq_of_state_eq waiting_consent t.state (ground arith))) (
              ap (λ (r : Session). to_negotiating r.requested_capabilities)
                (same_row id current t e xs p.0 found)))
          λ s. Ensures-bind _ _ _ _ _ (Ensures-Quiet _ _ (Quiet-issue _ _ _)) λ ticket.
            Ensures-bind _ _ _ _ _ (Ensures-Quiet _ _ (Quiet-audit _ _ _ _ _)) λ _.
              Ensures-bind _ _ _ _ _ (Ensures-Quiet _ _ (Quiet-emit _ _))
                (λ _. Ensures-pure _ _ _ (λ e xs p. tt))

pub reject-Ensures :
    (id host_id reason : String) (expected : ℤ)
    → Ensures Any (reject id host_id reason expected) (λ _. Any)
unfolding reject
reject-Ensures id host_id reason expected =
    Ensures-bind _ _ _ _ _ (get_session_for_host-Ensures id host_id) λ current.
      Ensures-bind _ _ _ _ _ (Ensures-asks _ _) λ now.
        Ensures-bind _ _ _ _ _
          (transition-Ensures id _ now _ _ _
            λ e xs t p found fresh hit. Edge.finish _ (ground arith) refl)
          (λ s. told _ _ _ _ _ _ _ s)

end_live-Ensures :
    (s : Session) (actor actor_id reason : String) (expected : ℤ) (P : Fact)
    → Ensures P (end_live s actor actor_id reason expected) (λ _. Any)
unfolding end_live
end_live-Ensures s actor actor_id reason expected P =
    Ensures-bind _ _ _ _ _ (Ensures-asks _ P) λ now.
      Ensures-bind _ _ _ _ _
        (transition-Ensures s.id _ now _ _ _
          λ e xs t p found fresh hit. Edge.finish _ (live-not_terminal t.state hit) refl)
        (λ t. told _ _ _ _ _ _ _ t)

end-Ensures :
    (s : Session) (actor actor_id reason : String) (expected : ℤ) (P : Fact)
    → Ensures P (end s actor actor_id reason expected) (λ _. Any)
unfolding end
end-Ensures s actor actor_id reason expected P =
    Ensures-if (is_terminal_state s.state) _ (pure s) (end_live s actor actor_id reason expected) _
      (λ _. Ensures-pure _ _ _ (λ e xs p. tt))
      (λ _. end_live-Ensures s actor actor_id reason expected P)

pub end_by_controller-Ensures :
    (id controller_id reason : String) (expected : ℤ)
    → Ensures Any (end_by_controller id controller_id reason expected) (λ _. Any)
unfolding end_by_controller
end_by_controller-Ensures id controller_id reason expected =
    Ensures-bind _ _ _ _ _ (get_session_for_controller-Ensures id controller_id)
      (λ s. end-Ensures s _ _ reason expected _)

pub end_by_host-Ensures :
    (id host_id reason : String) (expected : ℤ)
    → Ensures Any (end_by_host id host_id reason expected) (λ _. Any)
unfolding end_by_host
end_by_host-Ensures id host_id reason expected =
    Ensures-bind _ _ _ _ _ (get_session_for_host-Ensures id host_id)
      (λ s. end-Ensures s _ _ reason expected _)
