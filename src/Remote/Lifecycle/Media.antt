-- ===== src/Remote/Lifecycle/Media.antt =====
-- The calls about the media connection and its tickets take the table along the diagram.
use serein.Base.{ap, String, ◌||◌, ℤ}
use serein.Remote.Model.{
  Session, Role, state_eq, is_terminal_state, negotiating, connected_view, connected_control,
  reconnecting,
}
use serein.Remote.World.{pure}
use serein.Remote.Service.{
  to_connected, to_reconnecting, mark_connected, reconnect_live, mark_reconnecting, refresh_ticket,
  consume_ticket,
}
use serein.Remote.Lifecycle.{Edge}
use serein.Remote.Lifecycle.Rules.{
  Any, Ensures, Ensures-pure, Ensures-bind, Ensures-asks, Ensures-fail_if, Ensures-if,
}
use serein.Remote.Lifecycle.Rows.{Stored, get_session-Ensures, transition-Ensures}
use serein.Remote.Lifecycle.Quiet.{Quiet-issue, Quiet-validate_and_consume}
use serein.Remote.Lifecycle.Reads.{get_session_for_host-Ensures, get_session_for-Ensures}
use serein.Remote.Lifecycle.Calls.{told, same_row, one_of_two, after_Quiet}

pub mark_connected-Ensures :
    (id host_id : String) (expected : ℤ)
    → Ensures Any (mark_connected id host_id expected) (λ _. Any)
unfolding mark_connected
mark_connected-Ensures id host_id expected =
    Ensures-bind _ _ _ _ _ (get_session_for_host-Ensures id host_id) λ current.
      Ensures-bind _ _ _ _ _ (Ensures-asks _ _) λ now.
        Ensures-bind _ _ _ _ _
          (transition-Ensures id _ now _ _ _ λ e xs t p found fresh hit.
            Edge.connect (one_of_two negotiating reconnecting t.state hit) (
              ap (λ (r : Session). to_connected r.granted_capabilities)
                (same_row id current t e xs p.0 found)))
          (λ s. told _ _ _ _ _ _ _ s)

reconnect_live-Ensures :
    (current : Session) (id endpoint_id : String) (role : Role) (expected : ℤ)
    → Ensures (Stored id current) (reconnect_live current id endpoint_id role expected) (λ _. Any)
unfolding reconnect_live
reconnect_live-Ensures current id endpoint_id role expected =
    Ensures-bind _ _ _ _ _ (Ensures-asks _ _) λ now.
      Ensures-bind _ _ _ _ _
        (transition-Ensures id _ now _ _ _ λ e xs t p found fresh hit.
          Edge.drop (one_of_two connected_view connected_control t.state hit)
            (ap to_reconnecting (same_row id current t e xs p.0 found)))
        (λ s. told _ _ _ _ _ _ _ s)

pub mark_reconnecting-Ensures :
    (id endpoint_id : String) (role : Role) (expected : ℤ)
    → Ensures Any (mark_reconnecting id endpoint_id role expected) (λ _. Any)
unfolding mark_reconnecting
mark_reconnecting-Ensures id endpoint_id role expected =
    Ensures-bind _ _ _ _ _ (get_session_for-Ensures role id endpoint_id) λ current.
      Ensures-if (state_eq current.state reconnecting || is_terminal_state current.state) _
        (pure current) _ _ (λ _. Ensures-pure _ _ _ (λ e xs p. tt))
        (λ _. reconnect_live-Ensures current id endpoint_id role expected)

pub refresh_ticket-Ensures :
    (id endpoint_id : String) (role : Role)
    → Ensures Any (refresh_ticket id endpoint_id role) (λ _. Any)
unfolding refresh_ticket
refresh_ticket-Ensures id endpoint_id role =
    Ensures-bind _ _ _ _ _ (get_session_for-Ensures role id endpoint_id)
      λ s. Ensures-bind _ _ _ _ _ (Ensures-fail_if _ _ _) λ _. after_Quiet _ _ (Quiet-issue _ _ _)

pub consume_ticket-Ensures :
    (ticket id endpoint_id : String) (role : Role) (revision : ℤ)
    → Ensures Any (consume_ticket ticket id endpoint_id role revision) (λ _. Any)
unfolding consume_ticket
consume_ticket-Ensures ticket id endpoint_id role revision =
    Ensures-bind _ _ _ _ _ (get_session-Ensures id Any) λ s.
      Ensures-bind _ _ _ _ _ (Ensures-fail_if _ _ _) λ _.
        Ensures-bind _ _ _ _ _ (Ensures-fail_if _ _ _)
          λ _. after_Quiet _ _ (Quiet-validate_and_consume _ _ _ _ _)
