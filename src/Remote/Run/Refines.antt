-- ===== src/Remote/Run/Refines.antt =====
-- The service refines the diagram of Remote/Lifecycle.
use serein.Base.{List, [], ◌∷◌}
use serein.Remote.World.{Env, World, Action}
use serein.Remote.Lifecycle.{Lives, Lives-refl, Lives-trans}
use serein.Remote.Lifecycle.Rules.{Fact, Any, Ensures, Outcome, done, failed}
use serein.Remote.Lifecycle.Quiet.{Quiet, Ensures-Quiet}
use serein.Remote.Lifecycle.Reads.{
  get_session_for_controller-Ensures, get_session_for_host-Ensures, list_pending_for_host-Ensures,
  list_pending_for_primary-Ensures,
}
use serein.Remote.Lifecycle.Calls.{
  approve_by_primary-Ensures, reject_by_primary-Ensures, accept-Ensures, reject-Ensures,
  end_by_controller-Ensures, end_by_host-Ensures,
}
use serein.Remote.Lifecycle.Media.{
  mark_connected-Ensures, mark_reconnecting-Ensures, refresh_ticket-Ensures, consume_ticket-Ensures,
}
use serein.Remote.Lifecycle.Hosts.{
  register_host_credential-Ensures, heartbeat_host-Ensures, request_session-Ensures,
  Quiet-authenticate_host, Quiet-revoke_host_credential,
}
use serein.Remote.Run.{
  Call, register, authenticate, revoke, heartbeat, request, read_as_controller, read_as_host,
  pending_for_host, pending_for_primary, approve, refuse, accepts, rejects, end_as_controller,
  end_as_host, connected, disconnected, new_ticket, use_ticket, perform, run,
}

lived :
    {A : Type 0} (Q : A → Fact) (m : Action A) (e : Env) (w : World)
    → Outcome Q e w.sessions (m e w)
    → Lives w.sessions (m e w).1.sessions
lived Q m e w (done a w' eq l q) = rw eq l
lived Q m e w (failed x w' eq l) = rw eq l

lives :
    {A : Type 0} (Q : A → Fact) (m : Action A) (e : Env) (w : World)
    → Ensures Any m Q
    → Lives w.sessions (m e w).1.sessions
lives Q m e w h = lived Q m e w (h.at e w tt)

Quiet-Lives :
    {A : Type 0} (m : Action A) (e : Env) (w : World)
    → Quiet m
    → Lives w.sessions (m e w).1.sessions
Quiet-Lives m e w q = lives _ m e w (Ensures-Quiet m Any q)

-- Every call, whatever its arguments, its environment and its outcome, leaves each stored session
-- in its place, moved along the edges of the diagram only, and adds rows only as fresh requests.
pub perform-Lives : (c : Call) (e : Env) (w : World) → Lives w.sessions (perform c e w).sessions
unfolding perform
perform-Lives (register input) e w = lives _ _ e w (register_host_credential-Ensures input)
perform-Lives (authenticate id token) e w = Quiet-Lives _ e w (Quiet-authenticate_host id token)
perform-Lives (revoke id) e w = Quiet-Lives _ e w (Quiet-revoke_host_credential id)
perform-Lives (heartbeat id input) e w = lives _ _ e w (heartbeat_host-Ensures id input)
perform-Lives (request id input) e w = lives _ _ e w (request_session-Ensures id input)
perform-Lives (read_as_controller id actor) e w =
    lives _ _ e w (get_session_for_controller-Ensures id actor)
perform-Lives (read_as_host id actor) e w = lives _ _ e w (get_session_for_host-Ensures id actor)
perform-Lives (pending_for_host id) e w = lives _ _ e w (list_pending_for_host-Ensures id)
perform-Lives pending_for_primary e w = lives _ _ e w list_pending_for_primary-Ensures
perform-Lives (approve id actor r) e w = lives _ _ e w (approve_by_primary-Ensures id actor r)
perform-Lives (refuse id actor why r) e w = lives _ _ e w (reject_by_primary-Ensures id actor why r)
perform-Lives (accepts id actor r) e w = lives _ _ e w (accept-Ensures id actor r)
perform-Lives (rejects id actor why r) e w = lives _ _ e w (reject-Ensures id actor why r)
perform-Lives (end_as_controller id actor why r) e w =
    lives _ _ e w (end_by_controller-Ensures id actor why r)
perform-Lives (end_as_host id actor why r) e w = lives _ _ e w (end_by_host-Ensures id actor why r)
perform-Lives (connected id actor r) e w = lives _ _ e w (mark_connected-Ensures id actor r)
perform-Lives (disconnected id actor role r) e w =
    lives _ _ e w (mark_reconnecting-Ensures id actor role r)
perform-Lives (new_ticket id actor role) e w = lives _ _ e w (refresh_ticket-Ensures id actor role)
perform-Lives (use_ticket ticket id actor role r) e w =
    lives _ _ e w (consume_ticket-Ensures ticket id actor role r)

-- Any sequence of calls, whatever their arguments, environments and outcomes, leaves each stored
-- session in its place, moved along the edges of the diagram of Remote/Lifecycle only, and adds
-- rows only as fresh requests and what the diagram makes of them.
pub run-Lives : (calls : List (Env × Call)) (w : World) → Lives w.sessions (run calls w).sessions
unfolding run
run-Lives [] w = Lives-refl w.sessions
run-Lives ((e, c) ∷ calls) w =
    Lives-trans w.sessions (perform c e w).sessions (run calls (perform c e w)).sessions
      (perform-Lives c e w) (run-Lives calls (perform c e w))
