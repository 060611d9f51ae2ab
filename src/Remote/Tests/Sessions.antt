-- ===== src/Remote/Tests/Sessions.antt =====
-- The theorems on sessions and their changes at the worlds of Remote/Tests.
use serein.Base.{◌*◌, ◌≡◌, refl, some, List, [], ◌∷◌, pos, All}
use serein.Base.Table.{find_key, update_key}
use serein.Remote.Model.{host, waiting_primary, allows, state_eq}
use serein.Remote.World.{Env, ok, err, conflict, ticket_consumed, ◌>>=◌}
use serein.Remote.Repository.{
  session_key, transition_session, approve_primary_session, get_session, moved,
}
use serein.Remote.Tickets.{second, consume_ticket_nonce, validate_and_consume, two_parts, is_scope}
use serein.Remote.Tickets.Once.{consume_ticket_nonce_once, validate_and_consume_sound, IsVerified}
use serein.Remote.Service.{to_negotiating, to_ended}
use serein.Remote.Lifecycle.{Lives}
use serein.Remote.Run.{Call, accepts, run, empty}
use serein.Remote.Run.Refines.{run-Lives}
use serein.Remote.Run.Sound.{run-IsSound, IsSound}
use serein.Remote.Run.History.{run_terminal}
use serein.Remote.Swap.{transition_once}
use serein.Remote.Swap.Outcome.{
  Swap, Changed, Approved, transition_session-Swap, approve_primary_session-Swap,
}
use serein.Remote.Tests.{claims, at, calls, waiting, finished, holding, spent_world}

run-Lives_example : Lives (holding waiting).sessions (run calls (holding waiting)).sessions
run-Lives_example = run-Lives calls (holding waiting)

run-IsSound_example : All IsSound (run calls empty).sessions
run-IsSound_example = run-IsSound calls

run_terminal_example :
    find_key session_key "s1" (run calls (holding finished)).sessions ≡ some finished
unfolding find_key
run_terminal_example = run_terminal calls (holding finished) "s1" finished refl refl

-- A host that the session is not for.
abbrev refused : List (Env × Call)
refused = (at 1010, accepts "s1" "h2" (pos 0)) ∷ []

transition_session_example :
    Swap "s1"
      (pos 1)
      (λ s. allows (waiting_primary ∷ []) s.state)
      (Changed (to_ended "no") 5)
      (holding waiting)
      (transition_session "s1"
        (pos 1)
        (waiting_primary ∷ [])
        (to_ended "no")
        5
        (at 1001)
        (holding waiting))
transition_session_example =
    transition_session-Swap "s1" (pos 1) (waiting_primary ∷ []) (to_ended "no") 5 (at 1001)
      (holding waiting)

approve_primary_session_example :
    Swap "s1"
      (pos 1)
      (λ s. state_eq s.state waiting_primary)
      (Approved 5)
      (holding waiting)
      (approve_primary_session "s1" (pos 1) 5 (at 1001) (holding waiting))
approve_primary_session_example =
    approve_primary_session-Swap "s1" (pos 1) 5 (at 1001) (holding waiting)

transition_once_example :
    transition_session "s1"
      (pos 1)
      (waiting_primary ∷ [])
      (to_negotiating [])
      6
      (at 1002)
      (holding (moved (to_ended "no") 5 waiting))
    ≡ (err conflict, holding (moved (to_ended "no") 5 waiting))
unfolding transition_session get_session find_key update_key moved ◌>>=◌
transition_once_example =
    transition_once "s1" 0 (waiting_primary ∷ []) (waiting_primary ∷ []) (to_ended "no")
      (to_negotiating []) 5 6 (at 1001) (at 1002) (holding waiting)
      (holding (moved (to_ended "no") 5 waiting)) (moved (to_ended "no") 5 waiting) refl

consume_ticket_nonce_once_example :
    (consume_ticket_nonce "x" "s1" "h1" host (pos 2) (1011 * second) (at 1011) spent_world).0
    ≡ err ticket_consumed
unfolding consume_ticket_nonce is_scope find_key update_key ◌>>=◌
consume_ticket_nonce_once_example =
    consume_ticket_nonce_once "x" "s1" "h1" host (pos 2) (1010 * second) (at 1010) (holding waiting)
      spent_world refl "s1" "h1" host (pos 2) (1011 * second) (at 1011)

validate_and_consume_sound_example :
    IsVerified (at 1010) "body.mac" "s1" "h1" host (pos 2) claims
    × (consume_ticket_nonce "x" "s1" "h1" host (pos 2) (1010 * second) (at 1010) (holding waiting)
        ≡ (ok tt, spent_world))
unfolding validate_and_consume consume_ticket_nonce is_scope two_parts find_key update_key ◌>>=◌
validate_and_consume_sound_example =
    validate_and_consume_sound "body.mac" "s1" "h1" host (pos 2) (at 1010) (holding waiting) claims
      spent_world refl
