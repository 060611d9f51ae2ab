-- ===== src/Session/Tests.antt =====
-- The theorems on sessions at concrete managers and queues.
use serein.Base.{◌+◌, ◌≡◌, refl, true, none, some, String, List, [], ◌∷◌, ltb, if◌then◌else◌, pos}
use serein.Base.Table.{find_key, update_key}
use serein.Agent.Model.{exec, Queue, Result, text}
use serein.Agent.Queue.{new_queue}
use serein.Agent.Reports.{history, get_cmd}
use serein.Session.Manager.{
  Session, Manager, new_session_manager, session_key, create_session, join_session, leave_session,
  cleanup, left, scoped_session_key, get_or_create_scoped_session,
}
use serein.Session.Consistent.{IsConsistent}
use serein.Session.Run.{
  Call, creates, creates_scoped, joins, leaves, cleans, removes, run, perform, draw_new,
}
use serein.Session.Run.Members.{IsMember, run-IsMember}
use serein.Session.Run.{run-IsConsistent}
use serein.Session.Window.{leave-cleanup, leave_limit}
use serein.Session.History.{get_history, history_private}

abbrev calls : List Call
calls =
    creates "s1" 100 "serein"
    ∷ joins "s1" "phone" "phone" 110
    ∷ creates_scoped "s2" 120 "serein" "issue-1"
    ∷ creates "s3" 130 "other"
    ∷ leaves "s3" "phone" 140
    ∷ cleans 40_000_000_000
    ∷ []

empty-IsConsistent : IsConsistent new_session_manager
unfolding new_session_manager
empty-IsConsistent = record { projects_live = tt; scopes_live = tt; all_found = tt }

run-IsConsistent_example : IsConsistent (run calls new_session_manager)
unfolding draw_new perform new_session_manager find_key create_session get_or_create_scoped_session
    join_session leave_session scoped_session_key cleanup update_key
run-IsConsistent_example = run-IsConsistent calls new_session_manager refl empty-IsConsistent

abbrev shared : Session
shared = record {
  id = "s1";
  project = "serein";
  scope = "";
  clients = record { client_id = "phone"; client_type = "phone"; joined_at = 110 } ∷ [];
  created_at = 100;
  last_activity = 110;
  pending_delete_at = none;
}

abbrev manager : Manager
manager = record { sessions = shared ∷ []; projects = ("serein", "s1") ∷ []; scopes = []; seq = 0 }

abbrev more : List Call
more =
    creates "s2" 120 "other"
    ∷ leaves "s1" "desk" 140
    ∷ cleans 9_000_000_000_000_000
    ∷ removes "s2"
    ∷ []

phone-IsMember : IsMember "s1" "phone" manager
unfolding find_key
phone-IsMember = record { session = shared; is_live = refl; has_joined = refl }

run-IsMember_example : IsMember "s1" "phone" (run more manager)
unfolding draw_new perform find_key create_session leave_session cleanup update_key
run-IsMember_example = run-IsMember "s1" "phone" more manager refl refl phone-IsMember

leave-cleanup_example :
    find_key session_key "s1"
      (cleanup 40_000_000_000 (leave_session "s1" "phone" 200 manager)).sessions
    ≡ (if ltb (200 + leave_limit shared) 40_000_000_000
        then none
        else some (left "phone" 200 shared))
unfolding find_key
leave-cleanup_example = leave-cleanup "s1" "phone" 200 40_000_000_000 manager shared refl refl

abbrev result : String → String → Result
result id session = record {
  cmd_id = id;
  success = true;
  output = text "ok";
  session_id = session;
  created_at = 7;
  action = exec;
}

abbrev queue : List Result → Queue
queue results = record (new_queue (pos 9)) { history = results }

history_private_example :
    get_history (some (queue (result "c1" "s1" ∷ result "c2" "s2" ∷ []))) "s1" (pos 9)
    ≡ get_history (some (queue (result "c1" "s1" ∷ []))) "s1" (pos 9)
unfolding history get_cmd new_queue find_key
history_private_example =
    history_private (queue (result "c1" "s1" ∷ result "c2" "s2" ∷ []))
      (queue (result "c1" "s1" ∷ [])) "s1" (pos 9) refl (refl, tt)
