-- ===== src/Agent/Tests.antt =====
-- The theorems on the command queue at concrete queues.
use serein.Base.{◌≡◌, ◌≢◌, refl, true, String, List, [], ◌∷◌, All, arith, contains, pos}
use serein.Base.Table.{find_key}
use serein.Agent.Model.{exec, Command, Queue, text}
use serein.Agent.Queue.{
  new_queue, dequeue, first_new, enqueue, handle_timeout_or_cancel, receive_command, remove_cmd,
  offer, mark_reported,
}
use serein.Agent.Reports.{notify_result}
use serein.Agent.Fifo.{waiting, head_of, others, dequeue_lem, is_listed}
use serein.Agent.Run.{
  Section, enqueues, dequeues, receives, reports, marks, removes, act, run, handed, settled,
  all_events,
}
use serein.Agent.Run.Once.{handed_once, settled_once}
use serein.Agent.Run.Bounds.{IsQueue}
use serein.Agent.Run.Bounds.Sections.{run-IsQueue}
use serein.Agent.Run.Late.{late_report}

abbrev command : String → Command
command id = record {
  id = id;
  action = exec;
  project = "serein";
  agent_type = "";
  work_scope = "";
  agent_session_id = "";
  agent_session_mode = "";
  runtime_mode = "";
  command = "make";
  file_name = "";
  file_data = "";
  session_id = "s1";
  created_at = 100;
  notify = true;
}

abbrev fresh : Queue
fresh = new_queue (pos 2)

-- Two commands wait, and the first was handed out before.
abbrev busy : Queue
busy = record fresh {
  pending = command "c1" ∷ command "c2" ∷ [];
  commands = command "c1" ∷ command "c2" ∷ [];
  dequeued = "c1" ∷ [];
}

dequeue_example :
    ((dequeue 7 busy).0 ≡ head_of (waiting busy))
    × (waiting (dequeue 7 busy).1 ≡ others (head_of (waiting busy)) (waiting busy))
dequeue_example = dequeue_lem 7 busy

abbrev later : List Section
later = receives 8 ∷ dequeues 9 ∷ reports "c2" true (text "done") ∷ dequeues 10 ∷ []

handed_once_example : All (λ d. d.id ≢ "c2") (all_events handed later (act (dequeues 7) busy))
unfolding dequeue first_new contains new_queue
handed_once_example = handed_once (dequeues 7) busy (command "c2") later refl refl

settled_once_example : All (λ j. j ≢ "c2") (all_events settled later (act (marks "c2") busy))
unfolding mark_reported contains new_queue
settled_once_example = settled_once (marks "c2") busy "c2" later refl refl

fresh-IsQueue : IsQueue fresh
unfolding new_queue
fresh-IsQueue = record {
  few_results = omega arith;
  few_steps = omega arith;
  distinct = tt;
  are_stored = tt;
}

run-IsQueue_example : IsQueue (run (enqueues 100 (command "c1") ∷ later) fresh)
unfolding is_listed new_queue
run-IsQueue_example = run-IsQueue (enqueues 100 (command "c1") ∷ later) fresh fresh-IsQueue refl

late_report_example :
    let q' = run later (handle_timeout_or_cancel (command "c1") "request cancelled" busy).1 in
    notify_result "c1" true (text "done") q' ≡ q'
late_report_example =
    late_report (command "c1") "request cancelled" busy later true (text "done") refl

-- The queue hands a command to every waiter's channel. If it is removed after one of them has taken it,
-- its mark is gone, and a second one takes it too.
twice :
    all_events handed
      (dequeues 1
        ∷ dequeues 2
        ∷ enqueues 100 (command "c1")
        ∷ receives 1
        ∷ removes "c1"
        ∷ receives 2
        ∷ [])
      fresh
    ≡ command "c1" ∷ command "c1" ∷ []
unfolding act dequeue first_new enqueue receive_command remove_cmd contains new_queue offer find_key
twice = refl
