-- ===== src/Agent/Run/Bounds/Sections.antt =====
-- Every section keeps the queue in order.
use serein.Base.{◌≡◌, true, List, [], ◌∷◌, arith}
use serein.Agent.Model.{Queue}
use serein.Agent.Queue.{mark_reported, receive_command, stop_waiting}
use serein.Agent.Reports.{take_report, send_result}
use serein.Agent.Run.{
  Section, enqueues, takes_result, marks, removes, dequeues, receives, stops, reports, records,
  sends, adds_step, act, run,
}
use serein.Agent.Run.Bounds.{IsQueue, is_fresh, are_fresh}
use serein.Agent.Run.Bounds.Same.{
  IsSame-IsQueue, send_result-IsSame, mark_reported-IsSame, receive_command-IsSame,
  take_report-IsSame, record_result-IsQueue, notify_step-IsQueue, dequeue-IsQueue,
  receive_result-IsQueue,
}
use serein.Agent.Run.Bounds.Stored.{enqueue-IsQueue, remove_cmd-IsQueue}

act-IsQueue : (s : Section) (q : Queue) → IsQueue q → is_fresh s q ≡ true → IsQueue (act s q)
unfolding act stop_waiting
act-IsQueue (enqueues now cmd) q h f = enqueue-IsQueue now cmd q h (ground (arith, f))
act-IsQueue (takes_result id) q h f = receive_result-IsQueue id q h
act-IsQueue (marks id) q h f = IsSame-IsQueue q (mark_reported id q).1 (mark_reported-IsSame id q) h
act-IsQueue (removes id) q h f = remove_cmd-IsQueue id q h
act-IsQueue (dequeues ch) q h f = dequeue-IsQueue ch q h
act-IsQueue (receives ch) q h f =
    IsSame-IsQueue q (receive_command ch q).1 (receive_command-IsSame ch q) h
act-IsQueue (stops ch) q h f = record {
  few_results = h.few_results;
  few_steps = h.few_steps;
  distinct = h.distinct;
  are_stored = h.are_stored;
}
act-IsQueue (reports id success output) q h f =
    IsSame-IsQueue q (take_report id success output q).1 (take_report-IsSame id success output q) h
act-IsQueue (records r) q h f = record_result-IsQueue r q h
act-IsQueue (sends notify r) q h f =
    IsSame-IsQueue q (send_result notify r q) (send_result-IsSame notify r q) h
act-IsQueue (adds_step step) q h f = notify_step-IsQueue step q h

-- When the queue was in order before, it is so after any sections of any threads in which every enqueued
-- command has an id that no pending command has: the history and the steps are within their bounds, the
-- pending commands have different ids, and each of them is stored.
pub run-IsQueue :
    (ss : List Section) (q : Queue) → IsQueue q → are_fresh ss q ≡ true → IsQueue (run ss q)
run-IsQueue [] q h f = h
run-IsQueue (s ∷ ss) q h f =
    run-IsQueue ss (act s q) (act-IsQueue s q h (ground (arith, f))) (ground (arith, f))
