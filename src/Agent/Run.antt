-- ===== src/Agent/Run.antt =====
-- Sections of calls of the command queue, in any order, as threads of backend/internal/agent/relay.go
-- may interleave them: what each does, hands out and settles, and whose marks it clears.
pub mod Marks
pub mod Once
pub mod Bounds
pub mod Late
use serein.Base.{
  ℕ, Bool, true, false, not, ◌&&◌, Option, none, some, String, List, [], ◌∷◌, ltb, length, str_eq,
  contains, if◌then◌else◌,
}
use serein.Agent.Model.{Command, Step, Output, Result, Queue, cmd_key}
use serein.Agent.Queue.{
  enqueue, receive_result, record_result, mark_reported, remove_cmd, dequeue, receive_command,
  stop_waiting, is_gone, stored, max_stored_commands,
}
use serein.Agent.Reports.{take_report, send_result, notify_step}

pub data Section : Type 0 where
  enqueues : ℕ → Command → Section
  takes_result : String → Section
  marks : String → Section
  removes : String → Section
  dequeues receives stops : ℕ → Section
  reports : String → Bool → Output → Section
  records : Result → Section
  sends : Bool → Result → Section
  adds_step : Step → Section

-- The queue after a section.
unfoldable pub act : Section → Queue → Queue
act (enqueues now cmd) q = enqueue now cmd q
act (takes_result id) q = (receive_result id q).1
act (marks id) q = (mark_reported id q).1
act (removes id) q = remove_cmd id q
act (dequeues ch) q = (dequeue ch q).1
act (receives ch) q = (receive_command ch q).1
act (stops ch) q = stop_waiting ch q
act (reports id success output) q = (take_report id success output q).1
act (records r) q = record_result r q
act (sends notify r) q = send_result notify r q
act (adds_step step) q = notify_step step q

-- The command that a section hands to an agent.
abbrev pub handed : Section → Queue → Option Command
handed (dequeues ch) q = (dequeue ch q).0
handed (receives ch) q = (receive_command ch q).0
handed _ q = none

abbrev pub result_id : Option Result → Option String
result_id none = none
result_id (some r) = some r.cmd_id

-- The command that a section settles: by a report that is accepted, or by its time being over.
abbrev pub settled : Section → Queue → Option String
settled (reports id success output) q = result_id (take_report id success output q).0
settled (marks id) q = if (mark_reported id q).0 then none else some id
settled _ q = none

-- Whether a section deletes the marks of a command: it is removed, or evicted.
abbrev pub clears : Section → Queue → String → Bool
clears (removes j) q id = str_eq j id
clears (enqueues now cmd) q id =
    ltb max_stored_commands (length (stored cmd q).commands) && is_gone now (stored cmd q) id
clears _ q id = false

abbrev pub run : List Section → Queue → Queue
run [] q = q
run (s ∷ ss) q = run ss (act s q)

abbrev pub or_skip : {A : Type 0} → Option A → List A → List A
or_skip none xs = xs
or_skip (some a) xs = a ∷ xs

-- The events of the sections, in their order.
abbrev pub all_events : {A : Type 0} → (Section → Queue → Option A) → List Section → Queue → List A
all_events event [] q = []
all_events event (s ∷ ss) q = or_skip (event s q) (all_events event ss (act s q))

-- No section deletes the marks of the command.
abbrev pub keeps : String → List Section → Queue → Bool
keeps id [] q = true
keeps id (s ∷ ss) q = not (clears s q id) && keeps id ss (act s q)
