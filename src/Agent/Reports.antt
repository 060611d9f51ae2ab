-- ===== src/Agent/Reports.antt =====
-- backend/internal/agent/relay.go: `NotifyResult`, the steps of commands, and what the queue tells of
-- its state.
use serein.Base.{
  ℕ, ◌-◌, Bool, true, false, ◌&&◌, ◌||◌, Option, none, some, String, List, [], ◌∷◌, ◌++◌, str_eq,
  ltb, ◌==◌, if◌then◌else◌, keep_if, length, drop, contains, ℤ, pos, negsuc,
}
use serein.Base.Table.{find_key}
use serein.Agent.Model.{Command, Step, Output, Result, Queue, cmd_key, set_mailbox}
use serein.Agent.Queue.{record_result}

abbrev pub reported_result : Command → Bool → Output → Result
reported_result cmd success output = record {
  cmd_id = cmd.id;
  success = success;
  output = output;
  session_id = cmd.session_id;
  created_at = cmd.created_at;
  action = cmd.action;
}

-- The first section of `NotifyResult`: the report is taken once, and of a stored command only.
abbrev pub accept_report : Option Command → Bool → Output → Queue → Option Result × Queue
accept_report none success output q = (none, q)
accept_report (some cmd) success output q =
    (some (reported_result cmd success output), record q { reported = cmd.id ∷ q.reported })

unfoldable pub take_report : String → Bool → Output → Queue → Option Result × Queue
take_report id success output q =
    if contains q.reported id
    then (none, q)
    else accept_report (find_key cmd_key id q.commands) success output q

-- `case notifyCh <- result: default:`, for a command that has a channel.
unfoldable pub send_result : Bool → Result → Queue → Queue
send_result notify r q = elim (q.mailboxes r.cmd_id) [
  | none ↦ if notify then record q { mailboxes = set_mailbox q.mailboxes r.cmd_id (some r) } else q
  | some _ ↦ q
]

-- `NotifyResult` with no section of another call in between.
abbrev pub notify_rest : Option Result → Bool → Queue → Queue
notify_rest none notify q = q
notify_rest (some r) notify q = send_result notify r (record_result r q)

abbrev pub has_channel : Option Command → Bool
has_channel none = false
has_channel (some c) = c.notify

unfoldable pub notify_result : String → Bool → Output → Queue → Queue
unfolding take_report send_result record_result
notify_result id success output q =
    let (r, q') = take_report id success output q in
    notify_rest r (has_channel (find_key cmd_key id q.commands)) q'

unfoldable pub last_status : List Result → Option Result
last_status [] = none
last_status (r ∷ []) = some r
last_status (r ∷ s ∷ rs) = last_status (s ∷ rs)

unfoldable pub pending_count : Queue → ℕ
pending_count q = length q.pending

unfoldable pub notify_step : Step → Queue → Queue
notify_step step q =
    let steps = q.steps ++ step ∷ [] in
    record q {
      steps =
          if ltb q.max_steps (length steps) then drop (length steps - q.max_steps) steps else steps;
    }

-- `s.Seq > afterSeq`
abbrev pub is_after : ℤ → ℤ → Bool
is_after (pos n) (pos m) = ltb n m
is_after (pos n) (negsuc m) = false
is_after (negsuc n) (pos m) = true
is_after (negsuc n) (negsuc m) = ltb m n

unfoldable pub steps_of : String → ℤ → Queue → List Step
steps_of id after q = keep_if (λ s. str_eq s.cmd_id id && is_after after s.seq) q.steps

-- `History`: the last results.
abbrev pub history_size : ℤ → ℕ → ℕ
history_size (pos n) total = if n == 0 || ltb total n then total else n
history_size (negsuc n) total = total

unfoldable pub history : ℤ → Queue → List Result
history n q = drop (length q.history - history_size n (length q.history)) q.history

unfoldable pub get_cmd : String → Queue → Option Command
get_cmd id q = elim (find_key cmd_key id q.commands) [
  | none ↦ none
  | some c ↦ some (record c {
    agent_type = "";
    work_scope = "";
    agent_session_id = "";
    agent_session_mode = "";
    runtime_mode = "";
  })
]
