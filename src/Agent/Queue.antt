-- ===== src/Agent/Queue.antt =====
-- backend/internal/agent/relay.go: the sections of the queue's operations that hold the lock, one
-- function each. Between two sections of one call, any sections of others may run.
use serein.Base.{
  ℕ, ◌+◌, ◌-◌, Bool, true, false, not, ◌&&◌, ◌||◌, Option, none, some, String, List, [], ◌∷◌, ◌++◌,
  str_eq, ltb, ◌==◌, if◌then◌else◌, keep_if, length, drop, any, contains, ℤ, pos, negsuc,
}
use serein.Base.Table.{upsert_key}
use serein.Agent.Model.{Command, text, Result, Queue, cmd_key, set_channel, set_mailbox}

abbrev pub max_stored_commands : ℕ
max_stored_commands = 500

unfoldable pub new_queue : ℤ → Queue
new_queue n = record {
  pending = [];
  commands = [];
  dequeued = [];
  reported = [];
  history = [];
  waiters = [];
  max_history = elim n [ pos m ↦ if m == 0 then 20 else m | negsuc m ↦ 20 ];
  steps = [];
  max_steps = 500;
  channels = λ _. none;
  mailboxes = λ _. none;
}

abbrev pub half_hour : ℕ
half_hour = 1_800_000_000_000

abbrev pub has_result : List Result → String → Bool
has_result history id = any (λ r. str_eq r.cmd_id id) history

-- The commands that `evictCompletedCommands` deletes: none that is pending; those with a result in
-- the history, and those that are older than half an hour.
unfoldable pub is_evicted : ℕ → Queue → Command → Bool
is_evicted now q c =
    not (any (λ p. str_eq p.id c.id) q.pending)
    && (has_result q.history c.id || ltb (c.created_at + half_hour) now)

abbrev pub is_gone : ℕ → Queue → String → Bool
is_gone now q id = any (λ c. str_eq c.id id && is_evicted now q c) q.commands

unfoldable pub evict_completed_commands : ℕ → Queue → Queue
unfolding is_evicted
evict_completed_commands now q = record q {
  commands = keep_if (λ c. not (is_evicted now q c)) q.commands;
  dequeued = keep_if (λ id. not (is_gone now q id)) q.dequeued;
  reported = keep_if (λ id. not (is_gone now q id)) q.reported;
}

-- `case ch <- cmd: default:` for each waiter.
unfoldable pub offer : Command → List ℕ → (ℕ → Option Command) → ℕ → Option Command
offer cmd [] channels = channels
offer cmd (ch ∷ chs) channels =
    offer cmd chs
      (elim (channels ch) [ none ↦ set_channel channels ch (some cmd) | some _ ↦ channels ])

-- The section of `EnqueueCmd` and `EnqueueOnly`, with the command as it is after its id, time and
-- channel have been set.
abbrev pub stored : Command → Queue → Queue
stored cmd q = record q {
  pending = q.pending ++ cmd ∷ [];
  commands = upsert_key cmd_key cmd (λ _. cmd) q.commands;
}

abbrev pub trimmed : ℕ → Queue → Queue
trimmed now q =
    if ltb max_stored_commands (length q.commands) then evict_completed_commands now q else q

abbrev pub offered : Command → Queue → Queue
offered cmd q = record q { waiters = []; channels = offer cmd q.waiters q.channels }

unfoldable pub enqueue : ℕ → Command → Queue → Queue
unfolding evict_completed_commands offer
enqueue now cmd q = offered cmd (trimmed now (stored cmd q))

-- `EnqueueOnly`; `EnqueueCmd` does the same with a channel, and waits.
unfoldable pub enqueue_only : String → ℕ → Command → Queue → String × Queue
unfolding enqueue
enqueue_only id now cmd q =
    (id, enqueue now (record cmd { id = id; created_at = now; notify = false }) q)

unfoldable pub enqueue_cmd : String → ℕ → Command → Queue → Queue
unfolding enqueue
enqueue_cmd id now cmd q = enqueue now (record cmd { id = id; created_at = now; notify = true }) q

-- `recordResult`
unfoldable pub record_result : Result → Queue → Queue
record_result r q =
    let history = q.history ++ r ∷ [] in
    record q {
      history =
          if ltb q.max_history (length history)
          then drop (length history - q.max_history) history
          else history;
    }

-- `EnqueueCmd` with a result in the channel: it is taken, recorded and returned.
unfoldable pub receive_result : String → Queue → Option Result × Queue
unfolding record_result
receive_result id q = elim (q.mailboxes id) [
  | none ↦ (none, q)
  | some r ↦ (some r, record_result r (record q { mailboxes = set_mailbox q.mailboxes id none }))
]

-- `handleTimeoutOrCancel`: its first section, with whether the command was reported before; the
-- result; and `removeCmd`.
unfoldable pub mark_reported : String → Queue → Bool × Queue
mark_reported id q =
    if contains q.reported id then (true, q) else (false, record q { reported = id ∷ q.reported })

abbrev pub failure : Command → String → Result
failure cmd message = record {
  cmd_id = cmd.id;
  success = false;
  output = text message;
  session_id = "";
  created_at = cmd.created_at;
  action = cmd.action;
}

abbrev pub without_first : String → List Command → List Command
without_first id [] = []
without_first id (c ∷ cs) =
    let rest = without_first id cs in if str_eq c.id id then cs else c ∷ rest

unfoldable pub remove_cmd : String → Queue → Queue
remove_cmd id q = record q {
  commands = keep_if (λ c. not (str_eq c.id id)) q.commands;
  reported = keep_if (λ r. not (str_eq r id)) q.reported;
  dequeued = keep_if (λ d. not (str_eq d id)) q.dequeued;
  pending = without_first id q.pending;
}

-- The three sections in a row.
unfoldable pub handle_timeout_or_cancel : Command → String → Queue → Result × Queue
unfolding mark_reported record_result remove_cmd
handle_timeout_or_cancel cmd message q =
    let (already, q') = mark_reported cmd.id q in
    let r = failure cmd message in
    (r, remove_cmd cmd.id (if already then q' else record_result r q'))

-- The loop of `Dequeue` over the pending commands.
unfoldable pub first_new : List String → List Command → Option Command × List Command
first_new dequeued [] = (none, [])
first_new dequeued (c ∷ cs) =
    let rest = first_new dequeued cs in if contains dequeued c.id then rest else (some c, cs)

-- The first section of `Dequeue`: a command, or `ch` waits.
abbrev pub taken : ℕ → Option Command → List Command → Queue → Queue
taken ch none rest q = record q {
  pending = rest;
  waiters = q.waiters ++ ch ∷ [];
  channels = set_channel q.channels ch none;
}
taken ch (some c) rest q = record q { pending = rest; dequeued = c.id ∷ q.dequeued }

unfoldable pub dequeue : ℕ → Queue → Option Command × Queue
unfolding first_new
dequeue ch q = let (found, rest) = first_new q.dequeued q.pending in (found, taken ch found rest q)

-- A waiter that receives a command returns it if it was not dequeued before.
unfoldable pub receive_command : ℕ → Queue → Option Command × Queue
receive_command ch q = elim (q.channels ch) [
  | none ↦ (none, q)
  | some c ↦
      let q' = record q { channels = set_channel q.channels ch none } in
      if contains q.dequeued c.id
      then (none, q')
      else (some c, record q' { dequeued = c.id ∷ q.dequeued })
]

abbrev pub without_waiter : ℕ → List ℕ → List ℕ
without_waiter ch [] = []
without_waiter ch (w ∷ ws) = let rest = without_waiter ch ws in if w == ch then ws else w ∷ rest

-- A waiter whose time is over.
unfoldable pub stop_waiting : ℕ → Queue → Queue
stop_waiting ch q = record q { waiters = without_waiter ch q.waiters }
