-- ===== src/Relay/Commands.antt =====
-- backend/internal/api/agent_relay.go: the handler `Cmd`, by which the app sends a command into the queue
-- of its session. Where the caller waits for the result, this is the part before it waits; the broadcast for
-- a chat, which the check of the request refuses, and the log are left out.
pub mod Sent
use serein.Base.{
  ℕ, ◌≡◌, refl, Bool, true, false, not, Option, none, some, String, [], ◌∷◌, ◌++◌, leb, contains,
  if◌then◌else◌,
}
use serein.Agent.Model.{Command, Queue}
use serein.Agent.Queue.{enqueue, enqueue_only, enqueue_cmd}
use serein.Agent.Fifo.{waiting, enqueue_lem}
use serein.Session.Manager.{Session, Manager, create_session, get_or_create_scoped_session}
use serein.Risk.Patterns.{Regexp}
use serein.Relay.Requests.{CmdRequest, is_set, validate_cmd_request}

-- `running` counts the requests that hold a slot of `cmdSem`.
pub record AgentRelay : Type 0 where
  pub queue : Option Queue
  pub sessions : Option Manager
  pub running : ℕ

pub data CmdReply : Type 0 where
  unavailable unsupported bad_request : String → CmdReply
  queued : String → CmdReply  -- `async`
  waits : String → CmdReply

abbrev pub max_cmd_concurrent : ℕ
max_cmd_concurrent = 5

abbrev pub id_and : Session × Manager → String × Option Manager
id_and (s, m) = (s.id, some m)

-- The session of a request, which is created where there is none.
unfoldable pub session_for : String → ℕ → CmdRequest → Option Manager → String × Option Manager
session_for sid now req none = ("", none)
session_for sid now req (some m) =
    if is_set req.work_scope
    then id_and (get_or_create_scoped_session sid now req.project req.work_scope m)
    else id_and (create_session sid now req.project m)

abbrev pub command_for : CmdRequest → String → Command
command_for req session_id = record {
  id = "";
  action = req.action;
  project = req.project;
  agent_type = req.agent_type;
  work_scope = req.work_scope;
  agent_session_id = req.agent_session_id;
  agent_session_mode = req.agent_session_mode;
  runtime_mode = req.runtime_mode;
  command = req.command;
  file_name = "";
  file_data = "";
  session_id = session_id;
  created_at = 0;
  notify = false;
}

abbrev pub put_command : Bool → String → ℕ → Command → Queue → CmdReply × Queue
put_command true id now cmd q = let (given, q') = enqueue_only id now cmd q in (queued given, q')
put_command false id now cmd q = (waits id, enqueue_cmd id now cmd q)

-- What follows the checks; `cmdSem` gives its slot back when the handler returns.
abbrev pub send_checked :
    Bool → String → String → ℕ → CmdRequest → Queue → AgentRelay → CmdReply × AgentRelay
send_checked is_async id sid now req q relay =
    if leb max_cmd_concurrent relay.running
    then (unavailable "too many concurrent requests", relay)
    else (let (session_id, sessions) = session_for sid now req relay.sessions in
        let (reply, q') = put_command is_async id now (command_for req session_id) q in
        (reply, record relay { queue = some q'; sessions = sessions }))

module _ (compile : Regexp) (to_lower : String → String) (is_print : ℕ → Bool) where
  abbrev pub send_valid :
      Option String
      → Bool
      → String
      → String
      → ℕ
      → CmdRequest
      → Queue
      → AgentRelay
      → CmdReply × AgentRelay
  send_valid (some e) is_async id sid now req q relay = (bad_request e, relay)
  send_valid none is_async id sid now req q relay = send_checked is_async id sid now req q relay

  abbrev pub send_decoded :
      Option CmdRequest → Bool → String → String → ℕ → Queue → AgentRelay → CmdReply × AgentRelay
  send_decoded none is_async id sid now q relay = (bad_request "invalid json", relay)
  send_decoded (some req) is_async id sid now q relay =
      send_valid (validate_cmd_request compile to_lower is_print req) is_async id sid now req q
        relay

  abbrev pub send_to :
      Option Queue
      → Bool
      → Option CmdRequest
      → Bool
      → String
      → String
      → ℕ
      → AgentRelay
      → CmdReply × AgentRelay
  send_to none has_json req is_async id sid now relay =
      (unavailable "command queue not initialized", relay)
  send_to (some q) has_json req is_async id sid now relay =
      if not has_json
      then (unsupported "content-type must be application/json", relay)
      else send_decoded req is_async id sid now q relay

  -- `Cmd`; `id` and `sid` are the random ids of the command and of the session.
  unfoldable pub cmd :
      Bool → Option CmdRequest → Bool → String → String → ℕ → AgentRelay → CmdReply × AgentRelay
  cmd has_json req is_async id sid now relay =
      send_to relay.queue has_json req is_async id sid now relay
