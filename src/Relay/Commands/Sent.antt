-- ===== src/Relay/Commands/Sent.antt =====
-- What becomes of a command that the app sends (`Cmd` of backend/internal/api/agent_relay.go): of the
-- request, of its session, and of the queue.
use serein.Base.{
  ℕ, ◌<◌, ◌≤◌, ◌≡◌, refl, sym, ◌∙◌, ap, subst, Bool, true, false, not, Option, some, String, [],
  ◌∷◌, ◌++◌, str_eq, leb, contains, if◌then◌else◌, arith, Bool-cases, Option-cases, inl, inr,
}
use serein.Base.Table.{find_key}
use serein.Agent.Model.{Command, Queue}
use serein.Agent.Queue.{enqueue, enqueue_only, enqueue_cmd}
use serein.Agent.Fifo.{waiting, enqueue_lem}
use serein.Session.Manager.{
  Session, Manager, entry_key, lookup, scoped_session_key, create_session,
  get_or_create_scoped_session,
}
use serein.Session.Consistent.{IsConsistent, scoped_key}
use serein.Session.Run.{is_unused}
use serein.Session.Found.{create_session_found, get_or_create_scoped_session_found}
use serein.Risk.Patterns.{Regexp}
use serein.Relay.Requests.{CmdRequest, validate_cmd_request}
use serein.Relay.Requests.Accepted.{is_acceptable, validate_cmd_request_lem}
use serein.Relay.Commands.{
  AgentRelay, CmdReply, queued, waits, unavailable, bad_request, max_cmd_concurrent, session_for,
  command_for, put_command, send_checked, send_to, cmd,
}

-- The session that a manager has for a request: that of its scope in the project, if it has a scope, and
-- else that of its project.
abbrev pub session_of : CmdRequest → Manager → Option Session
session_of req m =
    if str_eq req.work_scope ""
    then lookup (find_key entry_key req.project m.projects) m.sessions
    else lookup (find_key entry_key (scoped_session_key req.project req.work_scope) m.scopes)
        m.sessions

-- The key that a session has, as far as the request asks, and the one that it asks for.
abbrev pub key_of : CmdRequest → Session → String
key_of req s = if str_eq req.work_scope "" then s.project else scoped_key s

abbrev pub asked_key : CmdRequest → String
asked_key req =
    if str_eq req.work_scope "" then req.project else scoped_session_key req.project req.work_scope

module _ (sid : String) (now : ℕ) (m : Manager) (new : is_unused sid m ≡ true)
    (i : IsConsistent m) where
  -- The session that a request is given: its id, and the managers' sessions after.
  session_for_found :
      (req : CmdRequest)
      → (s : Session) × (m' : Manager) × (session_for sid now req (some m) ≡ (s.id, some m'))
        × (session_of req m' ≡ some s)
        × (key_of req s ≡ asked_key req)
  unfolding session_for
  session_for_found req = elim (Bool-cases (str_eq req.work_scope "")) [
    | inl plain ↦
        let out = create_session sid now req.project m in
        let (there, has) = create_session_found sid now m new i req.project in
        rw plain (out.0, out.1, refl, there, has)
    | inr scoped ↦
        let out = get_or_create_scoped_session sid now req.project req.work_scope m in
        let (there, has) =
          get_or_create_scoped_session_found sid now m new i req.project req.work_scope in
        rw scoped (out.0, out.1, refl, there, has)
  ]

-- The command that stands for a request in the queue.
abbrev pub sent_command : CmdRequest → String → String → ℕ → Bool → Command
sent_command req id session_id now notify = record {
  id = id;
  action = req.action;
  project = req.project;
  agent_type = req.agent_type;
  work_scope = req.work_scope;
  agent_session_id = req.agent_session_id;
  agent_session_mode = req.agent_session_mode;
  runtime_mode = req.runtime_mode;
  command = req.command;
  file_name = "";
  file_data = "";
  session_id = session_id;
  created_at = now;
  notify = notify;
}

-- The reply to a request whose command has been put into the queue.
abbrev pub sent_reply : Bool → String → CmdReply
sent_reply is_async id = if is_async then queued id else waits id

module _ (compile : Regexp) (to_lower : String → String) (is_print : ℕ → Bool) where
  -- The ends of a request `req`, with the relay before it, its queue and the ids that may be given.
  pub data Sends (req : CmdRequest) (is_async : Bool) (id : String) (now : ℕ) (q : Queue)
      (relay : AgentRelay) : CmdReply × AgentRelay → Type 0 where
    invalid :
        (message : String)
        → is_acceptable compile to_lower is_print req req.action ≡ false
        → Sends req is_async id now q relay (bad_request message, relay)
    busy :
        is_acceptable compile to_lower is_print req req.action ≡ true
        → 5 ≤ relay.running
        → Sends req is_async id now q relay (unavailable "too many concurrent requests", relay)
    sent :
        (s : Session) (q' : Queue) (m' : Manager)
        → is_acceptable compile to_lower is_print req req.action ≡ true
        → relay.running < 5
        → session_of req m' ≡ some s
        → key_of req s ≡ asked_key req
        → waiting q' ≡ waiting q ++ sent_command req id s.id now (not is_async) ∷ []
        → Sends req is_async id now q relay
            (sent_reply is_async id, record relay { queue = some q'; sessions = some m' })

  put_command-Sends :
      (req : CmdRequest) (is_async : Bool) (id : String) (now : ℕ) (q : Queue) (relay : AgentRelay)
      (s : Session) (m' : Manager)
      → contains q.dequeued id ≡ false
      → is_acceptable compile to_lower is_print req req.action ≡ true
      → relay.running < 5
      → session_of req m' ≡ some s
      → key_of req s ≡ asked_key req
      → let out = put_command is_async id now (command_for req s.id) q in
        Sends req is_async id now q relay
          (out.0, record relay { queue = some out.1; sessions = some m' })
  unfolding enqueue_only enqueue_cmd
  put_command-Sends req true id now q relay s m' new ok free found has =
      let added = sent_command req id s.id now false in
      sent s (enqueue now added q) m' ok free found has (enqueue_lem now added q new)
  put_command-Sends req false id now q relay s m' new ok free found has =
      let added = sent_command req id s.id now true in
      sent s (enqueue now added q) m' ok free found has (enqueue_lem now added q new)

  -- What follows the checks of the request.
  send_checked-Sends :
      (req : CmdRequest) (is_async : Bool) (id sid : String) (now : ℕ) (q : Queue) (m : Manager)
      (relay : AgentRelay)
      → relay.sessions ≡ some m
      → is_unused sid m ≡ true
      → IsConsistent m
      → contains q.dequeued id ≡ false
      → is_acceptable compile to_lower is_print req req.action ≡ true
      → Sends req is_async id now q relay (send_checked is_async id sid now req q relay)
  send_checked-Sends req is_async id sid now q m relay kept unused_sid consistent new ok =
      let (s, m', given, found, has) = session_for_found sid now m unused_sid consistent req in
      elim (Bool-cases (leb max_cmd_concurrent relay.running)) [
        | inl full ↦ rw full (busy ok (ground (arith, full)))
        | inr free ↦
            rw (free, ap (session_for sid now req) kept ∙ given)
              (put_command-Sends req is_async id now q relay s m' new ok (ground (arith, free))
                found has)
      ]

  -- A request of the app in JSON, where the queue is there, the sessions are there and consistent, the
  -- random id of a session is that of none, and the command's is marked as dequeued by none. A request
  -- that is not acceptable is refused, and so is one while five or more run; nothing changes. In any other
  -- case one command is added, at the end of those that wait, with the fields of the request, the time,
  -- the id that the reply gives, and the id of a session that the manager then has: under the scope that
  -- the request names in its project, and whose own project and scope make this key; or, where it names no
  -- scope, under its project, which is the session's own.
  pub cmd-Sends :
      (req : CmdRequest) (is_async : Bool) (id sid : String) (now : ℕ) (q : Queue) (m : Manager)
      (relay : AgentRelay)
      → relay.queue ≡ some q
      → relay.sessions ≡ some m
      → is_unused sid m ≡ true
      → IsConsistent m
      → contains q.dequeued id ≡ false
      → Sends req is_async id now q relay
          (cmd compile to_lower is_print true (some req) is_async id sid now relay)
  unfolding cmd
  cmd-Sends req is_async id sid now q m relay queued_in kept unused_sid consistent new =
      let is_checked = validate_cmd_request_lem compile to_lower is_print req in
      subst
        (λ o.
          Sends req is_async id now q relay
            (send_to compile to_lower is_print o true (some req) is_async id sid now relay))
        (sym queued_in)
        (elim (Option-cases (validate_cmd_request compile to_lower is_print req)) [
          | inl fine ↦ rw fine (
              send_checked-Sends req is_async id sid now q m relay kept unused_sid consistent new
                (ground (arith, is_checked, fine)))
          | inr (message, wrong) ↦ rw wrong (invalid message (ground (arith, is_checked, wrong)))
        ])
