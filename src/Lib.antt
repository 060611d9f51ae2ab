-- ===== src/Lib.antt =====
-- The backend of Serein, where a phone supervises agents and views desktops: a verification library.
--
-- The parts, and what they ask of each other. An agent's command is classified
-- (backend/internal/risk, with the tables of backend/internal/store), a call that is red is put
-- before the permission mode of the phone (backend/internal/session/message.go), and what is left
-- waits for the phone's answer (backend/internal/approval; backend/internal/api/approval_handler.go
-- joins these). The phone and the terminals share sessions (backend/internal/session/manager.go),
-- whose commands wait in a queue for an agent to take them (backend/internal/agent, reached by
-- backend/internal/api/agent_relay.go). Apart from that, backend/internal/remote lets a phone view or
-- control a desktop host: a session is requested, approved by the primary phone, accepted by the host
-- and connected with single-use tickets, and every change of it is a compare-and-swap on its
-- revision. A rate limiter (backend/internal/api/ratelimit.go) stands before the sensitive routes of
-- the API.
--
--   Base: what the parts share. Base/Table has the statements on a table with a primary key and the
--     relation `Grows` between the table before and after; Base/Text has Go's string functions.
--   Remote/Model, Remote/World: the records of remote/model.go; the rows of all tables, the events
--     that were emitted, and actions that may fail.
--   Remote/Repository, Remote/Audit, Remote/Tickets: repository.go and tickets.go.
--   Remote/Capability, Remote/Service: the checks and the operations of service.go.
--   Remote/Scanner: the scan of audit events of audit_scanner.go, and how often it alerts.
--   Remote/Lifecycle: the life of a session as a diagram, and that each operation follows it.
--   Remote/Run: the calls of the API and sequences of them, with what holds after any sequence.
--   Remote/Swap, Remote/Waiting: the compare-and-swap, its ends (Remote/Swap/Outcome), and sessions
--     that wait too long.
--   Remote/Authentication, Remote/Tickets/Once, Remote/Tickets/RoundTrip, Remote/Audit/Privacy: the
--     credentials of hosts, tickets, and the audit events that a controller is shown.
--   Remote/Capability/Requests, Remote/Capability/Reasons: the capabilities that are asked for, and
--     the texts of end reasons.
--   Approval/Model, Approval/Service, Approval/Scanner: model.go, service.go, timeout_scanner.go.
--   Approval/Run, Approval/Pages: sequences of calls on the approvals; the pages of their history.
--   Risk/Patterns, Risk/Memo: store/blacklist_repo.go (and whitelist_repo.go, the same code) and
--     store/session_repo.go. Risk/Rules, Risk/Engine: rules.go and engine.go of risk.
--   Risk/Permission: EvaluatePermission and what it calls. Risk/Priority, Risk/Reload: the proofs.
--   Gate/Handlers, Gate/Routes: the handlers of backend/internal/api/approval_handler.go, where the
--     classification, the permission mode, the approvals and the session memo meet. Gate/Outcome,
--     Gate/Remembered: what they make of a request and of an answer. Gate/Run: sequences of their
--     calls.
--   Session/Manager, Session/History: the sessions that phones and terminals share, and their
--     history, of backend/internal/session/manager.go. Session/Consistent, Session/Found,
--     Session/Run, Session/Window: the maps of sessions, what is found in them, sequences of calls
--     on them, and how long a session waits for its clients.
--   Relay/Requests, Relay/Commands: the check of the app's commands and the handler that puts them
--     into the queue, of backend/internal/api/agent_relay.go. Relay/Commands/Sent: what becomes of
--     such a command. Relay/Json, Relay/Output: the filter on what agents report.
--   RateLimit, RateLimit/Window: the sliding window of api/ratelimit.go.
--   Agent/Model, Agent/Queue, Agent/Reports: the command queue of backend/internal/agent/relay.go,
--     one function for each section that holds its lock. Agent/Fifo: the pending commands as a
--     queue. Agent/Run: sections of many calls in any order, and what holds after them.
--   The Tests modules apply the theorems to concrete data.
--
-- How the code is read. A function has the name of the source's in snake_case. Times are nanoseconds
-- as natural numbers; a call of the remote service reads the clock once (`Env.now`), and a time minus
-- a duration is compared with the duration on the other side. There is one database connection, so
-- calls run one after another; a table is the list of its rows, and the first row with a key is the
-- row. Constraints of the schema that are enforced are errors, other failures of the database are not
-- modelled; rows that an ORDER BY leaves tied keep their order. Revisions are natural numbers and
-- those that a caller expects are integers. Texts are sequences of code points. SHA-256, HMAC,
-- base64, JSON, UUIDs and random values are functions of the environment `Env`, and regular
-- expressions a parameter `compile`, of which nothing is assumed. The threads of the queue of
-- commands share nothing but its fields, which are read and written with its lock held, and channels,
-- of which each has one slot: a channel is an optional value. The handlers of the approvals and of
-- commands are one step each, and an operation on sessions holds its lock throughout. No loop needs
-- fuel: all are recursion on lists or on documents.
--
-- Not modelled: the rest of the HTTP and WebSocket layer, the other routes of the agent relay, the
-- statistics of approvals, push and notifications (I/O), configuration and logging, and the programs
-- outside backend.
pub mod Base
pub mod Remote
pub mod Approval
pub mod Risk
pub mod Agent
pub mod Gate
pub mod Session
pub mod Relay
pub mod RateLimit
