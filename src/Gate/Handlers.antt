-- ===== src/Gate/Handlers.antt =====
-- backend/internal/api/approval_handler.go: the handlers. A request is its decoded body, or `none` where
-- JSON is invalid; a reply is the status with what the body says. Each call of the service reads the
-- clock. The texts of signals and the log are left out.
use serein.Base.{
  ℕ, Bool, true, false, not, ◌&&◌, Option, none, some, String, List, [], ◌∷◌, ◌++◌, str_eq,
  if◌then◌else◌, ◌^^◌,
}
use serein.Approval.Model.{Record, CreateReq, Decision, decision_eq, allow, deny}
use serein.Approval.Service.{create, decide, get, status}
use serein.Risk.Patterns.{Regexp}
use serein.Risk.Memo.{SessionMemo, remember}
use serein.Risk.Engine.{Level, green, yellow, red, Engine, classify}
use serein.Risk.Permission.{
  Mode, default, accept_edits, bypass_permissions, plan, read_only, safe_yolo, yolo, other,
  PermissionDecision, needs_approval, auto_approve, auto_deny, evaluate_permission,
}

-- `createReq`; the risk level and the reason that a client states are not read.
pub record SubmitReq : Type 0 where
  pub session_id : String
  pub tool_name : String
  pub command : String
  pub cwd : String
  pub risk_level : String
  pub rule_reason : String
  pub project : String
  pub diff : String

-- What phones are told: by WebSocket of a new approval and of a decision, and by ntfy and by push.
pub data Signal : Type 0 where
  created_update : String → String → Level → Signal
  decided_update : String → Decision → Signal
  published pushed : String → Level → String → Signal

-- The engine's session repository is that of the handlers. `hub` is the permission mode of the hub,
-- if there is one.
pub record Server : Type 0 where
  pub rows : List Record
  pub engine : Engine
  pub hub : Option Mode
  pub has_push : Bool
  pub signals : List Signal

pub data Reply : Type 0 where
  bad_request conflict : String → Reply
  internal_error not_found done : Reply
  created : String → Option Decision → Reply
  answered : String → Decision → String → Reply
  detail : Record → Reply
  page : List Record → ℕ → Reply
  deleted : ℕ → Reply

abbrev pub level_text : Level → String
level_text green = "green"
level_text yellow = "yellow"
level_text red = "red"

abbrev pub mode_text : Mode → String
mode_text default = "default"
mode_text accept_edits = "accept_edits"
mode_text bypass_permissions = "bypass_permissions"
mode_text plan = "plan"
mode_text read_only = "read_only"
mode_text safe_yolo = "safe_yolo"
mode_text yolo = "yolo"
mode_text (other s) = s

abbrev pub current_mode : Option Mode → Mode
current_mode none = default
current_mode (some m) = m

abbrev pub by_mode : Mode → String
by_mode m = "auto(mode:" ^^ (mode_text m ^^ ")")

abbrev pub project_of : SubmitReq → String
project_of req = if str_eq req.project "" then "default" else req.project

abbrev pub create_request : Level → String → SubmitReq → CreateReq
create_request level reason req = record {
  session_id = req.session_id;
  tool_name = req.tool_name;
  command = req.command;
  cwd = req.cwd;
  risk_level = level_text level;
  rule_reason = reason;
  project = project_of req;
  diff = req.diff;
}

-- `Create` and then `Decide`, whose outcome is not looked at.
abbrev pub decide_made :
    Option Record → Decision → String → ℕ → List Record → Server → Reply × Server
decide_made none d by now rows srv = (internal_error, srv)
decide_made (some r) d by now rows srv =
    (created r.id (some d), record srv { rows = (decide r.id d by now rows).1 })

abbrev pub create_decided :
    Decision → String → ℕ → String → ℕ → ℕ → CreateReq → Server → Reply × Server
create_decided d by wait id now later req srv =
    let (made, rows) = create wait id now req srv.rows in decide_made made d by later rows srv

abbrev pub alerts : Server → String → Level → String → List Signal
alerts srv id level project =
    (elim srv.hub [ none ↦ [] | some _ ↦ created_update id project level ∷ [] ])
    ++ published id level project ∷ (if srv.has_push then pushed id level project ∷ [] else [])

abbrev pub alert_made : Option Record → Level → String → List Record → Server → Reply × Server
alert_made none level project rows srv = (internal_error, srv)
alert_made (some r) level project rows srv = (
  created r.id none,
  record srv { rows = rows; signals = srv.signals ++ alerts srv r.id level project },
)

abbrev pub create_pending : Level → String → ℕ → String → ℕ → CreateReq → Server → Reply × Server
create_pending level project wait id now req srv =
    let (made, rows) = create wait id now req srv.rows in alert_made made level project rows srv

abbrev pub by_decision :
    PermissionDecision
    → Mode
    → Level
    → String
    → ℕ
    → String
    → ℕ
    → ℕ
    → CreateReq
    → Server
    → Reply × Server
by_decision auto_approve mode level project wait id now later req srv =
    create_decided allow (by_mode mode) wait id now later req srv
by_decision auto_deny mode level project wait id now later req srv =
    create_decided deny (by_mode mode) wait id now later req srv
by_decision needs_approval mode level project wait id now later req srv =
    create_pending level project wait id now req srv

abbrev pub is_red : Level → Bool
is_red red = true
is_red _ = false

-- The rest of `Create`, with the level and the reason.
unfoldable pub submit : ℕ → String → ℕ → ℕ → Level → String → SubmitReq → Server → Reply × Server
unfolding evaluate_permission create decide
submit wait id now later level reason req srv =
    let create_req = create_request level reason req in
    let mode = current_mode srv.hub in
    if not (is_red level)
    then create_decided allow "auto(memo/whitelist)" wait id now later create_req srv
    else by_decision (evaluate_permission mode (level_text level) req.tool_name [] []) mode level
        (project_of req) wait id now later create_req srv

module _ (compile : Regexp) (hash_command : String → String) where
  -- `Create`
  unfoldable pub create_approval : ℕ → String → ℕ → ℕ → Option SubmitReq → Server → Reply × Server
  unfolding submit classify
  create_approval wait id now later none srv = (bad_request "invalid json", srv)
  create_approval wait id now later (some req) srv =
      if str_eq req.command "" && str_eq req.tool_name ""
      then (bad_request "missing tool_name/command", srv)
      else (let (level, reason) =
            classify compile hash_command srv.engine req.session_id req.tool_name req.command in
          submit wait id now later level reason req srv)

-- `Status`
abbrev pub status_reply : String → Option (Decision × String) → Reply
status_reply id none = not_found
status_reply id (some (d, reason)) = answered id d reason

unfoldable pub status_approval : String → ℕ → Server → Reply × Server
unfolding status
status_approval id now srv =
    let (v, rows) = status id now srv.rows in (status_reply id v, record srv { rows = rows })

module _ (hash_command : String → String) where
  abbrev pub remember_command :
      Option Record → Option (List SessionMemo) → ℕ → Option (List SessionMemo)
  remember_command none memos now = memos
  remember_command (some r) none now = none
  remember_command (some r) (some memos) now =
      some (remember hash_command r.session_id r.command now memos)

  abbrev pub remember_allowed : Decision → String → ℕ → Server → Server
  remember_allowed d id now srv =
      if decision_eq d allow
      then record srv {
        engine = record srv.engine {
          session = remember_command (get id srv.rows) srv.engine.session now;
        };
      }
      else srv

  abbrev pub tell_decided : Decision → String → Server → Server
  tell_decided d id srv = record srv {
    signals = srv.signals ++ (elim srv.hub [ none ↦ [] | some _ ↦ decided_update id d ∷ [] ]);
  }

  abbrev pub close_decision : Bool → Decision → String → ℕ → Server → Reply × Server
  close_decision false d id later srv = (conflict "already decided or timeout", srv)
  close_decision true d id later srv = (done, remember_allowed d id later (tell_decided d id srv))

  -- `Decide`
  unfoldable pub decide_approval : String → ℕ → ℕ → Option Decision → Server → Reply × Server
  decide_approval id now later none srv = (bad_request "invalid json", srv)
  decide_approval id now later (some d) srv =
      if not (decision_eq d allow) && not (decision_eq d deny)
      then (bad_request "decision must be allow or deny", srv)
      else (let (updated, rows) = decide id d "client" now srv.rows in
          close_decision updated d id later (record srv { rows = rows }))
