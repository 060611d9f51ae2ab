-- ===== src/Gate/Outcome.antt =====
-- What `Create` of backend/internal/api/approval_handler.go makes of a request, by its level and the
-- permission mode.
use serein.Base.{
  ℕ, ◌≡◌, refl, true, false, ◌&&◌, Option, none, some, String, ◌∷◌, [], ◌++◌, str_eq, arith,
  if◌then◌else◌, ltb, contains,
}
use serein.Base.Table.{find_key, find_key-append, find_key-update_self}
use serein.Approval.Model.{Record, CreateReq, record_key, Decision, allow, deny, pending}
use serein.Approval.Service.{create, decide, created_row, decided, is_undecided}
use serein.Risk.Patterns.{Regexp}
use serein.Risk.Engine.{Level, green, yellow, red, classify, Engine}
use serein.Risk.Permission.{
  Mode, default, accept_edits, bypass_permissions, plan, read_only, safe_yolo, yolo, other,
  PermissionDecision, needs_approval, auto_approve, auto_deny, evaluate_permission, is_write_tool,
}
use serein.Risk.Permission.Matrix.{evaluate_permission_lem, write_tool_sync}
use serein.Gate.Handlers.{
  SubmitReq, Server, Reply, created, submit, create_approval, create_request, create_decided,
  create_pending, current_mode, by_mode, by_decision, project_of,
}

-- The decision that a request meets: only the level red asks the mode.
abbrev pub gate : Level → Mode → Decision
gate green mode = allow
gate yellow mode = allow
gate red bypass_permissions = allow
gate red yolo = allow
gate red safe_yolo = deny
gate red plan = deny
gate red read_only = deny
gate red default = pending
gate red accept_edits = pending
gate red (other _) = pending

-- The name that is stored with it.
abbrev pub decider : Level → Mode → String
decider green mode = "auto(memo/whitelist)"
decider yellow mode = "auto(memo/whitelist)"
decider red mode = by_mode mode

-- The reply says the decision, unless it has to be waited for.
abbrev pub said : Decision → Option Decision
said pending = none
said d = some d

-- The new row: a decision that comes after its time limit has no effect.
abbrev pub settled_row : Decision → String → ℕ → Record → Record
settled_row pending by later r = r
settled_row d by later r = if ltb later r.timeout_at then decided d by later r else r

module _ (wait : ℕ) (id : String) (now later : ℕ) (srv : Server)
    (new : find_key record_key id srv.rows ≡ none) where
  pub create_new :
      (req : CreateReq)
      → let r = created_row wait id now req in
        create wait id now req srv.rows
        ≡ (some (record r { project = ""; diff = "" }), srv.rows ++ r ∷ [])
  unfolding create
  create_new req = ground (arith, new)

  create_decided_lem :
      (d : Decision) (by : String) (req : CreateReq)
      → let out = create_decided d by wait id now later req srv in
        let r = created_row wait id now req in
        (out.0 ≡ created id (some d))
        × (find_key record_key id out.1.rows
            ≡ some (if ltb later r.timeout_at then decided d by later r else r))
  unfolding decide
  create_decided_lem d by req =
      let r = created_row wait id now req in
      rw (create_new req) (
        refl,
        find_key-update_self record_key id (is_undecided later) (decided d by later)
            (srv.rows ++ r ∷ []) r (find_key-append record_key id srv.rows r new refl) refl,
      )

  create_pending_lem :
      (level : Level) (project : String) (req : CreateReq)
      → let out = create_pending level project wait id now req srv in
        (out.0 ≡ created id none)
        × (find_key record_key id out.1.rows ≡ some (created_row wait id now req))
  create_pending_lem level project req =
      rw (create_new req)
        (refl, find_key-append record_key id srv.rows (created_row wait id now req) new refl)

-- What the modes say of a red call whose tool writes.
abbrev pub red_answer : Mode → PermissionDecision
red_answer bypass_permissions = auto_approve
red_answer yolo = auto_approve
red_answer safe_yolo = auto_deny
red_answer plan = auto_deny
red_answer read_only = auto_deny
red_answer default = needs_approval
red_answer accept_edits = needs_approval
red_answer (other _) = needs_approval

pub red_decision :
    (mode : Mode) (tool : String)
    → is_write_tool tool ≡ true
    → evaluate_permission mode "red" tool [] [] ≡ red_answer mode
unfolding contains
red_decision default tool h = ground (arith, evaluate_permission_lem default "red" tool [] [])
red_decision accept_edits tool h =
    ground (arith, evaluate_permission_lem accept_edits "red" tool [] [])
red_decision bypass_permissions tool h =
    ground (arith, evaluate_permission_lem bypass_permissions "red" tool [] [])
red_decision plan tool h = ground (arith, evaluate_permission_lem plan "red" tool [] [])
red_decision read_only tool h = ground (arith, evaluate_permission_lem read_only "red" tool [] [])
red_decision safe_yolo tool h = ground (arith, evaluate_permission_lem safe_yolo "red" tool [] [])
red_decision yolo tool h = ground (arith, evaluate_permission_lem yolo "red" tool [] [])
red_decision (other s) tool h = ground (arith, evaluate_permission_lem (other s) "red" tool [] [])

-- The reply, and the row that is stored: what a request with a new id comes to.
abbrev pub Settles : ℕ → String → ℕ → ℕ → Level → Mode → CreateReq → Reply × Server → Type 0
Settles wait id now later level mode req out =
    (out.0 ≡ created id (said (gate level mode)))
    × (find_key record_key id out.1.rows
        ≡ some (
            settled_row (gate level mode) (decider level mode) later (created_row wait id now req)))

module _ (wait : ℕ) (id : String) (now later : ℕ) (srv : Server)
    (new : find_key record_key id srv.rows ≡ none) where
  red-Settles :
      (mode : Mode) (project : String) (req : CreateReq)
      → Settles wait id now later red mode req
          (by_decision (red_answer mode) mode red project wait id now later req srv)
  red-Settles default project req = create_pending_lem wait id now later srv new red project req
  red-Settles accept_edits project req =
      create_pending_lem wait id now later srv new red project req
  red-Settles (other s) project req = create_pending_lem wait id now later srv new red project req
  red-Settles bypass_permissions project req =
      create_decided_lem wait id now later srv new allow (by_mode bypass_permissions) req
  red-Settles yolo project req =
      create_decided_lem wait id now later srv new allow (by_mode yolo) req
  red-Settles safe_yolo project req =
      create_decided_lem wait id now later srv new deny (by_mode safe_yolo) req
  red-Settles plan project req =
      create_decided_lem wait id now later srv new deny (by_mode plan) req
  red-Settles read_only project req =
      create_decided_lem wait id now later srv new deny (by_mode read_only) req

  submit-Settles :
      (level : Level) (reason : String) (req : SubmitReq)
      → (level ≡ red → is_write_tool req.tool_name ≡ true)
      → Settles wait id now later level
          (current_mode srv.hub)
          (create_request level reason req)
          (submit wait id now later level reason req srv)
  unfolding submit
  submit-Settles green reason req h =
      create_decided_lem wait id now later srv new allow "auto(memo/whitelist)"
        (create_request green reason req)
  submit-Settles yellow reason req h =
      create_decided_lem wait id now later srv new allow "auto(memo/whitelist)"
        (create_request yellow reason req)
  submit-Settles red reason req h =
      rw (red_decision (current_mode srv.hub) req.tool_name (h refl))
        (red-Settles (current_mode srv.hub) (project_of req) (create_request red reason req))

-- A call that is red names a tool that writes.
pub red_writes :
    (compile : Regexp) (hash : String → String) (e : Engine) (session tool cmd : String)
    → (classify compile hash e session tool cmd).0 ≡ red
    → is_write_tool tool ≡ true
unfolding classify
red_writes compile hash e session tool cmd h = ground (arith, write_tool_sync tool)

module _ (compile : Regexp) (hash : String → String) where
  -- What comes of a request with a tool or a command, for an id that is new: by its level and the
  -- permission mode it is allowed, denied or pending, as `gate` says; the reply says so, and so does
  -- the row that is stored, unless its time limit was over before the decision was written.
  pub create_approval_lem :
      (wait : ℕ) (id : String) (now later : ℕ) (req : SubmitReq) (srv : Server)
      → find_key record_key id srv.rows ≡ none
      → (str_eq req.command "" && str_eq req.tool_name "") ≡ false
      → let risk = classify compile hash srv.engine req.session_id req.tool_name req.command in
        Settles wait id now later risk.0
          (current_mode srv.hub)
          (create_request risk.0 risk.1 req)
          (create_approval compile hash wait id now later (some req) srv)
  unfolding create_approval
  create_approval_lem wait id now later req srv new given =
      let risk = classify compile hash srv.engine req.session_id req.tool_name req.command in
      rw given (
        submit-Settles wait id now later srv new risk.0 risk.1 req
          (red_writes compile hash srv.engine req.session_id req.tool_name req.command))
