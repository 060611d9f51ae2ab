-- ===== src/Gate/Run.antt =====
-- Sequences of calls of the routes of approvals (backend/internal/api/approval_handler.go), and who may
-- have allowed what.
pub mod Submissions
pub mod Ledger
use serein.Base.{
  ℕ, ◌+◌, ◌≡◌, refl, ◌⊎◌, inl, inr, Bool, true, false, Option, none, some, String, List, [], ◌∷◌,
  ◌++◌, str_eq, arith, subst, ◌||◌, not, ◌&&◌, if◌then◌else◌, Bool-cases, Option-cases, All,
  All-append, All-keep_if, ap, sym, ◌∙◌,
}
use mathlib.Core.Option.{some-injective}
use serein.Base.Table.{find_key, update_key, find_key-append}
use serein.Approval.Model.{
  Record, CreateReq, record_key, Decision, decision_eq, pending, allow, deny, timeout,
}
use serein.Approval.Service.{
  list_timed_out_pending, create, status, decide, created_row, is_pending, is_overdue, is_undecided,
  timed_out, decided, notified, mark_timeout_notified, delete_all_except_pending,
}
use serein.Approval.Scanner.{scan, scan_records, scan_record, is_denied}
use serein.Approval.Run.Refines.{scan_record_lem}
use serein.Risk.Permission.{is_write_tool, is_valid_permission_mode}
use serein.Risk.Engine.{classify}
use serein.Gate.Outcome.{create_new, red_answer, red_decision, red_writes}
use serein.Risk.Patterns.{Regexp}
use serein.Risk.Engine.{Level, green, yellow, red}
use serein.Risk.Permission.{
  Mode, default, accept_edits, bypass_permissions, plan, read_only, safe_yolo, yolo, other,
  PermissionDecision, needs_approval, auto_approve, auto_deny,
}
use serein.Gate.Handlers.{
  close_decision, SubmitReq, Server, Reply, submit, create_approval, create_request, create_decided,
  create_pending, current_mode, by_mode, by_decision, status_approval, decide_approval, level_text,
  project_of,
}
use serein.Gate.Routes.{clear_history, mode_switch}

-- The calls, and the scanner's.
pub data Call : Type 0 where
  submits : String → ℕ → ℕ → Option SubmitReq → Call
  asks : String → ℕ → Call
  answers : String → ℕ → ℕ → Option Decision → Call
  clears : Call
  switches : Bool → Mode → Call
  scans : ℕ → (Record → ℕ × ℕ) → Call

module _ (compile : Regexp) (hash : String → String) (wait : ℕ) where
  unfoldable pub perform : Call → Server → Server
  unfolding create_approval decide_approval status_approval clear_history mode_switch scan
  perform (submits id now later req) srv =
      (create_approval compile hash wait id now later req srv).1
  perform (asks id now) srv = (status_approval id now srv).1
  perform (answers id now later d) srv = (decide_approval hash id now later d srv).1
  perform clears srv = (clear_history srv).1
  perform (switches from_phone m) srv = mode_switch from_phone m srv
  perform (scans now clock) srv = record srv { rows = (scan now clock srv.rows).1 }

  unfoldable pub run : List Call → Server → Server
  run [] srv = srv
  run (c ∷ calls) srv = run calls (perform c srv)

-- Who may have allowed an approval: a client; one of the two modes that approve all; or, if it is not red, the
-- engine.
abbrev pub may_allow : Bool → Option String → Bool
may_allow is_red none = false
may_allow is_red (some by) =
    str_eq by "client"
    || str_eq by (by_mode bypass_permissions)
    || str_eq by (by_mode yolo)
    || (not is_red && str_eq by "auto(memo/whitelist)")

abbrev pub is_accounted : Record → Bool
is_accounted r =
    not (decision_eq r.decision allow) || may_allow (str_eq r.risk_level "red") r.decided_by

abbrev pub IsAccounted : Record → Type 0
IsAccounted r = is_accounted r ≡ true
