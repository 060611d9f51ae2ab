-- ===== src/Approval/Model.antt =====
-- backend/internal/approval/model.go, the request of service.go and the row of approval_records.
-- Times are nanoseconds; every row is written by `Create`, so the project and the diff are not NULL.
use serein.Base.{ℕ, String, Option, Bool, true, false, str_eq}

-- The decisions are string constants in the source, compared with `==`; any other text is `other`.
pub data Decision : Type 0 where
  pending allow deny timeout : Decision
  other : String → Decision

abbrev pub decision_eq : Decision → Decision → Bool
decision_eq pending pending = true
decision_eq allow allow = true
decision_eq deny deny = true
decision_eq timeout timeout = true
decision_eq (other s) (other t) = str_eq s t
decision_eq _ _ = false

pub record Record : Type 0 where
  pub id : String
  pub session_id : String
  pub tool_name : String
  pub command : String
  pub cwd : String
  pub risk_level : String
  pub rule_reason : String
  pub decision : Decision
  pub project : String
  pub diff : String
  pub decided_by : Option String
  pub decided_at : Option ℕ
  pub created_at : ℕ
  pub timeout_at : ℕ
  pub timeout_notified_at : Option ℕ  -- a column that only the scanner reads

pub record CreateReq : Type 0 where
  pub session_id : String
  pub tool_name : String
  pub command : String
  pub cwd : String
  pub risk_level : String
  pub rule_reason : String
  pub project : String
  pub diff : String

abbrev pub record_key : Record → String
record_key r = r.id
