-- ===== src/Approval/Run/History.antt =====
-- What a stored approval keeps through any calls, and what holds of all of them.
use serein.Base.{ℕ, ◌≡◌, ◌≤◌, ◌<◌, false, Option, none, some, String, List, [], arith, All}
use serein.Base.Table.{find_key, All-Grows, find_key-Grows}
use serein.Approval.Model.{Record, record_key, Decision, pending, allow, deny, timeout, other}
use serein.Approval.Service.{created_row, is_pending, is_null}
use serein.Approval.Run.{
  Call, run, Step, expire, answer, notify, Evolves, here, next, IsNew, created, allows, denies,
}
use serein.Approval.Run.Refines.{run-Advances}

-- The columns that no statement sets, and those that are set once.
pub record Retains (r s : Record) : Type 0 where
  pub same_id : s.id ≡ r.id
  pub same_session : s.session_id ≡ r.session_id
  pub same_tool : s.tool_name ≡ r.tool_name
  pub same_command : s.command ≡ r.command
  pub same_risk : s.risk_level ≡ r.risk_level
  pub same_timeout : s.timeout_at ≡ r.timeout_at
  pub stays_decided : is_pending r ≡ false → s.decision ≡ r.decision
  pub same_decider : is_pending r ≡ false → s.decided_by ≡ r.decided_by
  pub same_time : is_pending r ≡ false → s.decided_at ≡ r.decided_at
  pub stays_told : is_null r.timeout_notified_at ≡ false → is_null s.timeout_notified_at ≡ false

Step-Retains : (r s : Record) → Step r s → Retains r s
Step-Retains r s (expire now p eq) = ground arith
Step-Retains r s (answer v by now p eq) = ground arith
Step-Retains r s (notify now p eq) = ground arith

Retains-trans : (r s t : Record) → Retains r s → Retains s t → Retains r t
Retains-trans r s t h k = ground arith

Evolves-Retains : (r s : Record) → Evolves r s → Retains r s
Evolves-Retains r s here = ground arith
Evolves-Retains r s (next {s = t} p st) =
    Retains-trans r t s (Evolves-Retains r t p) (Step-Retains t s st)

-- When a decision was made, against the time limit.
abbrev pub IsTimely : Decision → Option ℕ → ℕ → Type 0
IsTimely pending at limit = at ≡ none
IsTimely allow none limit = ⊥
IsTimely allow (some t) limit = t < limit
IsTimely deny none limit = ⊥
IsTimely deny (some t) limit = t < limit
IsTimely timeout none limit = ⊥
IsTimely timeout (some t) limit = limit ≤ t
IsTimely (other _) at limit = ⊥

pub record IsPunctual (r : Record) : Type 0 where
  pub timely : IsTimely r.decision r.decided_at r.timeout_at
  pub told_after : is_null r.timeout_notified_at ≡ false → is_pending r ≡ false

Step-IsPunctual : (r s : Record) → IsPunctual r → Step r s → IsPunctual s
Step-IsPunctual r s h (expire now p eq) = ground arith
Step-IsPunctual r s h (answer allows by now p eq) = ground arith
Step-IsPunctual r s h (answer denies by now p eq) = ground arith
Step-IsPunctual r s h (notify now p eq) = ground arith

Evolves-IsPunctual : (r s : Record) → IsPunctual r → Evolves r s → IsPunctual s
Evolves-IsPunctual r s h here = h
Evolves-IsPunctual r s h (next {s = t} p st) = Step-IsPunctual t s (Evolves-IsPunctual r t h p) st

IsNew-IsPunctual : (r : Record) → IsNew r → IsPunctual r
IsNew-IsPunctual r (created wait id now req p) =
    Evolves-IsPunctual (created_row wait id now req) r (ground arith) p

-- After any calls but the clearing of the history, from an empty table, every approval has no time
-- of decision while it is pending; an allow or a deny was given strictly before the time limit, a
-- timeout at or after it, and there is no other decision; and the notice of a timeout was recorded
-- of decided approvals only.
pub run-IsPunctual : (wait : ℕ) (calls : List (ℕ × Call)) → All IsPunctual (run wait calls [])
run-IsPunctual wait calls =
    All-Grows Evolves IsNew IsPunctual Evolves-IsPunctual IsNew-IsPunctual [] (run wait calls [])
      (run-Advances wait calls []) tt

-- An approval that is stored stays stored through any calls (but the clearing of the history), with
-- its session, tool, command, risk level and time limit; once it is decided, its decision, who made
-- it and when stay as they are; and once its timeout was notified, that stays on record.
pub run-Retains :
    (wait : ℕ) (calls : List (ℕ × Call)) (rows : List Record) (id : String) (r : Record)
    → find_key record_key id rows ≡ some r
    → (s : Record) × (find_key record_key id (run wait calls rows) ≡ some s) × Retains r s
run-Retains wait calls rows id r stored =
    let (s, found, p) =
      find_key-Grows Evolves IsNew record_key id (λ a b q. (Evolves-Retains a b q).same_id) rows
        (run wait calls rows) r (run-Advances wait calls rows) stored in
    (s, found, Evolves-Retains r s p)
