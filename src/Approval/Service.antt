-- ===== src/Approval/Service.antt =====
-- backend/internal/approval/service.go: the statements on approval_records. A call takes the time
-- that it reads from the clock, and the rows; the database itself does not fail.
use serein.Base.{
  ℕ, ◌+◌, Bool, true, false, not, ◌&&◌, ◌||◌, Option, none, some, String, List, str_eq, ltb, leb,
  ◌==◌, if◌then◌else◌, keep_if, order_by, take, drop, length, ◌^^◌, ℤ, pos, negsuc,
}
use serein.Base.Table.{find_key, update_key, affected, insert_key}
use serein.Approval.Model.{
  Record, CreateReq, record_key, Decision, decision_eq, pending, allow, deny, timeout, other,
}

-- The row that is inserted, and the record that is returned: the latter has no project and no diff.
abbrev pub created_row : ℕ → String → ℕ → CreateReq → Record
created_row wait id now req = record {
  id = id;
  session_id = req.session_id;
  tool_name = req.tool_name;
  command = req.command;
  cwd = req.cwd;
  risk_level = req.risk_level;
  rule_reason = req.rule_reason;
  decision = pending;
  project = req.project;
  diff = req.diff;
  decided_by = none;
  decided_at = none;
  created_at = now;
  timeout_at = now + wait;
  timeout_notified_at = none;
}

abbrev with_row : Record → Option (List Record) → List Record → Option Record × List Record
with_row r none rows = (none, rows)
with_row r (some rows') rows = (some (record r { project = ""; diff = "" }), rows')

-- `none` is the error of a duplicate key.
unfoldable pub create : ℕ → String → ℕ → CreateReq → List Record → Option Record × List Record
create wait id now req rows =
    let r = created_row wait id now req in with_row r (insert_key record_key r rows) rows

unfoldable pub get : String → List Record → Option Record
get id rows = find_key record_key id rows

abbrev pub is_pending : Record → Bool
is_pending r = decision_eq r.decision pending

-- `decision='pending' AND timeout_at <= ?`
abbrev pub is_overdue : ℕ → Record → Bool
is_overdue now r = is_pending r && leb r.timeout_at now

abbrev pub timed_out : ℕ → Record → Record
timed_out now r = record r { decision = timeout; decided_at = some now }

abbrev pub decided_by_label : String → Option String → String
decided_by_label action none = action
decided_by_label action (some by) = if str_eq by "" then action else action ^^ (" by " ^^ by)

abbrev pub verdict : Decision → Option String → Decision × String
verdict allow by = (allow, decided_by_label "approved" by)
verdict deny by = (deny, decided_by_label "denied" by)
verdict timeout by = (deny, "approval timeout")
verdict pending by = (pending, "")
verdict (other _) by = (pending, "")

abbrev pub verdict_of : Option Record → Option (Decision × String)
verdict_of none = none
verdict_of (some r) = some (verdict r.decision r.decided_by)

unfoldable pub status : String → ℕ → List Record → Option (Decision × String) × List Record
unfolding get
status id now rows =
    let rows' = update_key record_key id (is_overdue now) (timed_out now) rows in
    (verdict_of (get id rows'), rows')

-- `decision='pending' AND timeout_at > ?`
abbrev pub is_undecided : ℕ → Record → Bool
is_undecided now r = is_pending r && ltb now r.timeout_at

abbrev pub decided : Decision → String → ℕ → Record → Record
decided decision by now r = record r {
  decision = decision;
  decided_by = some by;
  decided_at = some now;
}

unfoldable pub decide : String → Decision → String → ℕ → List Record → Bool × List Record
decide id decision by now rows = (
  ltb 0 (affected record_key id (is_undecided now) rows),
  update_key record_key id (is_undecided now) (decided decision by now) rows,
)

-- The limit and the offset after their correction.
unfoldable pub page_limit : ℤ → ℕ
page_limit (pos n) = if n == 0 || ltb 500 n then 50 else n
page_limit (negsuc n) = 50

unfoldable pub page_offset : ℤ → ℕ
page_offset (pos n) = n
page_offset (negsuc n) = 0

abbrev is_of : String → Record → Bool
is_of project r = str_eq project "" || str_eq r.project project

-- The WHERE of the page's query, and that of the count, whose conditions are put together in another
-- order. `status` is `none` for the empty text.
unfoldable pub is_listed : Option Decision → String → ℕ → Record → Bool
is_listed (some status) project now r =
    if decision_eq status pending
    then decision_eq r.decision status && is_of project r && ltb now r.timeout_at
    else decision_eq r.decision status && is_of project r
is_listed none project now r = if not (str_eq project "") then str_eq r.project project else true

unfoldable pub is_counted : Option Decision → String → ℕ → Record → Bool
is_counted (some status) project now r =
    let in_time = not (decision_eq status pending) || ltb now r.timeout_at in
    if not (str_eq project "")
    then decision_eq r.decision status && str_eq r.project project && in_time
    else decision_eq r.decision status && in_time
is_counted none project now r = if not (str_eq project "") then str_eq r.project project else true

-- `ORDER BY created_at DESC`; rows of one time stay in their order.
abbrev pub is_newer : Record → Record → Bool
is_newer a b = leb b.created_at a.created_at

unfoldable pub list : ℤ → ℤ → Option Decision → String → ℕ → List Record → List Record × ℕ
unfolding page_limit page_offset is_listed is_counted
list limit offset status project now rows = (
  take (page_limit limit)
      (drop (page_offset offset) (order_by is_newer (keep_if (is_listed status project now) rows))),
  length (keep_if (is_counted status project now) rows),
)

abbrev pub hour : ℕ
hour = 3_600_000_000_000

abbrev pub is_null : Option ℕ → Bool
is_null none = true
is_null (some _) = false

unfoldable pub is_unnotified : ℕ → Record → Bool
is_unnotified now r =
    (decision_eq r.decision pending || decision_eq r.decision timeout)
    && leb r.timeout_at now
    && leb now (r.timeout_at + hour)
    && is_null r.timeout_notified_at

unfoldable pub list_timed_out_pending : ℕ → List Record → List Record
unfolding is_unnotified
list_timed_out_pending now rows = keep_if (is_unnotified now) rows

abbrev pub notified : ℕ → Record → Record
notified now r = record r { timeout_notified_at = some now }

unfoldable pub mark_timeout_notified : String → ℕ → List Record → List Record
mark_timeout_notified id now rows = update_key record_key id (λ _. true) (notified now) rows

-- The number of the rows deleted, and the rest.
unfoldable pub delete_all_except_pending : List Record → ℕ × List Record
delete_all_except_pending rows =
    (length (keep_if (λ r. not (is_pending r)) rows), keep_if is_pending rows)
