-- ===== src/Approval/Scanner.antt =====
-- backend/internal/approval/timeout_scanner.go: the scan. An alert is the record it is sent for; the
-- text of the alert and its publication are not modelled. `clock` gives the times at which the
-- service reads the clock for a record: in `Status`, and in `MarkTimeoutNotified`.
use serein.Base.{ℕ, Bool, false, Option, none, some, String, List, [], ◌∷◌, if◌then◌else◌}
use serein.Approval.Model.{Record, Decision, decision_eq, deny}
use serein.Approval.Service.{status, list_timed_out_pending, mark_timeout_notified}

-- `decision != DecisionDeny`; `Status` gives an empty decision with an error.
abbrev pub is_denied : Option (Decision × String) → Bool
is_denied none = false
is_denied (some (decision, reason)) = decision_eq decision deny

-- One turn of the loop.
unfoldable pub scan_record : Record → ℕ × ℕ → List Record → List Record × List Record
scan_record r (checked, marked) rows =
    let (verdict, rows') = status r.id checked rows in
    if is_denied verdict then (r ∷ [], mark_timeout_notified r.id marked rows') else ([], rows')

unfoldable pub scan_records :
    List Record → (Record → ℕ × ℕ) → List Record → List Record × List Record
unfolding scan_record
scan_records [] clock rows = ([], rows)
scan_records (r ∷ rs) clock rows =
    let (alerts, rows') = scan_record r (clock r) rows in
    let (more, rows'') = scan_records rs clock rows' in
    (elim alerts [ [] ↦ more | a ∷ _ ↦ a ∷ more ], rows'')

-- The alerts sent, and the rows after the scan.
unfoldable pub scan : ℕ → (Record → ℕ × ℕ) → List Record → List Record × List Record
unfolding scan_records
scan now clock rows = scan_records (list_timed_out_pending now rows) clock rows
