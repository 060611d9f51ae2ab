-- ===== src/Approval/Run/Refines.antt =====
-- The calls on the approvals move the rows along the diagram of Approval/Run only.
use serein.Base.{
  ℕ, ◌≡◌, refl, true, false, none, some, String, List, [], ◌∷◌, ◌++◌, arith, if◌then◌else◌,
  Option-cases, Bool-cases, inl, inr,
}
use serein.Base.Table.{find_key, Grows-update_key, Grows-append}
use serein.Approval.Model.{Record, record_key, CreateReq}
use serein.Approval.Service.{
  create, status, decide, created_row, is_pending, is_overdue, is_undecided, timed_out, decided,
  notified, get, mark_timeout_notified, list_timed_out_pending,
}
use serein.Approval.Scanner.{scan, scan_records, scan_record, is_denied}
use serein.Approval.Run.{
  Verdict, decision_of, Call, creates, asks, answers, scans, perform, run, expire, answer, notify,
  Evolves, here, next, IsNew, created, Advances, Advances-refl, Advances-trans,
}

create-missing :
    (timeout : ℕ) (id : String) (now : ℕ) (req : CreateReq) (rows : List Record)
    → find_key record_key id rows ≡ none
    → (create timeout id now req rows).1 ≡ rows ++ created_row timeout id now req ∷ []
unfolding create
create-missing timeout id now req rows h = ground (arith, h)

create-found :
    (timeout : ℕ) (id : String) (now : ℕ) (req : CreateReq) (rows : List Record) (r : Record)
    → find_key record_key id rows ≡ some r
    → (create timeout id now req rows).1 ≡ rows
unfolding create
create-found timeout id now req rows r h = ground (arith, h)

create-Advances :
    (timeout : ℕ) (id : String) (now : ℕ) (req : CreateReq) (rows : List Record)
    → Advances rows (create timeout id now req rows).1
create-Advances timeout id now req rows = elim (Option-cases (find_key record_key id rows)) [
  | inl missing ↦ rw (create-missing timeout id now req rows missing) (
      Grows-append Evolves IsNew (λ r. here) rows (created_row timeout id now req)
        (created timeout id now req here))
  | inr (r, found) ↦ rw (create-found timeout id now req rows r found) (Advances-refl rows)
]

status-Advances :
    (id : String) (now : ℕ) (rows : List Record) → Advances rows (status id now rows).1
unfolding status
status-Advances id now rows =
    Grows-update_key Evolves IsNew record_key id (is_overdue now) (timed_out now) (λ r. here) rows
      (λ a found p. next here (expire now p refl))

decide-Advances :
    (id : String) (v : Verdict) (by : String) (now : ℕ) (rows : List Record)
    → Advances rows (decide id (decision_of v) by now rows).1
unfolding decide
decide-Advances id v by now rows =
    Grows-update_key Evolves IsNew record_key id (is_undecided now) (decided (decision_of v) by now)
      (λ r. here) rows (λ a found p. next here (answer v by now p refl))

mark-Advances :
    (id : String) (now : ℕ) (rows : List Record)
    → ((r : Record) → find_key record_key id rows ≡ some r → is_pending r ≡ false)
    → Advances rows (mark_timeout_notified id now rows)
unfolding mark_timeout_notified
mark-Advances id now rows over =
    Grows-update_key Evolves IsNew record_key id (λ _. true) (notified now) (λ r. here) rows
      (λ a found p. next here (notify now (over a found) refl))

-- `Status` says deny of a row that is decided only.
denied_over :
    (id : String) (now : ℕ) (rows : List Record) (r : Record)
    → is_denied (status id now rows).0 ≡ true
    → find_key record_key id (status id now rows).1 ≡ some r
    → is_pending r ≡ false
unfolding status get
denied_over id now rows r h found = ground (arith, found)

pub scan_record_lem :
    (r : Record) (times : ℕ × ℕ) (rows : List Record)
    → (scan_record r times rows).1 ≡ (
        let (verdict, rows') = status r.id times.0 rows in
        if is_denied verdict then mark_timeout_notified r.id times.1 rows' else rows')
unfolding scan_record
scan_record_lem r times rows = elim (Bool-cases (is_denied (status r.id times.0 rows).0)) [
  | inl h ↦ rw h refl
  | inr h ↦ rw h refl
]

scan_record-Advances :
    (r : Record) (times : ℕ × ℕ) (rows : List Record) → Advances rows (scan_record r times rows).1
scan_record-Advances r times rows =
    let rows' = (status r.id times.0 rows).1 in
    let checked = status-Advances r.id times.0 rows in
    elim (Bool-cases (is_denied (status r.id times.0 rows).0)) [
      | inl h ↦
          rw (scan_record_lem r times rows, h)
            (Advances-trans rows rows' (mark_timeout_notified r.id times.1 rows') checked
              (mark-Advances r.id times.1 rows' (λ s. denied_over r.id times.0 rows s h)))
      | inr h ↦ rw (scan_record_lem r times rows, h) checked
    ]

scan_records-Advances :
    (rs : List Record) (clock : Record → ℕ × ℕ) (rows : List Record)
    → Advances rows (scan_records rs clock rows).1
unfolding scan_records
scan_records-Advances [] clock rows = Advances-refl rows
scan_records-Advances (r ∷ rs) clock rows =
    let rows' = (scan_record r (clock r) rows).1 in
    Advances-trans rows rows' (scan_records rs clock rows').1
      (scan_record-Advances r (clock r) rows) (scan_records-Advances rs clock rows')

perform-Advances :
    (timeout : ℕ) (c : Call) (now : ℕ) (rows : List Record)
    → Advances rows (perform timeout c now rows)
unfolding perform scan
perform-Advances timeout (creates id req) now rows = create-Advances timeout id now req rows
perform-Advances timeout (asks id) now rows = status-Advances id now rows
perform-Advances timeout (answers id v by) now rows = decide-Advances id v by now rows
perform-Advances timeout (scans clock) now rows =
    scan_records-Advances (list_timed_out_pending now rows) clock rows

-- Through any calls but the clearing of the history each row stays in its place and moves along the
-- diagram of Approval/Run only, and new rows are created pending: a row is timed out only when it
-- is overdue and pending, answered only while it is pending and in time, and marked as notified
-- only when it is decided.
pub run-Advances :
    (timeout : ℕ) (calls : List (ℕ × Call)) (rows : List Record)
    → Advances rows (run timeout calls rows)
unfolding run
run-Advances timeout [] rows = Advances-refl rows
run-Advances timeout ((now, c) ∷ calls) rows =
    let rows' = perform timeout c now rows in
    Advances-trans rows rows' (run timeout calls rows') (perform-Advances timeout c now rows)
      (run-Advances timeout calls rows')
