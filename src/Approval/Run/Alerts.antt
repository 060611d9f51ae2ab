-- ===== src/Approval/Run/Alerts.antt =====
-- The alerts of the timeout scanner (backend/internal/approval/timeout_scanner.go): one for each
-- approval that timed out, and no second one.
use serein.Base.{
  ℕ, ◌≡◌, refl, ◌≤◌, true, false, some, String, List, [], ◌∷◌, arith, Option-cases, Bool-cases, inl,
  inr,
}
use serein.Base.Table.{find_key, update_key, find_key-update_self}
use serein.Approval.Model.{Record, record_key}
use serein.Approval.Service.{
  is_null, status, get, is_unnotified, mark_timeout_notified, notified, is_overdue, timed_out,
}
use serein.Approval.Scanner.{scan_record, is_denied}
use serein.Approval.Run.{Call, run}
use serein.Approval.Run.History.{run-Retains}
use serein.Approval.Run.Final.{status_lem}

-- The two branches of a turn.
denied_turn :
    (r : Record) (times : ℕ × ℕ) (rows : List Record)
    → is_denied (status r.id times.0 rows).0 ≡ true
    → scan_record r times rows
      ≡ (r ∷ [], mark_timeout_notified r.id times.1 (status r.id times.0 rows).1)
unfolding scan_record
denied_turn r times rows h = rw h refl

other_turn :
    (r : Record) (times : ℕ × ℕ) (rows : List Record)
    → is_denied (status r.id times.0 rows).0 ≡ false
    → scan_record r times rows ≡ ([], (status r.id times.0 rows).1)
unfolding scan_record
other_turn r times rows h = rw h refl

denied_found :
    (id : String) (now : ℕ) (rows : List Record)
    → is_denied (status id now rows).0 ≡ true
    → (s : Record) × (find_key record_key id (status id now rows).1 ≡ some s)
unfolding status get
denied_found id now rows h =
    elim (Option-cases
      (find_key record_key id (update_key record_key id (is_overdue now) (timed_out now) rows))) [
        | inl missing ↦ absurd (ground (arith, missing))
        | inr (s, found) ↦ (s, found)
      ]

find_key-mark :
    (id : String) (now : ℕ) (rows : List Record) (s : Record)
    → find_key record_key id rows ≡ some s
    → find_key record_key id (mark_timeout_notified id now rows) ≡ some (notified now s)
unfolding mark_timeout_notified
find_key-mark id now rows s found =
    find_key-update_self record_key id (λ _. true) (notified now) rows s found refl

told :
    (later : ℕ) (s : Record) → is_null s.timeout_notified_at ≡ false → is_unnotified later s ≡ false
unfolding is_unnotified
told later s h = ground arith

-- No second alert: after a turn of the scan that sent an alert, and any further calls but the
-- clearing of the history, the approval's row is there and does not pass the query of the scanner,
-- at any time.
pub alert_once :
    (r : Record) (times : ℕ × ℕ) (rows : List Record) (wait : ℕ) (calls : List (ℕ × Call))
    (later : ℕ)
    → (scan_record r times rows).0 ≡ r ∷ []
    → (s : Record) × (find_key record_key r.id (run wait calls (scan_record r times rows).1)
        ≡ some s)
      × (is_unnotified later s ≡ false)
alert_once r times rows wait calls later sent =
    elim (Bool-cases (is_denied (status r.id times.0 rows).0)) [
      | inr h ↦ absurd (ground (arith, sent, other_turn r times rows h))
      | inl h ↦
          let rows' = (status r.id times.0 rows).1 in
          let (s, found) = denied_found r.id times.0 rows h in
          let (t, found', k) =
            run-Retains wait calls (mark_timeout_notified r.id times.1 rows') r.id
              (notified times.1 s) (find_key-mark r.id times.1 rows' s found) in
          (t, rw (denied_turn r times rows h) found', told later t (k.stays_told refl))
    ]

due_denied :
    (now checked : ℕ) (rows : List Record) (r : Record)
    → find_key record_key r.id rows ≡ some r
    → is_unnotified now r ≡ true
    → now ≤ checked
    → is_denied (status r.id checked rows).0 ≡ true
unfolding is_unnotified
due_denied now checked rows r stored due after =
    ground (arith, status_lem r.id checked rows r stored)

-- The first alert: a stored approval that passes the scanner's query is sent an alert in its turn,
-- when its turn comes no earlier than the query.
pub alert_sent :
    (now : ℕ) (times : ℕ × ℕ) (rows : List Record) (r : Record)
    → find_key record_key r.id rows ≡ some r
    → is_unnotified now r ≡ true
    → now ≤ times.0
    → (scan_record r times rows).0 ≡ r ∷ []
alert_sent now times rows r stored due after =
    rw (denied_turn r times rows (due_denied now times.0 rows r stored due after)) refl
