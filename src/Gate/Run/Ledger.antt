-- ===== src/Gate/Run/Ledger.antt =====
-- The other calls keep the books, and so do sequences of calls.
use serein.Base.{
  ℕ, ◌≡◌, refl, inl, inr, Bool, true, false, Option, none, some, String, List, [], ◌∷◌, arith, not,
  ◌&&◌, Bool-cases, Option-cases, All, All-keep_if,
}
use serein.Approval.Model.{Record, record_key, Decision, decision_eq, allow, deny}
use serein.Approval.Service.{
  list_timed_out_pending, status, decide, is_pending, is_overdue, is_undecided, timed_out, decided,
  notified, mark_timeout_notified,
}
use serein.Approval.Scanner.{scan_records, scan_record, is_denied}
use serein.Approval.Run.Refines.{scan_record_lem}
use serein.Risk.Permission.{is_valid_permission_mode}
use serein.Risk.Patterns.{Regexp}
use serein.Risk.Permission.{Mode}
use serein.Gate.Handlers.{close_decision, Server, decide_approval}
use serein.Gate.Routes.{mode_switch}
use serein.Gate.Run.{
  Call, submits, asks, answers, clears, switches, scans, perform, run, IsAccounted,
}
use serein.Base.Rows.{All-update}
use serein.Gate.Run.Submissions.{Books, create_approval-Books}

status-All :
    (id : String) (now : ℕ) (rows : List Record)
    → All IsAccounted rows
    → All IsAccounted (status id now rows).1
unfolding status
status-All id now rows h =
    All-update record_key IsAccounted id (is_overdue now) (timed_out now) rows (λ a found q k. refl)
      h

decide-All :
    (id : String) (d : Decision) (now : ℕ) (rows : List Record)
    → All IsAccounted rows
    → All IsAccounted (decide id d "client" now rows).1
unfolding decide
decide-All id d now rows h =
    All-update record_key IsAccounted id (is_undecided now) (decided d "client" now) rows
      (λ a found q k. ground arith) h

mark-All :
    (id : String) (now : ℕ) (rows : List Record)
    → All IsAccounted rows
    → All IsAccounted (mark_timeout_notified id now rows)
unfolding mark_timeout_notified
mark-All id now rows h =
    All-update record_key IsAccounted id (λ _. true) (notified now) rows (λ a found q k. k) h

scan_record-All :
    (r : Record) (times : ℕ × ℕ) (rows : List Record)
    → All IsAccounted rows
    → All IsAccounted (scan_record r times rows).1
scan_record-All r times rows h =
    let k = status-All r.id times.0 rows h in
    rw (scan_record_lem r times rows) (elim (Bool-cases (is_denied (status r.id times.0 rows).0)) [
      | inl e ↦ rw e (mark-All r.id times.1 (status r.id times.0 rows).1 k)
      | inr e ↦ rw e k
    ])

scan_records-All :
    (rs : List Record) (clock : Record → ℕ × ℕ) (rows : List Record)
    → All IsAccounted rows
    → All IsAccounted (scan_records rs clock rows).1
unfolding scan_records
scan_records-All [] clock rows h = h
scan_records-All (r ∷ rs) clock rows h =
    scan_records-All rs clock (scan_record r (clock r) rows).1 (scan_record-All r (clock r) rows h)

-- What follows a decision leaves the rows alone.
close_decision-rows :
    (hash : String → String) (b : Bool) (d : Decision) (id : String) (later : ℕ) (srv : Server)
    → (close_decision hash b d id later srv).1.rows ≡ srv.rows
close_decision-rows hash false d id later srv = refl
close_decision-rows hash true d id later srv = elim (Bool-cases (decision_eq d allow)) [
  | inl e ↦ rw e refl
  | inr e ↦ rw e refl
]

decide_approval-Books :
    (hash : String → String) (id : String) (now later : ℕ) (d : Option Decision) (srv : Server)
    → Books srv
    → Books (decide_approval hash id now later d srv).1
unfolding decide_approval
decide_approval-Books hash id now later none srv h = h
decide_approval-Books hash id now later (some d) srv h =
    elim (Bool-cases (not (decision_eq d allow) && not (decision_eq d deny))) [
      | inl e ↦ rw e h
      | inr e ↦
          let (b, rows) = decide id d "client" now srv.rows in
          rw (e, close_decision-rows hash b d id later (record srv { rows = rows }))
            (decide-All id d now srv.rows h)
    ]

mode_switch-Books :
    (from_phone : Bool) (m : Mode) (srv : Server) → Books srv → Books (mode_switch from_phone m srv)
unfolding mode_switch
mode_switch-Books p m srv h = elim (Option-cases srv.hub) [
  | inl e ↦ rw e h
  | inr (o, e) ↦
      rw e (elim (Bool-cases (p && is_valid_permission_mode m)) [ inl v ↦ rw v h | inr v ↦ rw v h ])
]

module _ (compile : Regexp) (hash : String → String) (wait : ℕ) where
  perform-Books : (c : Call) (srv : Server) → Books srv → Books (perform compile hash wait c srv)
  unfolding perform
  perform-Books (submits id now later req) srv h =
      create_approval-Books wait id now later srv h compile hash req
  perform-Books (asks id now) srv h = status-All id now srv.rows h
  perform-Books (answers id now later d) srv h = decide_approval-Books hash id now later d srv h
  perform-Books clears srv h = All-keep_if IsAccounted is_pending srv.rows h
  perform-Books (switches p m) srv h = mode_switch-Books p m srv h
  perform-Books (scans now clock) srv h =
      scan_records-All (list_timed_out_pending now srv.rows) clock srv.rows h

  -- Who allows what: after any calls of the routes and scans, in any order and with any modes, when all
  -- rows were so before, each approval that is allowed was allowed by a client or under one of the two
  -- modes that approve all, or it is not red and the engine let it through.
  pub run-IsAccounted :
      (calls : List Call) (srv : Server)
      → All IsAccounted srv.rows
      → All IsAccounted (run compile hash wait calls srv).rows
  unfolding run
  run-IsAccounted [] srv h = h
  run-IsAccounted (c ∷ calls) srv h =
      run-IsAccounted calls (perform compile hash wait c srv) (perform-Books c srv h)
