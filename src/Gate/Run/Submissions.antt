-- ===== src/Gate/Run/Submissions.antt =====
-- `Create` of backend/internal/api/approval_handler.go keeps the books: who has allowed what is known.
use serein.Base.{
  ℕ, ◌≡◌, refl, inl, inr, true, Option, none, some, String, List, [], ◌∷◌, ◌++◌, str_eq, arith,
  subst, ◌&&◌, Bool-cases, Option-cases, All, All-append, sym, ◌∙◌,
}
use mathlib.Core.Option.{some-injective}
use serein.Base.Table.{find_key, find_key-append}
use serein.Approval.Model.{Record, CreateReq, record_key, Decision, allow, deny}
use serein.Approval.Service.{create, decide, created_row, is_undecided, decided}
use serein.Risk.Permission.{is_write_tool}
use serein.Risk.Engine.{classify}
use serein.Gate.Outcome.{create_new, red_answer, red_decision, red_writes}
use serein.Risk.Patterns.{Regexp}
use serein.Risk.Engine.{Level, green, yellow, red}
use serein.Risk.Permission.{
  Mode, default, accept_edits, bypass_permissions, plan, read_only, safe_yolo, yolo, other,
}
use serein.Gate.Handlers.{
  SubmitReq, Server, submit, create_approval, create_request, create_decided, create_pending,
  current_mode, by_mode, by_decision, project_of,
}
use serein.Gate.Run.{IsAccounted}
use serein.Base.Rows.{All-update}

create_old :
    (wait : ℕ) (id : String) (now : ℕ) (req : CreateReq) (rows : List Record) (r : Record)
    → find_key record_key id rows ≡ some r
    → create wait id now req rows ≡ (none, rows)
unfolding create
create_old wait id now req rows r found = ground (arith, found)

abbrev pub Books : Server → Type 0
Books srv = All IsAccounted srv.rows

module _ (wait : ℕ) (id : String) (now later : ℕ) (srv : Server) (books : Books srv) where
  create_decided-Books :
      (d : Decision) (by : String) (req : CreateReq)
      → IsAccounted (decided d by later (created_row wait id now req))
      → Books (create_decided d by wait id now later req srv).1
  unfolding decide
  create_decided-Books d by req new = elim (Option-cases (find_key record_key id srv.rows)) [
    | inr (r, e) ↦ rw (create_old wait id now req srv.rows r e) books
    | inl e ↦
        let r = created_row wait id now req in
        let there = find_key-append record_key id srv.rows r e refl in
        rw (create_new wait id now later srv e req) (
          All-update record_key IsAccounted id (is_undecided later) (decided d by later)
            (srv.rows ++ r ∷ [])
            (λ a found q h.
              subst (λ x. IsAccounted (decided d by later x))
                (some-injective r a (sym there ∙ found)) new)
            (All-append IsAccounted srv.rows (r ∷ []) books (refl, tt)))
  ]

  create_pending-Books :
      (level : Level) (project : String) (req : CreateReq)
      → Books (create_pending level project wait id now req srv).1
  create_pending-Books level project req = elim (Option-cases (find_key record_key id srv.rows)) [
    | inr (r, e) ↦ rw (create_old wait id now req srv.rows r e) books
    | inl e ↦
        rw (create_new wait id now later srv e req)
          (All-append IsAccounted srv.rows (created_row wait id now req ∷ []) books (refl, tt))
  ]

  red-Books :
      (mode : Mode) (project : String) (req : CreateReq)
      → Books (by_decision (red_answer mode) mode red project wait id now later req srv).1
  red-Books default project req = create_pending-Books red project req
  red-Books accept_edits project req = create_pending-Books red project req
  red-Books (other s) project req = create_pending-Books red project req
  red-Books bypass_permissions project req =
      create_decided-Books allow (by_mode bypass_permissions) req refl
  red-Books yolo project req = create_decided-Books allow (by_mode yolo) req refl
  red-Books safe_yolo project req = create_decided-Books deny (by_mode safe_yolo) req refl
  red-Books plan project req = create_decided-Books deny (by_mode plan) req refl
  red-Books read_only project req = create_decided-Books deny (by_mode read_only) req refl

  submit-Books :
      (level : Level) (reason : String) (req : SubmitReq)
      → (level ≡ red → is_write_tool req.tool_name ≡ true)
      → Books (submit wait id now later level reason req srv).1
  unfolding submit
  submit-Books green reason req h =
      create_decided-Books allow "auto(memo/whitelist)" (create_request green reason req) refl
  submit-Books yellow reason req h =
      create_decided-Books allow "auto(memo/whitelist)" (create_request yellow reason req) refl
  submit-Books red reason req h =
      rw (red_decision (current_mode srv.hub) req.tool_name (h refl))
        (red-Books (current_mode srv.hub) (project_of req) (create_request red reason req))

  pub create_approval-Books :
      (compile : Regexp) (hash : String → String) (req : Option SubmitReq)
      → Books (create_approval compile hash wait id now later req srv).1
  unfolding create_approval
  create_approval-Books compile hash none = books
  create_approval-Books compile hash (some req) =
      let risk = classify compile hash srv.engine req.session_id req.tool_name req.command in
      elim (Bool-cases (str_eq req.command "" && str_eq req.tool_name "")) [
        | inl e ↦ rw e books
        | inr e ↦ rw e (
            submit-Books risk.0 risk.1 req
              (red_writes compile hash srv.engine req.session_id req.tool_name req.command))
      ]
