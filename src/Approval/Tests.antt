-- ===== src/Approval/Tests.antt =====
-- The theorems on approvals at concrete rows.
use serein.Base.{ℕ, ◌≡◌, refl, false, some, List, [], ◌∷◌, arith, All}
use serein.Base.Table.{find_key, update_key}
use serein.Approval.Model.{Record, CreateReq, record_key, allow, deny}
use serein.Approval.Service.{status, decide, is_unnotified, created_row, get}
use serein.Approval.Scanner.{scan_record}
use serein.Approval.Run.{Call, creates, asks, answers, scans, allows, denies, run, Advances}
use serein.Approval.Run.Refines.{run-Advances}
use serein.Approval.Run.History.{run-IsPunctual, IsPunctual}
use serein.Approval.Run.Final.{answer_final, silence_denies}
use serein.Approval.Run.Alerts.{alert_once}

abbrev push : CreateReq
push = record {
  session_id = "s1";
  tool_name = "Bash";
  command = "git push";
  cwd = "/work";
  risk_level = "red";
  rule_reason = "red rule";
  project = "serein";
  diff = "";
}

-- Created at 100, to be answered before 160.
abbrev first : Record
first = created_row 60 "a1" 100 push

abbrev second : Record
second = created_row 60 "a2" 110 push

abbrev rows : List Record
rows = first ∷ second ∷ []

abbrev after : Record → ℕ × ℕ
after r = (175, 180)

abbrev calls : List (ℕ × Call)
calls =
    (120, creates "a3" push)
    ∷ (130, answers "a2" denies "client")
    ∷ (165, asks "a1")
    ∷ (170, scans after)
    ∷ []

run-Advances_example : Advances rows (run 60 calls rows)
run-Advances_example = run-Advances 60 calls rows

run-IsPunctual_example : All IsPunctual (run 60 calls [])
run-IsPunctual_example = run-IsPunctual 60 calls

answer_final_example :
    let rows' = run 60 calls (decide "a2" allow "client" 115 rows).1 in
    ((status "a2" 500 rows').0 ≡ some (allow, "approved by client"))
    × ((decide "a2" deny "other" 500 rows').0 ≡ false)
unfolding decide find_key
answer_final_example = answer_final "a2" allows "client" 115 rows 60 calls 500 deny "other" refl

silence_denies_example :
    let rows' = run 60 calls (status "a1" 160 rows).1 in
    ((status "a1" 160 rows).0 ≡ some (deny, "approval timeout"))
    × ((status "a1" 500 rows').0 ≡ some (deny, "approval timeout"))
    × ((decide "a1" allow "client" 500 rows').0 ≡ false)
unfolding find_key
silence_denies_example =
    silence_denies "a1" 160 rows first 60 calls 500 allow "client" refl refl (omega arith)

alert_once_example :
    (s : Record) × (find_key record_key "a1" (run 60 calls (scan_record first (175, 180) rows).1)
      ≡ some s)
    × (is_unnotified 600 s ≡ false)
unfolding scan_record status get find_key update_key
alert_once_example = alert_once first (175, 180) rows 60 calls 600 refl
