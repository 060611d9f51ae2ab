-- ===== src/Gate/Tests.antt =====
-- The theorems on the routes of approvals at a concrete server. Its regular expressions are whole
-- texts; its hash is the command.
use serein.Base.{
  ◌≡◌, refl, true, false, none, some, String, List, [], ◌∷◌, str_eq, All, if◌then◌else◌, contains,
}
use serein.Base.Table.{find_key}
use serein.Approval.Model.{Record, allow}
use serein.Approval.Service.{created_row, decide, create}
use serein.Risk.Patterns.{Regexp}
use serein.Risk.Rules.{RuleSet, rule_of}
use serein.Risk.Engine.{match_rules, green, red, classify, match_table}
use serein.Risk.Permission.{yolo, safe_yolo, plan}
use serein.Gate.Handlers.{
  submit, created, SubmitReq, Server, create_approval, decide_approval, create_request,
}
use serein.Gate.Outcome.{create_approval_lem, Settles}
use serein.Gate.Remembered.{allow_green}
use serein.Gate.Run.{Call, submits, asks, answers, clears, switches, IsAccounted, run}
use serein.Gate.Run.Ledger.{run-IsAccounted}

abbrev whole : Regexp
whole p = if str_eq p "" then none else some (λ cmd. str_eq p cmd)

abbrev same : String → String
same s = s

abbrev push : SubmitReq
push = record {
  session_id = "s1";
  tool_name = "Bash";
  command = "git push";
  cwd = "/work";
  risk_level = "green";
  rule_reason = "";
  project = "";
  diff = "";
}

abbrev rules : RuleSet
rules = record {
  green = [];
  yellow = [];
  red =
      rule_of (record { pattern = "git push"; description = "push" }) (λ cmd. str_eq "git push" cmd)
      ∷ [];
  blacklist = [];
}

abbrev waiting_row : Record
waiting_row = created_row 60 "a1" 100 (create_request red "red rule: push" push)

abbrev server : Server
server = record {
  rows = waiting_row ∷ [];
  engine = record { blacklist = none; whitelist = none; session = some []; rules = rules };
  hub = some safe_yolo;
  has_push = false;
  signals = [];
}

create_approval_example :
    let risk = classify whole same server.engine "s1" "Bash" "git push" in
    Settles 60 "a2" 110 111 risk.0 safe_yolo
      (create_request risk.0 risk.1 push)
      (create_approval whole same 60 "a2" 110 111 (some push) server)
unfolding find_key
create_approval_example = create_approval_lem whole same 60 "a2" 110 111 push server refl refl

allow_green_example :
    (classify whole same
      (decide_approval same "a1" 120 121 (some allow) server).1.engine
      "s1"
      "Bash"
      "git push").0
    ≡ green
unfolding find_key decide_approval decide contains match_table match_rules
allow_green_example =
    allow_green same "a1" 120 121 server waiting_row refl whole [] "Bash" refl refl refl refl refl

abbrev calls : List Call
calls =
    submits "a2" 110 111 (some push)
    ∷ answers "a1" 120 121 (some allow)
    ∷ switches true yolo
    ∷ submits "a3" 130 131 (some push)
    ∷ asks "a2" 140
    ∷ clears
    ∷ []

run-IsAccounted_example : All IsAccounted (run whole same 60 calls server).rows
run-IsAccounted_example = run-IsAccounted whole same 60 calls server (refl, tt)

-- In the mode `plan`, which is there to refuse what writes, an editor's call is allowed at once: the mode
-- is asked of red calls only.
edits_in_plan :
    (create_approval whole same 60 "a2" 110 111
      (some (record push { tool_name = "Write" }))
      (record server { hub = some plan })).0
    ≡ created "a2" (some allow)
unfolding create_approval classify submit create contains find_key
edits_in_plan = refl
