-- ===== src/Risk/Tests.antt =====
-- The theorems on risks and permissions at a concrete engine. Its regular expressions are whole texts,
-- where the empty one is invalid; its hash is the command.
use serein.Base.{
  ◌≡◌, ◌≢◌, refl, ◌⊎◌, order_by, true, false, none, some, String, List, [], ◌∷◌, str_eq, contains,
  if◌then◌else◌,
}
use serein.Risk.Patterns.{Regexp, match_command, pattern_matches, first_match, list}
use serein.Risk.Memo.{SessionMemo, is_known}
use serein.Risk.Rules.{Rule, RulesFile, RuleSet, rule_of}
use serein.Risk.Engine.{
  green, yellow, red, Engine, classify, green_tools, match_table, classify_rules, match_rules,
  is_remembered,
}
use serein.Risk.Permission.{
  safe_yolo, auto_deny, auto_approve, needs_approval, evaluate_permission, is_write_tool,
}
use serein.Risk.Permission.Matrix.{is_excluded, lets_through, never_asks, evaluate_permission_lem}
use serein.Risk.Priority.{
  is_blacklisted, is_trusted, applies, classify-level, is_some, some_match, green_reasons,
}

abbrev whole : Regexp
whole p = if str_eq p "" then none else some (λ cmd. str_eq p cmd)

abbrev same : String → String
same s = s

abbrev rule : String → String → Rule
rule p d = rule_of (record { pattern = p; description = d }) (λ cmd. str_eq p cmd)

abbrev rules : RuleSet
rules = record {
  green = rule "ls" "list" ∷ [];
  yellow = rule "make" "build" ∷ [];
  red = rule "git push" "push" ∷ [];
  blacklist = rule "mkfs" "format" ∷ [];
}

abbrev memo : SessionMemo
memo = record { session_id = "s1"; command_hash = "halt"; command_sample = "halt"; created_at = 1 }

abbrev engine : Engine
engine = record {
  blacklist = some (record {
    entries = record { id = 1; pattern = "halt"; description = "off"; created_at = 0 } ∷ [];
    last_id = 1;
  });
  whitelist = none;
  session = some (memo ∷ []);
  rules = rules;
}

abbrev file : RulesFile
file = record {
  green = [];
  yellow = record { pattern = "tar"; description = "pack" } ∷ [];
  red = [];
  blacklist = [];
}

classify-level_example : (classify whole same engine "s1" "Bash" "git push").0 ≡ (
    if is_blacklisted whole same engine "s1" "Bash" "git push"
    then red
    else if is_trusted whole same engine "s1" "Bash" "git push"
    then green
    else if applies rules.red "git push"
    then red
    else if applies rules.yellow "git push"
    then yellow
    else if applies rules.green "git push"
    then green
    else yellow)
unfolding contains
classify-level_example = classify-level whole same engine "s1" "Bash" "git push" refl

green_reasons_example :
    (contains green_tools "Bash" ≡ true)
    ⊎ ((is_some (match_table whole same engine.blacklist "ls") ≡ false)
        × (some_match rules.blacklist "ls" ≡ false)
        × ((is_trusted whole same engine "s1" "Bash" "ls" ≡ true)
            ⊎ ((some_match rules.red "ls" ≡ false)
                × (some_match rules.yellow "ls" ≡ false)
                × (some_match rules.green "ls" ≡ true))))
unfolding classify contains match_table match_command list first_match pattern_matches
    classify_rules match_rules is_remembered is_known order_by
green_reasons_example = green_reasons whole same engine "s1" "Bash" "ls" refl refl

some_rules : (r : Rule) (rs : List Rule) → (r ∷ rs) ≢ []
some_rules r rs h = cc

evaluate_permission_example : evaluate_permission safe_yolo "red" "Bash" [] ("Write" ∷ []) ≡ (
    if is_excluded "Bash" [] ("Write" ∷ [])
    then auto_deny
    else if lets_through safe_yolo "red" (is_write_tool "Bash")
    then auto_approve
    else if never_asks safe_yolo
    then auto_deny
    else needs_approval)
evaluate_permission_example = evaluate_permission_lem safe_yolo "red" "Bash" [] ("Write" ∷ [])
