-- ===== src/Risk/Engine.antt =====
-- backend/internal/risk/engine.go: the risk of a call of a tool.
use serein.Base.{
  Bool, false, not, ◌&&◌, Option, none, some, String, List, [], ◌∷◌, str_eq, contains, ◌^^◌,
  if◌then◌else◌,
}
use serein.Risk.Patterns.{Regexp, Table, match_command}
use serein.Risk.Memo.{SessionMemo, is_known}
use serein.Risk.Rules.{Rule, RuleSet}

pub data Level : Type 0 where
  green yellow red : Level

abbrev pub green_tools : List String
green_tools =
    "Read" ∷ "Glob" ∷ "Grep" ∷ "LS" ∷ "WebSearch" ∷ "WebFetch" ∷ "TodoWrite" ∷ "TaskList"
    ∷ "TaskGet" ∷ "TaskOutput" ∷ "list_dir" ∷ "search" ∷ "codebase_search" ∷ "read_file"
    ∷ "web_fetch" ∷ "glob_file_search" ∷ "fetch_rules" ∷ "read_lints" ∷ "AskQuestion"
    ∷ "SpecAskQuestion" ∷ []

abbrev pub yellow_tools : List String
yellow_tools = "Edit" ∷ "Write" ∷ "NotebookEdit" ∷ "MultiEdit" ∷ "string_replace" ∷ []

-- The description of the first rule that matches; a rule without one reads as no match, and ends the
-- search.
unfoldable pub match_rules : List Rule → String → String
match_rules [] cmd = ""
match_rules (r ∷ rs) cmd = if r.test cmd then r.desc else match_rules rs cmd

-- The repositories may be nil.
pub record Engine : Type 0 where
  pub blacklist : Option Table
  pub whitelist : Option Table
  pub session : Option (List SessionMemo)
  pub rules : RuleSet

module _ (compile : Regexp) (hash_command : String → String) where
  unfoldable pub match_table : Option Table → String → Option String
  match_table none cmd = none
  match_table (some t) cmd = match_command compile t cmd

  unfoldable pub is_remembered : Option (List SessionMemo) → String → String → Bool
  is_remembered none session_id cmd = false
  is_remembered (some memos) session_id cmd =
      not (str_eq session_id "") && is_known hash_command session_id cmd memos

  unfoldable pub classify_rules : RuleSet → String → Level × String
  unfolding match_rules
  classify_rules rs cmd =
      if not (str_eq (match_rules rs.red cmd) "")
      then (red, "red rule: " ^^ match_rules rs.red cmd)
      else if not (str_eq (match_rules rs.yellow cmd) "")
      then (yellow, "yellow rule: " ^^ match_rules rs.yellow cmd)
      else if not (str_eq (match_rules rs.green cmd) "")
      then (green, "green rule: " ^^ match_rules rs.green cmd)
      else (yellow, "unknown command, default yellow")

  abbrev pub classify_white : Engine → String → Option String → Level × String
  classify_white e cmd (some desc) = (green, "whitelisted: " ^^ desc)
  classify_white e cmd none = classify_rules e.rules cmd

  abbrev pub classify_black : Engine → String → String → Option String → Level × String
  classify_black e session_id cmd (some desc) = (red, "db blacklisted: " ^^ desc)
  classify_black e session_id cmd none =
      if not (str_eq (match_rules e.rules.blacklist cmd) "")
      then (red, "blacklisted: " ^^ match_rules e.rules.blacklist cmd)
      else if is_remembered e.session session_id cmd
      then (green, "session memo: command already approved this session")
      else classify_white e cmd (match_table e.whitelist cmd)

  unfoldable pub classify : Engine → String → String → String → Level × String
  unfolding match_table is_remembered classify_rules match_rules
  classify e session_id tool_name cmd =
      if contains green_tools tool_name
      then (green, "read-only tool: " ^^ tool_name)
      else if contains yellow_tools tool_name
      then (yellow, "file edit tool: " ^^ tool_name)
      else if str_eq cmd ""
      then (yellow, "empty command")
      else classify_black e session_id cmd (match_table e.blacklist cmd)

  unfoldable pub static_classify : Engine → String → String → Level × String
  unfolding classify
  static_classify e tool_name cmd = classify e "" tool_name cmd
