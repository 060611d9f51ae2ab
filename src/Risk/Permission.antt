-- ===== src/Risk/Permission.antt =====
-- backend/internal/session/message.go: what a permission mode decides of a call of a tool.
pub mod Matrix
use serein.Base.{
  Bool, true, false, not, ◌||◌, Option, none, some, String, List, [], ◌∷◌, str_eq, contains, length,
  ◌==◌, if◌then◌else◌,
}

-- The modes are string constants in the source, compared with `==`; any other text is `other`.
pub data Mode : Type 0 where
  default accept_edits bypass_permissions plan read_only safe_yolo yolo : Mode
  other : String → Mode

unfoldable pub is_valid_permission_mode : Mode → Bool
is_valid_permission_mode (other _) = false
is_valid_permission_mode _ = true

pub data PermissionDecision : Type 0 where
  needs_approval auto_approve auto_deny : PermissionDecision

abbrev pub read_only_tools : List String
read_only_tools =
    "Read" ∷ "Grep" ∷ "Glob" ∷ "LS" ∷ "list_dir" ∷ "search" ∷ "WebSearch" ∷ "WebFetch"
    ∷ "codebase_search" ∷ "read_file" ∷ "web_fetch" ∷ "glob_file_search" ∷ "fetch_rules"
    ∷ "read_lints" ∷ "TodoWrite" ∷ "TaskList" ∷ "TaskGet" ∷ "TaskOutput" ∷ "AskQuestion"
    ∷ "SpecAskQuestion" ∷ []

unfoldable pub is_write_tool : String → Bool
is_write_tool tool_name = not (contains read_only_tools tool_name)

-- The second half: the mode, with the risk and the tool.
unfoldable pub evaluate_mode : Mode → String → String → PermissionDecision
unfolding is_write_tool
evaluate_mode bypass_permissions risk tool = auto_approve
evaluate_mode yolo risk tool = auto_approve
evaluate_mode safe_yolo risk tool = if str_eq risk "red" then auto_deny else auto_approve
evaluate_mode accept_edits risk tool = if str_eq risk "red" then needs_approval else auto_approve
evaluate_mode default risk tool = if str_eq risk "green" then auto_approve else needs_approval
evaluate_mode plan risk tool = if not (is_write_tool tool) then auto_approve else auto_deny
evaluate_mode read_only risk tool = if not (is_write_tool tool) then auto_approve else auto_deny
evaluate_mode (other _) risk tool = needs_approval

unfoldable pub evaluate_permission :
    Mode → String → String → List String → List String → PermissionDecision
unfolding evaluate_mode
evaluate_permission mode risk tool allowed disallowed =
    if contains disallowed tool
    then auto_deny
    else if not (length allowed == 0)
    then if not (contains allowed tool) then auto_deny else evaluate_mode mode risk tool
    else evaluate_mode mode risk tool

abbrev is_auto_approve : PermissionDecision → Bool
is_auto_approve auto_approve = true
is_auto_approve _ = false

unfoldable pub should_auto_approve : Mode → String → Bool
unfolding evaluate_permission
should_auto_approve mode risk = is_auto_approve (evaluate_permission mode risk "" [] [])
