-- ===== src/Relay/Requests.antt =====
-- backend/internal/api/agent_relay.go: the check of a command that the app sends (`validateCmdRequest`).
-- `regexp`, `strings.ToLower` and `unicode.IsPrint` are parameters. The error is the text of the reply.
pub mod Accepted
use Prim.Native.Char.{code}
use serein.Base.{
  ℕ, Bool, true, false, not, ◌&&◌, ◌||◌, ◌==◌, Option, none, some, String, List, [], ◌∷◌, str_eq,
  ltb, len, ◌^^◌, if◌then◌else◌, trim_space,
}
use serein.Agent.Model.{Action, start, stop, status, exec, kill_all, chat, file_write, other}
use serein.Risk.Patterns.{Regexp, pattern_matches}
use serein.Relay.Output.{max_project_len, is_safe_work_scope, is_uuid}

abbrev pub max_command_len : ℕ
max_command_len = 8000

pub record CmdRequest : Type 0 where
  pub action : Action
  pub project : String
  pub agent_type : String
  pub work_scope : String
  pub agent_session_id : String
  pub agent_session_mode : String
  pub runtime_mode : String
  pub command : String

-- `validActions`
abbrev pub is_valid_action : Action → Bool
is_valid_action chat = false
is_valid_action (other _) = false
is_valid_action _ = true

abbrev pub is_start : Action → Bool
is_start start = true
is_start _ = false

abbrev pub is_exec : Action → Bool
is_exec exec = true
is_exec _ = false

abbrev pub is_kill_all : Action → Bool
is_kill_all kill_all = true
is_kill_all _ = false

abbrev pub is_unset : Action → Bool
is_unset (other s) = str_eq s ""
is_unset _ = false

abbrev pub action_text : Action → String
action_text start = "start"
action_text stop = "stop"
action_text status = "status"
action_text exec = "exec"
action_text kill_all = "kill-all"
action_text chat = "chat"
action_text file_write = "file_write"
action_text (other s) = s

abbrev pub is_set : String → Bool
is_set s = not (str_eq s "")

-- `if c { writeJSON(error); return false }`, and the rest of the checks.
abbrev pub check : Bool → String → Option String → Option String
check c message rest = if c then some message else rest

-- The patterns of `dangerousExecPatterns`.
abbrev pub dangerous_exec_patterns : List (String × String)
dangerous_exec_patterns =
    ("\\brm\\s+(-rf\\s+)?[\\\\/](\\S|$)", "危险性递归删除")
    ∷ ("\\brm\\s+(-rf\\s+)?/\\s+-r\\b", "危险性递归删除")
    ∷ ("\\brm\\s+-rf\\s+\\.{2}(\\s|$)", "危险性递归删除（目录遍历）")
    ∷ ("\\brm\\s+-rf\\s+\\.(\\s|$)", "危险性递归删除（当前目录）")
    ∷ ("\\brm\\s+-rf\\s+\\*(\\s|$)", "危险性递归删除（通配符）")
    ∷ ("\\bdd\\s+if=", "危险磁盘操作")
    ∷ ("\\bmkfs\\b", "危险磁盘操作")
    ∷ ("\\bmke2fs\\b", "危险磁盘操作")
    ∷ ("\\bmkfs\\.", "危险磁盘操作")
    ∷ ("\\bfdisk\\b", "危险磁盘操作")
    ∷ ("\\bparted\\b", "危险磁盘操作")
    ∷ ("\\bchmod\\s+-R\\s+0\\s+/", "危险权限修改")
    ∷ ("\\bchown\\s+-R\\b", "危险权限修改")
    ∷ ("\\b:\\(\\)\\s*\\{", "fork 炸弹")
    ∷ ("\\bwget\\s+.+[|;]", "远程下载并执行")
    ∷ ("\\bcurl\\s+.+[|;]", "远程下载并执行")
    ∷ ("\\becho\\s+\"`\\s*rm\\b", "命令注入删除")
    ∷ []

module _ (compile : Regexp) (to_lower : String → String) (is_print : ℕ → Bool) where
  unfoldable pub is_printable : String → Bool
  is_printable String.[] = true
  is_printable (String.◌∷◌ c s) =
      (is_print (code c) || code c == 9 || code c == 10 || code c == 13) && is_printable s

  unfoldable pub contains_shell_meta : String → Bool
  contains_shell_meta = pattern_matches compile "[;&|$`<>]"

  abbrev pub first_danger : List (String × String) → String → Option String
  first_danger [] s = none
  first_danger ((pattern, reason) ∷ patterns) s =
      if pattern_matches compile pattern s then some reason else first_danger patterns s

  unfoldable pub contains_dangerous_exec : String → Option String
  unfolding trim_space
  contains_dangerous_exec cmd = first_danger dangerous_exec_patterns (to_lower (trim_space cmd))

  unfoldable pub check_agent_type : CmdRequest → Option String → Option String
  check_agent_type req rest =
      if is_set req.agent_type
      then check (not (is_start req.action)) "agent_type is only valid for start action" (
          check (not (str_eq req.agent_type "claude") && not (str_eq req.agent_type "codex"))
            ("unsupported agent_type: " ^^ req.agent_type) rest)
      else rest

  unfoldable pub check_runtime_mode : CmdRequest → Option String → Option String
  check_runtime_mode req rest =
      if is_set req.runtime_mode
      then check (not (is_start req.action)) "runtime_mode is only valid for start action" (
          check (not (str_eq req.runtime_mode "cli") && not (str_eq req.runtime_mode "desktop"))
            "invalid runtime_mode"
            (check (str_eq req.runtime_mode "desktop" && not (str_eq req.agent_type "codex"))
              "desktop runtime requires agent_type=codex" rest))
      else rest

  unfoldable pub check_scope : CmdRequest → Option String → Option String
  check_scope req rest =
      if is_set req.work_scope || is_set req.agent_session_id || is_set req.agent_session_mode
      then check (not (is_start req.action)) "work scope fields are only valid for start action" (
          check (ltb 500 (len req.work_scope) || not (is_safe_work_scope compile req.work_scope))
            "invalid work_scope"
            (check (is_set req.agent_session_id && not (is_uuid compile req.agent_session_id))
              "invalid agent_session_id"
              (check
                (is_set req.agent_session_mode
                  && not (str_eq req.agent_session_mode "new")
                  && not (str_eq req.agent_session_mode "resume"))
                "invalid agent_session_mode"
                (check (is_set req.agent_session_mode && str_eq req.agent_session_id "")
                  "agent_session_id required for session mode" rest))))
      else rest

  unfoldable pub check_danger : CmdRequest → Option String → Option String
  check_danger req rest =
      if is_exec req.action && is_set req.command
      then elim (contains_dangerous_exec req.command) [
        | none ↦ rest
        | some reason ↦ some ("exec command rejected: " ^^ reason)
      ]
      else rest

  unfoldable pub check_sizes : CmdRequest → Option String
  check_sizes req = check (ltb max_project_len (len req.project)) "project too long" (
      check (ltb max_command_len (len req.command)) "command too long" (
        check (not (is_exec req.action) && contains_shell_meta req.command)
          "command contains disallowed shell metacharacters" none))

  unfoldable pub check_head : CmdRequest → Option String → Option String
  check_head req rest = check (is_unset req.action) "action required" (
      check (not (is_valid_action req.action)) ("invalid action: " ^^ action_text req.action) (
        check (not (is_kill_all req.action) && str_eq req.project "") "project required" (
          check (not (is_kill_all req.action) && not (is_printable req.project))
            "project contains non-printable characters"
            (check (is_exec req.action && str_eq req.command "") "command required for exec action"
              rest))))

  -- `none` where the request is accepted.
  unfoldable pub validate_cmd_request : CmdRequest → Option String
  validate_cmd_request req = check_head req (
      check_agent_type req
        (check_runtime_mode req (check_scope req (check_danger req (check_sizes req)))))
