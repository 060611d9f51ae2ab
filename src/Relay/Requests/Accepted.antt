-- ===== src/Relay/Requests/Accepted.antt =====
-- Which commands the app may send (`validateCmdRequest` of backend/internal/api/agent_relay.go).
use serein.Base.{
  ℕ, ◌≡◌, refl, sym, subst, ◌∙◌, Bool, true, false, not, ◌&&◌, ◌||◌, Option, none, some, String,
  str_eq, eq_iff, ltb, len, arith, if◌then◌else◌,
}
use serein.Agent.Model.{Action, start, stop, status, exec, kill_all, chat, file_write, other}
use serein.Risk.Patterns.{Regexp}
use serein.Relay.Output.{max_project_len, is_safe_work_scope, is_uuid}
use serein.Relay.Requests.{
  check_head, is_valid_action, is_kill_all, is_start, is_exec, check_agent_type, check_runtime_mode,
  check_scope, check_danger, check_sizes, CmdRequest, max_command_len, is_set, is_printable,
  contains_shell_meta, contains_dangerous_exec, validate_cmd_request,
}

cli_desktop : (s : String) → str_eq s "cli" ≡ true → str_eq s "desktop" ≡ false
cli_desktop s h =
    let p : s ≡ "cli" = ground (arith, eq_iff s "cli") in
    subst (λ t. str_eq t "desktop" ≡ false) (sym p) refl

abbrev pub is_none : {A : Type 0} → Option A → Bool
is_none none = true
is_none (some _) = false

module _ (compile : Regexp) (to_lower : String → String) (is_print : ℕ → Bool)
    (req : CmdRequest) where
  abbrev pub has_project : Bool
  has_project = is_set req.project && is_printable compile to_lower is_print req.project

  -- The fields that only a start may set are not set.
  abbrev pub is_plain : Bool
  is_plain =
      str_eq req.agent_type ""
      && str_eq req.runtime_mode ""
      && str_eq req.work_scope ""
      && str_eq req.agent_session_id ""
      && str_eq req.agent_session_mode ""

  abbrev pub is_short : Bool
  is_short =
      not (ltb max_project_len (len req.project)) && not (ltb max_command_len (len req.command))

  abbrev pub is_inert : Bool
  is_inert = not (contains_shell_meta compile to_lower is_print req.command)

  -- No agent is named, or a known one.
  abbrev pub is_agent_valid : Bool
  is_agent_valid =
      str_eq req.agent_type "" || str_eq req.agent_type "claude" || str_eq req.agent_type "codex"

  -- No runtime is named, or a known one, where the desktop goes with codex only.
  abbrev pub is_runtime_valid : Bool
  is_runtime_valid =
      str_eq req.runtime_mode ""
      || str_eq req.runtime_mode "cli"
      || (str_eq req.runtime_mode "desktop" && str_eq req.agent_type "codex")

  -- Nothing of a session is given; or it has a scope, and an id or none, and a mode with an id only.
  abbrev pub is_session_valid : Bool
  is_session_valid =
      (str_eq req.work_scope ""
        && str_eq req.agent_session_id ""
        && str_eq req.agent_session_mode "")
      || (not (ltb 500 (len req.work_scope))
          && is_safe_work_scope compile req.work_scope
          && (if str_eq req.agent_session_id ""
              then str_eq req.agent_session_mode ""
              else is_uuid compile req.agent_session_id
                && (str_eq req.agent_session_mode ""
                    || str_eq req.agent_session_mode "new"
                    || str_eq req.agent_session_mode "resume")))

  abbrev pub is_acceptable : Action → Bool
  is_acceptable start =
      has_project
      && (is_agent_valid && (is_runtime_valid && (is_session_valid && (is_short && is_inert))))
  is_acceptable exec =
      has_project
      && is_set req.command
      && is_none (contains_dangerous_exec compile to_lower is_print req.command)
      && is_plain
      && is_short
  is_acceptable kill_all = is_plain && is_short && is_inert
  is_acceptable chat = false
  is_acceptable (other _) = false
  is_acceptable _ = has_project && is_plain && is_short && is_inert

  -- What the groups of checks ask.
  abbrev head_ok : Bool
  head_ok =
      is_valid_action req.action
      && (is_kill_all req.action || has_project)
      && not (is_exec req.action && str_eq req.command "")

  abbrev agent_ok : Bool
  agent_ok = str_eq req.agent_type "" || (is_start req.action && is_agent_valid)

  abbrev runtime_ok : Bool
  runtime_ok = str_eq req.runtime_mode "" || (is_start req.action && is_runtime_valid)

  abbrev scope_ok : Bool
  scope_ok =
      (str_eq req.work_scope ""
        && str_eq req.agent_session_id ""
        && str_eq req.agent_session_mode "")
      || (is_start req.action && is_session_valid)

  abbrev danger_ok : Bool
  danger_ok =
      not (is_exec req.action && is_set req.command)
      || is_none (contains_dangerous_exec compile to_lower is_print req.command)

  abbrev sizes_ok : Bool
  sizes_ok = is_short && (is_exec req.action || is_inert)

  agent_type_lem :
      (rest : Option String)
      → is_none (check_agent_type compile to_lower is_print req rest) ≡ (agent_ok && is_none rest)
  unfolding check_agent_type
  agent_type_lem rest = ground arith

  runtime_mode_lem :
      (rest : Option String)
      → is_none (check_runtime_mode compile to_lower is_print req rest)
        ≡ (runtime_ok && is_none rest)
  unfolding check_runtime_mode
  runtime_mode_lem rest = ground (arith, cli_desktop req.runtime_mode)

  scope_lem :
      (rest : Option String)
      → is_none (check_scope compile to_lower is_print req rest) ≡ (scope_ok && is_none rest)
  unfolding check_scope
  scope_lem rest = ground arith

  danger_lem :
      (rest : Option String)
      → is_none (check_danger compile to_lower is_print req rest) ≡ (danger_ok && is_none rest)
  unfolding check_danger
  danger_lem rest = ground arith

  sizes_lem : is_none (check_sizes compile to_lower is_print req) ≡ sizes_ok
  unfolding check_sizes
  sizes_lem = ground arith

  head_lem :
      (rest : Option String)
      → is_none (check_head compile to_lower is_print req rest) ≡ (head_ok && is_none rest)
  unfolding check_head
  head_lem rest = ground arith

  -- The whole check, as one conjunction.
  conjunction :
      is_none (validate_cmd_request compile to_lower is_print req)
      ≡ (head_ok && (agent_ok && (runtime_ok && (scope_ok && (danger_ok && sizes_ok)))))
  unfolding validate_cmd_request
  conjunction =
      let sizes = check_sizes compile to_lower is_print req in
      let danger = check_danger compile to_lower is_print req sizes in
      let scope = check_scope compile to_lower is_print req danger in
      let runtime = check_runtime_mode compile to_lower is_print req scope in
      let agent = check_agent_type compile to_lower is_print req runtime in
      rw
        (
          head_lem agent,
          agent_type_lem runtime,
          runtime_mode_lem scope,
          scope_lem danger,
          danger_lem sizes,
          sizes_lem,
        )
        refl

  by_action :
      (a : Action)
      → req.action ≡ a
      → (head_ok && (agent_ok && (runtime_ok && (scope_ok && (danger_ok && sizes_ok)))))
        ≡ is_acceptable a
  by_action start h =
      let head : head_ok ≡ has_project = ground (arith, h) in
      let agent : agent_ok ≡ is_agent_valid = ground (arith, h) in
      let runtime : runtime_ok ≡ is_runtime_valid = ground (arith, h) in
      let scope : scope_ok ≡ is_session_valid = ground (arith, h) in
      let danger : danger_ok ≡ true = ground (arith, h) in
      let sizes : sizes_ok ≡ (is_short && is_inert) = ground (arith, h) in
      rw (head, agent, runtime, scope, danger, sizes) refl
  by_action stop h = ground (arith, h)
  by_action exec h = ground (arith, h)
  by_action kill_all h = ground (arith, h)
  by_action status h = ground (arith, h)
  by_action file_write h = ground (arith, h)
  by_action chat h = ground (arith, h)
  by_action (other s) h = ground (arith, h)

  -- Which requests are accepted, by their action. The project and the command are never too long, and
  -- all actions but kill-all have a printable project. A start may name an agent, a runtime and a session,
  -- or leave any of them out, but what it names is valid: the agent is claude or codex, the runtime is
  -- cli, or desktop with codex, and a session has a scope that is safe, an id that is a UUID or none, both
  -- by the patterns of the source, and a mode, new or resume, only with an id. The other actions name none of these. An exec has a command, in which
  -- no dangerous pattern is found; the commands of the others have no shell metacharacters. A chat and an
  -- unknown action are refused.
  pub validate_cmd_request_lem :
      is_none (validate_cmd_request compile to_lower is_print req) ≡ is_acceptable req.action
  validate_cmd_request_lem = conjunction ∙ by_action req.action refl
