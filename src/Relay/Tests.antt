-- ===== src/Relay/Tests.antt =====
-- The theorems on the app's commands and on reported outputs at concrete ones.
use serein.Base.{ℕ, String, Bool, leb, ◌≡◌, ◌≤◌, refl, true, some, str_eq, arith, contains, pos}
use serein.Risk.Patterns.{Regexp}
use serein.Agent.Model.{exec, chat}
use serein.Agent.Queue.{new_queue}
use serein.Session.Manager.{new_session_manager}
use serein.Session.Consistent.{IsConsistent}
use serein.Base.Table.{find_key}
use serein.Relay.Commands.{AgentRelay, cmd}
use serein.Relay.Commands.Sent.{Sends, cmd-Sends}
use serein.Relay.Requests.{CmdRequest, validate_cmd_request, check_head}
use serein.Relay.Requests.Accepted.{is_none, is_acceptable, validate_cmd_request_lem}
use serein.Relay.Json.{Fields, end, field, bool, number, text, object}
use serein.Relay.Output.{sanitize_output, clean_fields, keeps, is_allowed, max_sanitize_depth}
use serein.Relay.Output.Depth.{map_depth, allowed_fields, sanitize_output-le, sanitize_output_lem}

abbrev whole : Regexp
whole p = some (λ s. str_eq p s)

abbrev memory : Fields
memory = field "percent" (number (pos 40) 0) end

-- A status, an unknown key, a flag of the wrong kind and a map.
abbrev output : Fields
output =
    field "status" (text "ok")
      (field "extra" (bool true) (field "ok" (text "yes") (field "memory" (object memory) end)))

abbrev cleaned : Fields
cleaned = field "status" (text "ok") (field "memory" (object memory) end)

sanitize_output-le_example : map_depth cleaned ≤ max_sanitize_depth
unfolding sanitize_output clean_fields keeps is_allowed contains
sanitize_output-le_example = sanitize_output-le whole output cleaned refl

sanitize_output_example : sanitize_output whole (some output) ≡ some (allowed_fields whole output)
unfolding map_depth
sanitize_output_example = sanitize_output_lem whole output (omega arith)

abbrev request : CmdRequest
request = record {
  action = exec;
  project = "serein";
  agent_type = "";
  work_scope = "";
  agent_session_id = "";
  agent_session_mode = "";
  runtime_mode = "";
  command = "make";
}

abbrev lower : String → String
lower s = s

abbrev above_space : ℕ → Bool
above_space c = leb 32 c

validate_cmd_request_example :
    is_none (validate_cmd_request whole lower above_space request)
    ≡ is_acceptable whole lower above_space request exec
validate_cmd_request_example = validate_cmd_request_lem whole lower above_space request

-- A chat is refused, though the code that answers commands has a branch for it.
chat_refused :
    validate_cmd_request whole lower above_space (record request { action = chat })
    ≡ some "invalid action: chat"
unfolding validate_cmd_request check_head
chat_refused = refl

abbrev relay : AgentRelay
relay = record {
  queue = some (new_queue (pos 20));
  sessions = some new_session_manager;
  running = 0;
}

empty-IsConsistent : IsConsistent new_session_manager
unfolding new_session_manager
empty-IsConsistent = record { projects_live = tt; scopes_live = tt; all_found = tt }

cmd-Sends_example :
    Sends whole lower above_space request true "c1" 7
      (new_queue (pos 20))
      relay
      (cmd whole lower above_space true (some request) true "c1" "s1" 7 relay)
unfolding new_queue new_session_manager find_key contains
cmd-Sends_example =
    cmd-Sends whole lower above_space request true "c1" "s1" 7 (new_queue (pos 20))
      new_session_manager relay refl refl refl empty-IsConsistent refl
