-- ===== src/Agent/Model.antt =====
-- backend/internal/agent/relay.go: commands, their results and steps, and the queue. A map to `bool` is
-- the list of its keys; a channel, whose buffer holds one value, is that value. The optional
-- repositories, which only persist statistics, are left out.
use serein.Base.{ℕ, ℤ, Bool, Option, String, List, str_eq, if◌then◌else◌, ◌==◌}

-- The actions are string constants in the source, compared with `==`; any other text is `other`.
pub data Action : Type 0 where
  start stop status exec kill_all chat file_write : Action
  other : String → Action

pub record Command : Type 0 where
  pub id : String
  pub action : Action
  pub project : String
  pub agent_type : String
  pub work_scope : String
  pub agent_session_id : String
  pub agent_session_mode : String
  pub runtime_mode : String
  pub command : String
  pub file_name : String
  pub file_data : String
  pub session_id : String
  pub created_at : ℕ
  pub notify : Bool  -- whether the channel was made

pub record Step : Type 0 where
  pub cmd_id : String
  pub seq : ℤ
  pub event : String
  pub name : String
  pub content : String

-- A value of type `any`: nil, a string, or another value with what `json.Marshal` makes of it.
pub data Output : Type 0 where
  null : Output
  text : String → Output
  value : Option String → Output

pub record Result : Type 0 where
  pub cmd_id : String
  pub success : Bool
  pub output : Output
  pub session_id : String
  pub created_at : ℕ
  pub action : Action

-- `channels` and `mailboxes` are the contents of the waiters' channels, by a number for each, and of
-- the commands' `notify`, by the id of the command.
pub record Queue : Type 0 where
  pub pending : List Command
  pub commands : List Command
  pub dequeued : List String
  pub reported : List String
  pub history : List Result
  pub waiters : List ℕ
  pub max_history : ℕ
  pub steps : List Step
  pub max_steps : ℕ
  pub channels : ℕ → Option Command
  pub mailboxes : String → Option Result

abbrev pub cmd_key : Command → String
cmd_key c = c.id

-- One channel of a family, set.
abbrev pub set_channel : (ℕ → Option Command) → ℕ → Option Command → ℕ → Option Command
set_channel f k v j = if k == j then v else f j

abbrev pub set_mailbox : (String → Option Result) → String → Option Result → String → Option Result
set_mailbox f k v j = if str_eq k j then v else f j
