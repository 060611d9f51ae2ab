-- ===== src/Session/History.antt =====
-- `GetHistory` of backend/internal/session/manager.go: the results of a session in the queue of commands,
-- as messages.
use serein.Base.{
  ℕ, ◌+◌, ◌≡◌, refl, sym, ◌∙◌, ap, Bool, true, false, not, ◌&&◌, ◌||◌, Option, none, some, String,
  List, [], ◌∷◌, ◌++◌, str_eq, arith, if◌then◌else◌, keep_if, All, Bool-cases, inl, inr, ℤ,
  has_prefix,
}
use serein.Agent.Model.{Action, chat, other, Command, Output, null, text, value, Result, Queue}
use serein.Agent.Reports.{history, get_cmd}

pub record HistoryMsg : Type 0 where
  pub seq : ℕ
  pub source : String
  pub timestamp : ℕ
  pub msg_type : String
  pub content : String
  pub cmd_id : String
  pub turn : String
  pub event : String
  pub thinking : Bool

unfoldable pub is_valid_chat_output : Output → Bool
unfolding has_prefix
is_valid_chat_output null = false
is_valid_chat_output (value _) = true
is_valid_chat_output (text s) =
    not (str_eq s "")
    && not (has_prefix "{\"error\":\"" s)
    && not (str_eq s "timeout waiting for agent" || str_eq s "request cancelled")

abbrev pub is_chat : Action → Bool
is_chat chat = true
is_chat _ = false

abbrev pub is_unset : Action → Bool
is_unset (other s) = str_eq s ""
is_unset _ = false

-- The results of a session.
abbrev pub is_own : String → Result → Bool
is_own session_id r = not (str_eq r.session_id "" || not (str_eq r.session_id session_id))

abbrev pub action_of : Option Command → Result → Action
action_of none r = r.action
action_of (some cmd) r = cmd.action

abbrev pub command_of : Option Command → String
command_of none = ""
command_of (some cmd) = cmd.command

-- The results that the loop does not skip.
unfoldable pub is_shown : String → Option Command → Result → Bool
unfolding is_valid_chat_output
is_shown session_id cmd r =
    is_own session_id r
    && not (is_chat (action_of cmd r))
    && not (is_unset (action_of cmd r) && not (is_valid_chat_output r.output))

abbrev pub content_of : Output → String
content_of null = ""
content_of (text s) = s
content_of (value none) = "(content unavailable)"
content_of (value (some json)) = json

-- The messages of a result: the command, if it has a text, and the answer.
abbrev pub messages_of : ℕ → Option Command → Result → List HistoryMsg
messages_of seq cmd r =
    let answer : HistoryMsg = record {
      seq = seq + 2;
      source = "agent";
      timestamp = r.created_at;
      msg_type = "command";
      content = content_of r.output;
      cmd_id = r.cmd_id;
      turn = "";
      event = "";
      thinking = false;
    } in
    if str_eq (command_of cmd) ""
    then answer ∷ []
    else record {
      seq = seq + 1;
      source = "user";
      timestamp = r.created_at;
      msg_type = "text";
      content = command_of cmd;
      cmd_id = r.cmd_id;
      turn = "";
      event = "";
      thinking = false;
    }
      ∷ answer
      ∷ []

-- The loop, after the number `seq`.
unfoldable pub collect_messages : Queue → String → ℕ → List Result → List HistoryMsg
collect_messages q session_id seq [] = []
collect_messages q session_id seq (r ∷ rs) =
    let cmd = get_cmd r.cmd_id q in
    let shown = is_shown session_id cmd r in
    let rest = collect_messages q session_id (if shown then seq + 2 else seq) rs in
    if shown then messages_of seq cmd r ++ rest else rest

abbrev collect_all : Option Queue → String → ℤ → List HistoryMsg
collect_all none session_id n = []
collect_all (some q) session_id n = collect_messages q session_id 0 (history n q)

unfoldable pub get_history : Option Queue → String → ℤ → List HistoryMsg
get_history queue session_id n = collect_all queue session_id n

foreign-is_shown :
    (session_id : String) (cmd : Option Command) (r : Result)
    → is_own session_id r ≡ false
    → is_shown session_id cmd r ≡ false
unfolding is_shown
foreign-is_shown session_id cmd r h = ground arith

-- The loop over the results of the session alone, which finds their commands in another queue.
collect_own :
    (q q' : Queue) (session_id : String) (seq : ℕ) (rs : List Result)
    → All (λ r. get_cmd r.cmd_id q ≡ get_cmd r.cmd_id q') (keep_if (is_own session_id) rs)
    → collect_messages q session_id seq rs
      ≡ collect_messages q' session_id seq (keep_if (is_own session_id) rs)
unfolding collect_messages
collect_own q q' session_id seq [] same = refl
collect_own q q' session_id seq (r ∷ rs) same = elim (Bool-cases (is_own session_id r)) [
  | inl own ↦
      let rest : All (λ t. get_cmd t.cmd_id q ≡ get_cmd t.cmd_id q')
          (r ∷ keep_if (is_own session_id) rs) =
        rw own at same in
      elim (Bool-cases (is_shown session_id (get_cmd r.cmd_id q') r)) [
        | inl shown ↦
            rw (own, rest.0, shown)
              (ap (λ t. messages_of seq (get_cmd r.cmd_id q') r ++ t)
                (collect_own q q' session_id (seq + 2) rs rest.1))
        | inr hidden ↦ rw (own, rest.0, hidden) (collect_own q q' session_id seq rs rest.1)
      ]
  | inr foreign ↦
      rw (foreign, foreign-is_shown session_id (get_cmd r.cmd_id q) r foreign)
        (collect_own q q' session_id seq rs (rw foreign at same))
]

All-same : {A : Type 0} (f : Result → A) (rs : List Result) → All (λ r. f r ≡ f r) rs
All-same f [] = tt
All-same f (r ∷ rs) = (refl, All-same f rs)

-- A session's history tells nothing of other sessions: it is the same for two queues whose histories
-- have the same results of that session, in their order, and the same commands for these results.
pub history_private :
    (q q' : Queue) (session_id : String) (n : ℤ)
    → keep_if (is_own session_id) (history n q) ≡ keep_if (is_own session_id) (history n q')
    → All
        (λ r. get_cmd r.cmd_id q ≡ get_cmd r.cmd_id q')
        (keep_if (is_own session_id) (history n q))
    → get_history (some q) session_id n ≡ get_history (some q') session_id n
unfolding get_history
history_private q q' session_id n same cmds =
    collect_own q q' session_id 0 (history n q) cmds
    ∙ ap (collect_messages q' session_id 0) same
    ∙ sym (
        collect_own q' q' session_id 0 (history n q')
          (All-same (λ r. get_cmd r.cmd_id q') (keep_if (is_own session_id) (history n q'))))
