-- ===== src/Risk/Memo.antt =====
-- backend/internal/store/session_repo.go: the commands that were approved in a session, by their
-- hash (SHA-256, a parameter).
use serein.Base.{
  ℕ, Bool, not, ◌&&◌, String, List, [], ◌∷◌, ◌++◌, str_eq, if◌then◌else◌, any, keep_if, len, slice,
  ltb,
}

-- A row of session_memo, with the primary key (session_id, command_hash).
pub record SessionMemo : Type 0 where
  pub session_id : String
  pub command_hash : String
  pub command_sample : String
  pub created_at : ℕ

abbrev pub is_memo : String → String → SessionMemo → Bool
is_memo session_id hash m = str_eq m.session_id session_id && str_eq m.command_hash hash

-- The first `n` bytes; a sample that cuts a character in two loses it here.
abbrev truncate : String → ℕ → String
truncate s n = if ltb n (len s) then slice s 0 n else s

module _ (hash_command : String → String) where
  unfoldable pub is_known : String → String → List SessionMemo → Bool
  is_known session_id command memos = any (is_memo session_id (hash_command command)) memos

  -- `INSERT OR IGNORE`
  unfoldable pub remember : String → String → ℕ → List SessionMemo → List SessionMemo
  unfolding is_known
  remember session_id command now memos =
      if is_known session_id command memos
      then memos
      else memos
        ++ record {
          session_id = session_id;
          command_hash = hash_command command;
          command_sample = truncate command 200;
          created_at = now;
        }
          ∷ []

unfoldable pub forget_session : String → List SessionMemo → List SessionMemo
forget_session session_id memos = keep_if (λ m. not (str_eq m.session_id session_id)) memos
