-- ===== src/Gate/Remembered.antt =====
-- What `Decide` of backend/internal/api/approval_handler.go makes a session remember.
use serein.Base.{
  ℕ, ◌≡◌, refl, ◌∙◌, true, false, not, ◌&&◌, ◌||◌, some, String, List, str_eq, arith, Bool-cases,
  inl, inr, eq_refl,
}
use serein.Base.Table.{find_key}
use serein.Approval.Model.{Record, record_key, allow}
use serein.Approval.Service.{decide, get, decided, is_undecided}
use serein.Approval.Run.Final.{decide_lem}
use serein.Risk.Patterns.{Regexp}
use serein.Risk.Memo.{SessionMemo, remember}
use serein.Risk.Engine.{green, Engine, classify, is_remembered}
use serein.Risk.Priority.{is_command, is_blacklisted, classify-level, is_known-remember}
use serein.Gate.Handlers.{Server, done, decide_approval}

module _ (hash : String → String) (id : String) (now later : ℕ) (srv : Server) (r : Record)
    (stored : find_key record_key id srv.rows ≡ some r) where
  -- An answer that allows takes effect if the row waits, and then the row's command is remembered.
  allow_lem :
      (memos : List SessionMemo)
      → srv.engine.session ≡ some memos
      → (decide_approval hash id now later (some allow) srv).0 ≡ done
      → (decide_approval hash id now later (some allow) srv).1.engine
        ≡ record srv.engine { session = some (remember hash r.session_id r.command later memos) }
  unfolding decide_approval get
  allow_lem memos has h =
      let (won, found) = decide_lem id now srv.rows r stored allow "client" in
      elim (Bool-cases (is_undecided now r)) [
        | inl w ↦
            let f : find_key record_key id (decide id allow "client" now srv.rows).1
                ≡ some (decided allow "client" now r) =
              rw w at found in
            rw (won ∙ w, f, has) refl
        | inr l ↦ let b = won ∙ l in absurd (ground (arith, h, b))
      ]

  -- What the sessions remember after a client has allowed an approval: what they did before and, in the
  -- approval's session, the commands with the hash of its command.
  pub allow_remembers :
      (compile : Regexp) (memos : List SessionMemo) (session cmd : String)
      → srv.engine.session ≡ some memos
      → (decide_approval hash id now later (some allow) srv).0 ≡ done
      → is_remembered compile hash
          (decide_approval hash id now later (some allow) srv).1.engine.session
          session
          cmd
        ≡ (is_remembered compile hash srv.engine.session session cmd
            || (not (str_eq session "")
                && str_eq r.session_id session
                && str_eq (hash r.command) (hash cmd)))
  unfolding is_remembered
  allow_remembers compile memos session cmd has h =
      rw (allow_lem memos has h)
        (ground (arith, has, is_known-remember hash r.session_id r.command later memos session cmd))

  -- After a client has allowed a stored approval, where the engine has a session repository: a call in
  -- that session with the same command, which is not empty, of a tool that is neither read-only nor an
  -- editor, is green, if the session has a name and no blacklist stops the command, neither an entry of
  -- the table nor, by a first match with a description, the rules.
  pub allow_green :
      (compile : Regexp) (memos : List SessionMemo) (tool : String)
      → srv.engine.session ≡ some memos
      → (decide_approval hash id now later (some allow) srv).0 ≡ done
      → is_command tool r.command ≡ true
      → is_blacklisted compile hash srv.engine r.session_id tool r.command ≡ false
      → str_eq r.session_id "" ≡ false
      → (classify compile hash
          (decide_approval hash id now later (some allow) srv).1.engine
          r.session_id
          tool
          r.command).0
        ≡ green
  unfolding is_remembered
  allow_green compile memos tool has h c b s =
      let engine' : Engine = record srv.engine {
        session = some (remember hash r.session_id r.command later memos);
      } in
      rw (allow_lem memos has h) (
        ground (
          arith,
          classify-level compile hash engine' r.session_id tool r.command c,
          is_known-remember hash r.session_id r.command later memos r.session_id r.command,
          eq_refl r.session_id,
          eq_refl (hash r.command),
        ))
