-- ===== src/Session/Window.antt =====
-- How long a session waits for its clients to come back (backend/internal/session/manager.go).
use serein.Base.{
  ℕ, ◌+◌, ◌≡◌, refl, ◌∙◌, none, some, String, str_eq, eq_refl, ltb, arith, if◌then◌else◌,
  Bool-cases, inl, inr, true,
}
use serein.Base.Table.{find_key}
use serein.Base.Rows.{find_key-update}
use serein.Session.Manager.{
  Session, Manager, session_key, is_expired, is_empty, without, left, leave_session, cleanup,
  session_pending_delete_delay, scoped_session_stale_timeout,
}
use serein.Session.Run.Cleanup.{cleanup_lem}

-- When a session is removed that its last client has left.
abbrev pub leave_limit : Session → ℕ
leave_limit s =
    if str_eq s.scope "" then session_pending_delete_delay else scoped_session_stale_timeout

expired_left :
    (s : Session) (client : String) (now later : ℕ)
    → is_empty (without client s.clients) ≡ true
    → is_expired later (left client now s) ≡ ltb (now + leave_limit s) later
unfolding is_expired
expired_left s client now later e = elim (Bool-cases (str_eq s.scope "")) [
  | inl c ↦ rw (e, c) (ground arith)
  | inr c ↦ rw (e, c) refl
]

-- After the last client has left a session, a cleanup removes the session if more than half a minute has
-- passed, or a week if the session has a scope, and until then keeps it.
pub leave-cleanup :
    (id client : String) (now later : ℕ) (m : Manager) (s : Session)
    → find_key session_key id m.sessions ≡ some s
    → is_empty (without client s.clients) ≡ true
    → find_key session_key id (cleanup later (leave_session id client now m)).sessions
      ≡ (if ltb (now + leave_limit s) later then none else some (left client now s))
unfolding leave_session
leave-cleanup id client now later m s stored e =
    let found : find_key session_key id (leave_session id client now m).sessions
        ≡ some (left client now s) =
      find_key-update session_key id id (left client now) m.sessions s (λ _. refl) stored
      ∙ rw (eq_refl id) refl in
    cleanup_lem later id (leave_session id client now m)
    ∙ rw (found, expired_left s client now later e) refl
