-- ===== src/Remote/Waiting.antt =====
-- A session that waits too long (`applyTimeout` of backend/internal/remote/service.go).
use serein.Base.{ℕ, ◌+◌, ◌≡◌, ◌==◌, Option, none, some, String, if◌then◌else◌, ltb}
use serein.Base.Table.{find_key, update_key}
use serein.Remote.Model.{Session}
use serein.Remote.World.{Env, World}
use serein.Remote.Repository.{session_key, moved}
use serein.Remote.Service.{time_limit, to_failed}

-- The reason why a session has failed at a time, if it has waited too long in its state.
abbrev pub overdue_in : ℕ → Session → Option (ℕ × String) → Option String
overdue_in now s none = none
overdue_in now s (some (ttl, reason)) = if ltb now (s.updated_at + ttl) then none else some reason

abbrev pub overdue : ℕ → Session → Option String
overdue now s = overdue_in now s (time_limit s.state)

abbrev pub after_wait : ℕ → Session → Option String → Session
after_wait now s none = s
after_wait now s (some reason) = moved (to_failed reason) now s

module _ (e : Env) (w : World) (s : Session)
    (stored : find_key session_key s.id w.sessions ≡ some s) where
  failed_world : String → World
  failed_world reason = record w {
    sessions =
        update_key session_key s.id (λ r. r.revision == s.revision) (moved (to_failed reason) e.now)
          w.sessions;
  }
