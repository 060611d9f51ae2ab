-- ===== src/Session/Manager.antt =====
-- backend/internal/session/manager.go: the operations on sessions. Each holds the lock from its start to
-- its end, and reads the clock once; a map is an association list. `generateSessionID` gives the id.
use serein.Base.{
  ℕ, ◌+◌, Bool, true, false, not, ◌&&◌, ◌||◌, Option, none, some, String, List, [], ◌∷◌, str_eq,
  ltb, ◌^^◌, if◌then◌else◌, keep_if, suc, map,
}
use serein.Base.Table.{find_key, update_key, upsert_key}

pub record ClientInfo : Type 0 where
  pub client_id : String
  pub client_type : String
  pub joined_at : ℕ

-- `pending_delete_at` is `none` for the zero time.
pub record Session : Type 0 where
  pub id : String
  pub project : String
  pub scope : String
  pub clients : List ClientInfo
  pub created_at : ℕ
  pub last_activity : ℕ
  pub pending_delete_at : Option ℕ

pub record Manager : Type 0 where
  pub sessions : List Session
  pub projects : List (String × String)
  pub scopes : List (String × String)
  pub seq : ℕ

abbrev pub session_key : Session → String
session_key s = s.id

abbrev pub client_key : ClientInfo → String
client_key c = c.client_id

abbrev pub entry_key : String × String → String
entry_key e = e.0

abbrev pub session_stale_timeout : ℕ
session_stale_timeout = 1_800_000_000_000

abbrev pub scoped_session_stale_timeout : ℕ
scoped_session_stale_timeout = 604_800_000_000_000

abbrev pub session_pending_delete_delay : ℕ
session_pending_delete_delay = 30_000_000_000

unfoldable pub new_session_manager : Manager
new_session_manager = record { sessions = []; projects = []; scopes = []; seq = 0 }

abbrev pub is_empty : List ClientInfo → Bool
is_empty [] = true
is_empty (_ ∷ _) = false

abbrev pub is_after : ℕ → Option ℕ → Bool
is_after now none = false
is_after now (some t) = ltb t now

-- What `cleanup` removes: sessions without clients, with a scope after a week, and without one after the
-- delay or half an hour.
unfoldable pub is_expired : ℕ → Session → Bool
is_expired now s =
    is_empty s.clients
    && (if not (str_eq s.scope "")
        then ltb (s.last_activity + scoped_session_stale_timeout) now
        else is_after now s.pending_delete_at || ltb (s.last_activity + session_stale_timeout) now)

-- `delete(sm.sessions, id)` and `removeSessionMappings(id)`
unfoldable pub forget : String → Manager → Manager
forget id m = record m {
  sessions = keep_if (λ s. not (str_eq s.id id)) m.sessions;
  projects = keep_if (λ e. not (str_eq e.1 id)) m.projects;
  scopes = keep_if (λ e. not (str_eq e.1 id)) m.scopes;
}

abbrev pub cleanup_one : ℕ → Option Session → Manager → Manager
cleanup_one now none m = m
cleanup_one now (some s) m = if is_expired now s then forget s.id m else m

-- The loop over the map, whose keys are `ids`.
unfoldable pub cleanup_all : ℕ → List String → Manager → Manager
unfolding is_expired forget
cleanup_all now [] m = m
cleanup_all now (id ∷ ids) m =
    cleanup_all now ids (cleanup_one now (find_key session_key id m.sessions) m)

unfoldable pub cleanup : ℕ → Manager → Manager
unfolding cleanup_all
cleanup now m = cleanup_all now (map session_key m.sessions) m

-- `atomic.AddInt64(&sm.seq, 1)`
unfoldable pub next_seq : Manager → ℕ × Manager
next_seq m = (suc m.seq, record m { seq = suc m.seq })

-- The session that a map gives for a key: its id has to be that of a session.
abbrev pub lookup : Option (String × String) → List Session → Option Session
lookup none sessions = none
lookup (some (k, sid)) sessions = find_key session_key sid sessions

abbrev pub put : String → String → List (String × String) → List (String × String)
put k v entries = upsert_key entry_key (k, v) (λ _. (k, v)) entries

abbrev pub fresh_session : String → String → String → ℕ → Session
fresh_session id project scope now = record {
  id = id;
  project = project;
  scope = scope;
  clients = [];
  created_at = now;
  last_activity = now;
  pending_delete_at = none;
}

abbrev pub put_session : Session → List Session → List Session
put_session s sessions = upsert_key session_key s (λ _. s) sessions

abbrev pub or_create : Option Session → String → ℕ → String → Manager → Session × Manager
or_create (some s) id now project m = (s, m)
or_create none id now project m =
    let s = fresh_session id project "" now in
    (s, record m { sessions = put_session s m.sessions; projects = put project id m.projects })

-- `createSessionLocked`, which `CreateSession` and `GetOrCreateSession` call.
unfoldable pub create_session : String → ℕ → String → Manager → Session × Manager
create_session id now project m =
    or_create (lookup (find_key entry_key project m.projects) m.sessions) id now project m

unfoldable pub scoped_session_key : String → String → String
scoped_session_key project scope = project ^^ ("\0" ^^ scope)

abbrev pub touched : ℕ → Session → Session
touched now s = record s { last_activity = now }

abbrev pub or_create_scoped :
    Option Session → String → ℕ → String → String → Manager → Session × Manager
or_create_scoped (some s) id now project scope m = (
  touched now s,
  record m { sessions = update_key session_key s.id (λ _. true) (touched now) m.sessions },
)
or_create_scoped none id now project scope m =
    let s = fresh_session id project scope now in
    (
      s,
      record m {
        sessions = put_session s m.sessions;
        scopes = put (scoped_session_key project scope) id m.scopes;
      },
    )

unfoldable pub get_or_create_scoped_session :
    String → ℕ → String → String → Manager → Session × Manager
get_or_create_scoped_session id now project scope m =
    or_create_scoped
      (lookup (find_key entry_key (scoped_session_key project scope) m.scopes) m.sessions) id now
      project scope m

-- A copy of what describes the session.
abbrev snapshot : Session → Session
snapshot s = record s { clients = []; pending_delete_at = none }

unfoldable pub get_session : String → Manager → Option Session
get_session id m = elim (find_key session_key id m.sessions) [
  | none ↦ none
  | some s ↦ some (snapshot s)
]

abbrev pub joined : String → String → ℕ → Session → Session
joined client_id client_type now s =
    let c : ClientInfo = record {
      client_id = client_id;
      client_type = client_type;
      joined_at = now;
    } in
    record s {
      clients = upsert_key client_key c (λ _. c) s.clients;
      last_activity = now;
      pending_delete_at = none;
    }

unfoldable pub join_session : String → String → String → ℕ → Manager → Manager
join_session id client_id client_type now m = record m {
  sessions = update_key session_key id (λ _. true) (joined client_id client_type now) m.sessions;
}

abbrev pub without : String → List ClientInfo → List ClientInfo
without client_id clients = keep_if (λ c. not (str_eq c.client_id client_id)) clients

abbrev pub left : String → ℕ → Session → Session
left client_id now s =
    let clients = without client_id s.clients in
    record s {
      clients = clients;
      last_activity = now;
      pending_delete_at =
          if is_empty clients
          then (if not (str_eq s.scope "") then none else some (now + session_pending_delete_delay))
          else s.pending_delete_at;
    }

unfoldable pub leave_session : String → String → ℕ → Manager → Manager
leave_session id client_id now m = record m {
  sessions = update_key session_key id (λ _. true) (left client_id now) m.sessions;
}

unfoldable pub get_session_by_project : String → Manager → Option Session
get_session_by_project project m = lookup (find_key entry_key project m.projects) m.sessions

unfoldable pub get_session_by_id : String → Manager → Option Session
get_session_by_id id m = find_key session_key id m.sessions

-- `RemoveSession`
abbrev pub forget_found : Option Session → String → Manager → Manager
forget_found none id m = m
forget_found (some _) id m = forget id m

unfoldable pub remove_session : String → Manager → Manager
unfolding forget
remove_session id m = forget_found (find_key session_key id m.sessions) id m
