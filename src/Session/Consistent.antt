-- ===== src/Session/Consistent.antt =====
-- The maps of backend/internal/session/manager.go name live sessions, and each session can be found: every
-- operation keeps them so.
pub mod Changes
use serein.Base.{
  ℕ, ◌≡◌, ◌≢◌, refl, sym, ◌∙◌, ap, subst, ◌⊎◌, inl, inr, Bool, true, false, not, Option, none, some,
  String, List, [], ◌∷◌, ◌++◌, str_eq, eq_iff, arith, if◌then◌else◌, keep_if, All, All-map,
  All-append, All-both, All-keep_if, All-keep_if_self, Bool-cases, Option-cases,
}
use serein.Base.Table.{
  find_key, update_key, upsert_key, key-find_key, find_key-append, find_key-update_self,
  find_key-update_ne,
}
use serein.Base.Rows.{
  All-update, find_key-append_old, find_key-keep_if_kept, upsert_key_new, All-find_key,
}
use serein.Session.Manager.{
  Session, Manager, ClientInfo, session_key, entry_key, is_expired, forget, cleanup_all, cleanup,
  lookup, put, fresh_session, put_session, or_create, create_session, scoped_session_key, touched,
  or_create_scoped, get_or_create_scoped_session, joined, join_session, left, leave_session,
  remove_session,
}

-- An entry of `projects`, and of `scopes`, names a live session of that key.
abbrev pub IsLive : List Session → (Session → String) → String × String → Type 0
IsLive sessions key e = (s : Session) × (find_key session_key e.1 sessions ≡ some s) × (key s ≡ e.0)

abbrev pub project_of : Session → String
project_of s = s.project

abbrev pub scoped_key : Session → String
scoped_key s = scoped_session_key s.project s.scope

-- A session is the one that its project or its scope gives.
abbrev pub IsFound : List (String × String) → List (String × String) → Session → Type 0
IsFound projects scopes s =
    (find_key entry_key s.project projects ≡ some (s.project, s.id))
    ⊎ (find_key entry_key (scoped_key s) scopes ≡ some (scoped_key s, s.id))

pub record IsConsistent (m : Manager) : Type 0 where
  pub projects_live : All (IsLive m.sessions project_of) m.projects
  pub scopes_live : All (IsLive m.sessions scoped_key) m.scopes
  pub all_found : All (IsFound m.projects m.scopes) m.sessions

-- Live entries stay live when a session is added.
IsLive-append :
    (sessions : List Session) (new : Session) (key : Session → String)
    (entries : List (String × String))
    → All (IsLive sessions key) entries
    → All (IsLive (sessions ++ new ∷ []) key) entries
IsLive-append sessions new key entries =
    All-map (IsLive sessions key) (IsLive (sessions ++ new ∷ []) key)
      (λ e (s, found, same).
        (s, find_key-append_old session_key e.1 sessions (new ∷ []) s found, same))
      entries

append-[] : {A : Type 0} (xs : List A) → xs ++ [] ≡ xs
append-[] [] = refl
append-[] (x ∷ xs) = ap (λ t. x ∷ t) (append-[] xs)

-- Found sessions stay found when an entry is added.
IsFound-append :
    (projects scopes more others : List (String × String)) (sessions : List Session)
    → All (IsFound projects scopes) sessions
    → All (IsFound (projects ++ more) (scopes ++ others)) sessions
IsFound-append projects scopes more others sessions =
    All-map (IsFound projects scopes) (IsFound (projects ++ more) (scopes ++ others))
      (λ s h. elim h [
        | inl p ↦ inl (find_key-append_old entry_key s.project projects more _ p)
        | inr p ↦ inr (find_key-append_old entry_key (scoped_key s) scopes others _ p)
      ])
      sessions

-- A fresh session under its project, or under its scope.
pub add_project :
    (m : Manager) (s : Session)
    → find_key session_key s.id m.sessions ≡ none
    → find_key entry_key s.project m.projects ≡ none
    → IsConsistent m
    → IsConsistent
        (record m { sessions = put_session s m.sessions; projects = put s.project s.id m.projects })
add_project m s new free i =
    rw
      (
        upsert_key_new session_key s (λ _. s) m.sessions new,
        upsert_key_new entry_key (s.project, s.id) (λ _. (s.project, s.id)) m.projects free,
      )
      (record {
        projects_live =
            All-append (IsLive (m.sessions ++ s ∷ []) project_of) m.projects
              ((s.project, s.id) ∷ [])
              (IsLive-append m.sessions s project_of m.projects i.projects_live)
              ((s, find_key-append session_key s.id m.sessions s new refl, refl), tt);
        scopes_live = IsLive-append m.sessions s scoped_key m.scopes i.scopes_live;
        all_found =
            All-append (IsFound (m.projects ++ (s.project, s.id) ∷ []) m.scopes) m.sessions (s ∷ [])
              (subst (λ t. All (IsFound (m.projects ++ (s.project, s.id) ∷ []) t) m.sessions)
                (append-[] m.scopes)
                (IsFound-append m.projects m.scopes ((s.project, s.id) ∷ []) [] m.sessions
                  i.all_found))
              (
                inl (find_key-append entry_key s.project m.projects (s.project, s.id) free refl),
                tt,
              );
      })

pub add_scope :
    (m : Manager) (s : Session)
    → find_key session_key s.id m.sessions ≡ none
    → find_key entry_key (scoped_key s) m.scopes ≡ none
    → IsConsistent m
    → IsConsistent (record m {
      sessions = put_session s m.sessions;
      scopes = put (scoped_key s) s.id m.scopes;
    })
add_scope m s new free i =
    let e : String × String = (scoped_key s, s.id) in
    rw
      (
        upsert_key_new session_key s (λ _. s) m.sessions new,
        upsert_key_new entry_key e (λ _. e) m.scopes free,
      )
      (record {
        projects_live = IsLive-append m.sessions s project_of m.projects i.projects_live;
        scopes_live =
            All-append (IsLive (m.sessions ++ s ∷ []) scoped_key) m.scopes (e ∷ [])
              (IsLive-append m.sessions s scoped_key m.scopes i.scopes_live)
              ((s, find_key-append session_key s.id m.sessions s new refl, refl), tt);
        all_found =
            All-append (IsFound m.projects (m.scopes ++ e ∷ [])) m.sessions (s ∷ [])
              (subst (λ t. All (IsFound t (m.scopes ++ e ∷ [])) m.sessions) (append-[] m.projects)
                (IsFound-append m.projects m.scopes [] (e ∷ []) m.sessions i.all_found))
              (inr (find_key-append entry_key (scoped_key s) m.scopes e free refl), tt);
      })

-- A key that gives no session has no entry.
pub lookup-free :
    (sessions : List Session) (key : Session → String) (entries : List (String × String))
    (k : String)
    → All (IsLive sessions key) entries
    → lookup (find_key entry_key k entries) sessions ≡ none
    → find_key entry_key k entries ≡ none
lookup-free sessions key entries k live h = elim (Option-cases (find_key entry_key k entries)) [
  | inl e ↦ e
  | inr (e, found) ↦
      let (s, there, _) = All-find_key entry_key (IsLive sessions key) k entries e live found in
      let gone : find_key session_key e.1 sessions ≡ none = rw found at h in
      absurd (ground (arith, there, gone))
]
