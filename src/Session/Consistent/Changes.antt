-- ===== src/Session/Consistent/Changes.antt =====
-- Changes and deletions of sessions keep the maps of backend/internal/session/manager.go consistent.
use serein.Base.{
  ◌≡◌, refl, sym, ◌∙◌, subst, inl, inr, Bool, true, not, String, List, str_eq, keep_if, All,
  All-map, All-both, All-keep_if, All-keep_if_self, Bool-cases,
}
use serein.Base.Table.{update_key, key-find_key}
use serein.Base.Rows.{find_key-update, All-update, find_key-keep_if_kept}
use serein.Session.Manager.{Session, Manager, session_key, entry_key, forget}
use serein.Session.Consistent.{IsLive, IsFound, IsConsistent, project_of, scoped_key}

-- A change of a session that keeps what its keys are made of.
pub record Keeps (f : Session → Session) : Type 0 where
  pub same_id : (s : Session) → (f s).id ≡ s.id
  pub same_project : (s : Session) → (f s).project ≡ s.project
  pub same_scope : (s : Session) → (f s).scope ≡ s.scope

module _ (f : Session → Session) (keep : Keeps f) (id : String) (sessions : List Session) where
  IsLive-update :
      (key : Session → String)
      → ((s : Session) → key (f s) ≡ key s)
      → (entries : List (String × String)) → All (IsLive sessions key) entries
      → All (IsLive (update_key session_key id (λ _. true) f sessions) key) entries
  IsLive-update key same entries =
      All-map (IsLive sessions key) (IsLive (update_key session_key id (λ _. true) f sessions) key)
        (λ e (s, found, k).
          let f' = find_key-update session_key id e.1 f sessions s keep.same_id found in
          elim (Bool-cases (str_eq id e.1)) [
            | inl here ↦ (f s, rw here at f', same s ∙ k)
            | inr there ↦ (s, rw there at f', k)
          ])
        entries

  IsFound-update :
      (projects scopes : List (String × String))
      → All (IsFound projects scopes) sessions
      → All (IsFound projects scopes) (update_key session_key id (λ _. true) f sessions)
  IsFound-update projects scopes =
      All-update session_key (IsFound projects scopes) id (λ _. true) f sessions
        (λ s _ _ h. rw (keep.same_id s, keep.same_project s, keep.same_scope s) h)

pub update-IsConsistent :
    (f : Session → Session)
    → Keeps f
    → (id : String) (m : Manager) → IsConsistent m
    → IsConsistent (record m { sessions = update_key session_key id (λ _. true) f m.sessions })
update-IsConsistent f keep id m i = record {
  projects_live =
      IsLive-update f keep id m.sessions project_of keep.same_project m.projects i.projects_live;
  scopes_live =
      IsLive-update f keep id m.sessions scoped_key
        (λ s. rw (keep.same_project s, keep.same_scope s) refl) m.scopes i.scopes_live;
  all_found = IsFound-update f keep id m.sessions m.projects m.scopes i.all_found;
}

-- The entries that name another session, after a session is forgotten.
IsLive-forget :
    (id : String) (sessions : List Session) (key : Session → String)
    (entries : List (String × String))
    → All (IsLive sessions key) entries
    → All
        (IsLive (keep_if (λ s. not (str_eq s.id id)) sessions) key)
        (keep_if (λ e. not (str_eq e.1 id)) entries)
IsLive-forget id sessions key entries live =
    let other : String × String → Bool = λ e. not (str_eq e.1 id) in
    let kept = keep_if other entries in
    All-map (λ e. IsLive sessions key e × (other e ≡ true)) _
      (λ e ((s, found, k), ne). (
        s,
        find_key-keep_if_kept session_key e.1 (λ s. not (str_eq s.id id)) sessions s found
            (subst (λ j. not (str_eq j id) ≡ true)
              (sym (key-find_key session_key e.1 sessions s found)) ne),
        k,
      ))
      kept
      (All-both (IsLive sessions key) (λ e. other e ≡ true) kept
        (All-keep_if (IsLive sessions key) other entries live) (All-keep_if_self other entries))

IsFound-forget :
    (id : String) (projects scopes : List (String × String)) (sessions : List Session)
    → All (IsFound projects scopes) sessions
    → All
        (IsFound
          (keep_if (λ e. not (str_eq e.1 id)) projects)
          (keep_if (λ e. not (str_eq e.1 id)) scopes))
        (keep_if (λ s. not (str_eq s.id id)) sessions)
IsFound-forget id projects scopes sessions found =
    let other : Session → Bool = λ s. not (str_eq s.id id) in
    let kept = keep_if other sessions in
    All-map (λ s. IsFound projects scopes s × (other s ≡ true)) _
      (λ s (h, ne). elim h [
        | inl p ↦ inl (find_key-keep_if_kept entry_key s.project _ projects _ p ne)
        | inr p ↦ inr (find_key-keep_if_kept entry_key (scoped_key s) _ scopes _ p ne)
      ])
      kept
      (All-both (IsFound projects scopes) (λ s. other s ≡ true) kept
        (All-keep_if (IsFound projects scopes) other sessions found)
        (All-keep_if_self other sessions))

pub forget-IsConsistent : (id : String) (m : Manager) → IsConsistent m → IsConsistent (forget id m)
unfolding forget
forget-IsConsistent id m i = record {
  projects_live = IsLive-forget id m.sessions project_of m.projects i.projects_live;
  scopes_live = IsLive-forget id m.sessions scoped_key m.scopes i.scopes_live;
  all_found = IsFound-forget id m.projects m.scopes m.sessions i.all_found;
}
