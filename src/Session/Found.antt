-- ===== src/Session/Found.antt =====
-- The session that a project or a scope is given is found under it, and is its own
-- (backend/internal/session/manager.go).
use serein.Base.{
  ℕ, ◌≡◌, refl, sym, ◌∙◌, subst, true, Option, none, some, String, List, str_eq, eq_iff, All, arith,
  Option-cases, inl, inr,
}
use mathlib.Core.Option.{some-injective}
use serein.Base.Table.{update_key, find_key, find_key-append, key-find_key}
use serein.Base.Rows.{find_key-update, upsert_key_new, All-find_key}
use serein.Session.Manager.{
  Session, Manager, session_key, entry_key, lookup, put, put_session, fresh_session, touched,
  scoped_session_key, create_session, get_or_create_scoped_session,
}
use serein.Session.Consistent.{IsConsistent, IsLive, project_of, scoped_key, lookup-free}
use serein.Session.Run.{is_unused, unused}

-- What a key gives has the key.
lookup_same :
    (sessions : List Session) (key : Session → String) (entries : List (String × String))
    (k : String) (s : Session)
    → All (IsLive sessions key) entries
    → lookup (find_key entry_key k entries) sessions ≡ some s
    → key s ≡ k
lookup_same sessions key entries k s live h = elim (Option-cases (find_key entry_key k entries)) [
  | inl e ↦ let h' : lookup none sessions ≡ some s = rw e at h in absurd (ground (arith, h'))
  | inr (e, found) ↦
      let (t, there, same) = All-find_key entry_key (IsLive sessions key) k entries e live found in
      let h' : find_key session_key e.1 sessions ≡ some s = rw found at h in
      let p : t ≡ s = some-injective t s (sym there ∙ h') in
      subst (λ r. key r ≡ k) p (same ∙ key-find_key entry_key k entries e found)
]

-- A session that was changed is still what its key gives.
lookup-touched :
    (now : ℕ) (sessions : List Session) (o : Option (String × String)) (s : Session)
    → lookup o sessions ≡ some s
    → lookup o (update_key session_key s.id (λ _. true) (touched now) sessions)
      ≡ some (touched now s)
lookup-touched now sessions none s h = absurd (ground (arith, h))
lookup-touched now sessions (some (k, sid)) s h =
    let p : s.id ≡ sid = key-find_key session_key sid sessions s h in
    let b : str_eq s.id sid ≡ true = ground (arith, eq_iff s.id sid) in
    let found = find_key-update session_key s.id sid (touched now) sessions s (λ _. refl) h in
    rw b at found

module _ (sid : String) (now : ℕ) (m : Manager) (new : is_unused sid m ≡ true)
    (i : IsConsistent m) where
  -- A fresh session is found under the key that it was put under.
  put_found :
      (s : Session) (k : String) (entries : List (String × String))
      → find_key session_key s.id m.sessions ≡ none
      → find_key entry_key k entries ≡ none
      → lookup (find_key entry_key k (put k s.id entries)) (put_session s m.sessions) ≡ some s
  put_found s k entries unknown free =
      rw
        (
          upsert_key_new session_key s (λ _. s) m.sessions unknown,
          upsert_key_new entry_key (k, s.id) (λ _. (k, s.id)) entries free,
          find_key-append entry_key k entries (k, s.id) free refl,
        )
        (find_key-append session_key s.id m.sessions s unknown refl)

  -- The session that is given for a project is the one under it, and has it.
  pub create_session_found :
      (project : String)
      → let out = create_session sid now project m in
        (lookup (find_key entry_key project out.1.projects) out.1.sessions ≡ some out.0)
        × (out.0.project ≡ project)
  unfolding create_session
  create_session_found project =
      elim (Option-cases (lookup (find_key entry_key project m.projects) m.sessions)) [
        | inl e ↦ rw e (
          put_found (fresh_session sid project "" now) project m.projects (unused sid m new)
              (lookup-free m.sessions project_of m.projects project i.projects_live e),
          refl,
        )
        | inr (s, e) ↦
            rw (e, e)
              (refl, lookup_same m.sessions project_of m.projects project s i.projects_live e)
      ]

  -- The same for a scope in a project.
  pub get_or_create_scoped_session_found :
      (project scope : String)
      → let out = get_or_create_scoped_session sid now project scope m in
        (lookup (find_key entry_key (scoped_session_key project scope) out.1.scopes) out.1.sessions
          ≡ some out.0)
        × (scoped_key out.0 ≡ scoped_session_key project scope)
  unfolding get_or_create_scoped_session
  get_or_create_scoped_session_found project scope =
      let key = scoped_session_key project scope in
      elim (Option-cases (lookup (find_key entry_key key m.scopes) m.sessions)) [
        | inl e ↦ rw e (
          put_found (fresh_session sid project scope now) key m.scopes (unused sid m new)
              (lookup-free m.sessions scoped_key m.scopes key i.scopes_live e),
          refl,
        )
        | inr (s, e) ↦ rw e (
          lookup-touched now m.sessions (find_key entry_key key m.scopes) s e,
          lookup_same m.sessions scoped_key m.scopes key s i.scopes_live e,
        )
      ]
