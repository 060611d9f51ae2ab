-- ===== src/Session/Run.antt =====
-- Sequences of calls on the sessions of backend/internal/session/manager.go; after any of them the maps
-- are consistent.
pub mod Cleanup
pub mod Members
use serein.Base.{
  ℕ, ◌≡◌, refl, Bool, true, false, not, ◌&&◌, Option, none, some, String, List, [], ◌∷◌, arith,
  Option-cases, Bool-cases, inl, inr, if◌then◌else◌, map,
}
use serein.Base.Table.{find_key}
use serein.Session.Manager.{
  cleanup_one, Session, Manager, session_key, entry_key, cleanup_all, cleanup, is_expired, forget,
  lookup, or_create, fresh_session, create_session, scoped_session_key, or_create_scoped,
  get_or_create_scoped_session, touched, joined, left, join_session, leave_session, remove_session,
}
use serein.Session.Consistent.{
  IsConsistent, add_project, add_scope, lookup-free, project_of, scoped_key,
}
use serein.Session.Consistent.Changes.{Keeps, update-IsConsistent, forget-IsConsistent}

pub data Call : Type 0 where
  creates : String → ℕ → String → Call
  creates_scoped : String → ℕ → String → String → Call
  joins : String → String → String → ℕ → Call
  leaves : String → String → ℕ → Call
  cleans : ℕ → Call
  removes : String → Call

unfoldable pub perform : Call → Manager → Manager
unfolding create_session get_or_create_scoped_session join_session leave_session cleanup
    remove_session
perform (creates id now project) m = (create_session id now project m).1
perform (creates_scoped id now project scope) m =
    (get_or_create_scoped_session id now project scope m).1
perform (joins id client kind now) m = join_session id client kind now m
perform (leaves id client now) m = leave_session id client now m
perform (cleans now) m = cleanup now m
perform (removes id) m = remove_session id m

unfoldable pub run : List Call → Manager → Manager
run [] m = m
run (c ∷ calls) m = run calls (perform c m)

abbrev pub is_unused : String → Manager → Bool
is_unused id m = elim (find_key session_key id m.sessions) [ none ↦ true | some _ ↦ false ]

-- The random ids are new.
abbrev pub draws_new : Call → Manager → Bool
draws_new (creates id now project) m = is_unused id m
draws_new (creates_scoped id now project scope) m = is_unused id m
draws_new _ m = true

unfoldable pub draw_new : List Call → Manager → Bool
draw_new [] m = true
draw_new (c ∷ calls) m = draws_new c m && draw_new calls (perform c m)

pub unused :
    (id : String) (m : Manager) → is_unused id m ≡ true → find_key session_key id m.sessions ≡ none
unused id m h = ground arith

create-IsConsistent :
    (id : String) (now : ℕ) (project : String) (m : Manager)
    → is_unused id m ≡ true
    → IsConsistent m
    → IsConsistent (create_session id now project m).1
unfolding create_session
create-IsConsistent id now project m new i =
    elim (Option-cases (lookup (find_key entry_key project m.projects) m.sessions)) [
      | inl e ↦ rw e (
          add_project m (fresh_session id project "" now) (unused id m new)
            (lookup-free m.sessions project_of m.projects project i.projects_live e) i)
      | inr (s, e) ↦ rw e i
    ]

touched-Keeps : (now : ℕ) → Keeps (touched now)
touched-Keeps now = record { same_id = λ _. refl; same_project = λ _. refl; same_scope = λ _. refl }

create_scoped-IsConsistent :
    (id : String) (now : ℕ) (project scope : String) (m : Manager)
    → is_unused id m ≡ true
    → IsConsistent m
    → IsConsistent (get_or_create_scoped_session id now project scope m).1
unfolding get_or_create_scoped_session
create_scoped-IsConsistent id now project scope m new i =
    let key = scoped_session_key project scope in
    elim (Option-cases (lookup (find_key entry_key key m.scopes) m.sessions)) [
      | inl e ↦ rw e (
          add_scope m (fresh_session id project scope now) (unused id m new)
            (lookup-free m.sessions scoped_key m.scopes key i.scopes_live e) i)
      | inr (s, e) ↦ rw e (update-IsConsistent (touched now) (touched-Keeps now) s.id m i)
    ]

cleanup_one-IsConsistent :
    (now : ℕ) (found : Option Session) (m : Manager)
    → IsConsistent m
    → IsConsistent (cleanup_one now found m)
cleanup_one-IsConsistent now none m i = i
cleanup_one-IsConsistent now (some s) m i = elim (Bool-cases (is_expired now s)) [
  | inl e ↦ rw e (forget-IsConsistent s.id m i)
  | inr e ↦ rw e i
]

cleanup_all-IsConsistent :
    (now : ℕ) (ids : List String) (m : Manager)
    → IsConsistent m
    → IsConsistent (cleanup_all now ids m)
unfolding cleanup_all
cleanup_all-IsConsistent now [] m i = i
cleanup_all-IsConsistent now (id ∷ ids) m i =
    let found = find_key session_key id m.sessions in
    cleanup_all-IsConsistent now ids (cleanup_one now found m)
      (cleanup_one-IsConsistent now found m i)

remove-IsConsistent :
    (id : String) (m : Manager) → IsConsistent m → IsConsistent (remove_session id m)
unfolding remove_session
remove-IsConsistent id m i = elim (Option-cases (find_key session_key id m.sessions)) [
  | inl e ↦ rw e i
  | inr (s, e) ↦ rw e (forget-IsConsistent id m i)
]

perform-IsConsistent :
    (c : Call) (m : Manager) → draws_new c m ≡ true → IsConsistent m → IsConsistent (perform c m)
unfolding perform
perform-IsConsistent (creates id now project) m new i = create-IsConsistent id now project m new i
perform-IsConsistent (creates_scoped id now project scope) m new i =
    create_scoped-IsConsistent id now project scope m new i
perform-IsConsistent (joins id client kind now) m new i =
    update-IsConsistent (joined client kind now)
      (record { same_id = λ _. refl; same_project = λ _. refl; same_scope = λ _. refl }) id m i
perform-IsConsistent (leaves id client now) m new i =
    update-IsConsistent (left client now)
      (record { same_id = λ _. refl; same_project = λ _. refl; same_scope = λ _. refl }) id m i
perform-IsConsistent (cleans now) m new i =
    cleanup_all-IsConsistent now (map session_key m.sessions) m i
perform-IsConsistent (removes id) m new i = remove-IsConsistent id m i

-- After any calls, in any order, whose random ids are new, the maps are consistent if they were so
-- before: each entry of the projects and of the scopes names a live session of that project or scope, and
-- each session is found under its project or under its scope.
pub run-IsConsistent :
    (calls : List Call) (m : Manager)
    → draw_new calls m ≡ true
    → IsConsistent m
    → IsConsistent (run calls m)
unfolding draw_new run
run-IsConsistent [] m new i = i
run-IsConsistent (c ∷ calls) m new i =
    run-IsConsistent calls (perform c m) (ground arith) (perform-IsConsistent c m (ground arith) i)
