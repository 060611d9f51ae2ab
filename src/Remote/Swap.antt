-- ===== src/Remote/Swap.antt =====
-- The compare-and-swap of TransitionSession and ApprovePrimarySession
-- (backend/internal/remote/repository.go).
pub mod Outcome
use serein.Base.{
  ℕ, suc, ◌+◌, ◌≡◌, refl, true, false, not, ◌==◌, none, some, String, List, ℤ, pos, arith, ◌∙◌,
  if◌then◌else◌, ◌||◌, Option-cases, inl, inr,
}
use serein.Base.Table.{find_key, update_key, find_key-update_self}
use serein.Remote.Model.{Session, SessionState, allows, state_eq, waiting_primary}
use serein.Remote.World.{Env, World, ok, err, conflict, not_found, ◌>>=◌}
use serein.Remote.Repository.{
  session_key, get_session, transition_session, approve_primary_session, is_stale, Change, moved,
  approved,
}

moved-id : (c : Change) (now : ℕ) (s : Session) → (moved c now s).id ≡ s.id
unfolding moved
moved-id c now s = refl

module _ (id : String) (expected : ℤ) (allowed : List SessionState) (c : Change) (now : ℕ) (e : Env)
    (w : World) (s : Session) (stored : find_key session_key id w.sessions ≡ some s) where
  -- What the swap does with a stored session: it is refused with a conflict, and nothing changes,
  -- if the revision that the caller expects is stale or the state is not allowed; otherwise the row
  -- becomes `moved c now s`, which is returned, and nothing else changes.
  pub transition_session_lem : transition_session id expected allowed c now e w ≡ (
      if is_stale expected s.revision || not (allows allowed s.state) then (err conflict, w) else (
        ok (moved c now s),
        record w {
          sessions =
              update_key session_key id (λ r. r.revision == s.revision) (moved c now) w.sessions;
        },
      ))
  unfolding transition_session get_session ◌>>=◌
  transition_session_lem = ground (
    arith,
    stored,
    find_key-update_self session_key id (λ r. r.revision == s.revision) (moved c now) w.sessions s
        stored (moved-id c now s),
  )

-- What the approval of the primary phone does with a stored session: it is refused with a conflict,
-- and nothing changes, if the revision that the caller expects is stale or the session does not wait
-- for the primary; otherwise the row becomes `approved now s`, which is returned, and nothing else
-- changes, however old the request is.
pub approve_primary_session_lem :
    (id : String) (expected : ℤ) (now : ℕ) (e : Env) (w : World) (s : Session)
    → find_key session_key id w.sessions ≡ some s
    → approve_primary_session id expected now e w ≡ (
        if is_stale expected s.revision || not (state_eq s.state waiting_primary)
        then (err conflict, w)
        else (
          ok (approved now s),
          record w {
            sessions =
                update_key session_key id (λ r. r.revision == s.revision) (approved now) w.sessions;
          },
        ))
unfolding approve_primary_session get_session ◌>>=◌
approve_primary_session_lem id expected now e w s stored = ground (
  arith,
  stored,
  find_key-update_self session_key id (λ r. r.revision == s.revision) (approved now) w.sessions s
      stored refl,
)

pub approve_primary_session_missing :
    (id : String) (expected : ℤ) (now : ℕ) (e : Env) (w : World)
    → find_key session_key id w.sessions ≡ none
    → approve_primary_session id expected now e w ≡ (err not_found, w)
unfolding approve_primary_session get_session ◌>>=◌
approve_primary_session_missing id expected now e w h = ground (arith, h)

pub transition_session_missing :
    (id : String) (expected : ℤ) (allowed : List SessionState) (c : Change) (now : ℕ) (e : Env)
    (w : World)
    → find_key session_key id w.sessions ≡ none
    → transition_session id expected allowed c now e w ≡ (err not_found, w)
unfolding transition_session get_session ◌>>=◌
transition_session_missing id expected allowed c now e w h = ground (arith, h)

moved-revision : (c : Change) (now : ℕ) (s : Session) → (moved c now s).revision ≡ s.revision + 1
unfolding moved
moved-revision c now s = refl

is_stale_next : (n r : ℕ) → is_stale (pos (suc n)) r ≡ false → is_stale (pos (suc n)) (r + 1) ≡ true
is_stale_next n r h = ground arith

module _ (id : String) (n : ℕ) (allowed allowed' : List SessionState) (c c' : Change) (now now' : ℕ)
    (e e' : Env) (w w' : World) (t : Session)
    (won : transition_session id (pos (suc n)) allowed c now e w ≡ (ok t, w')) where
  swapped :
      (s : Session)
      → find_key session_key id w.sessions ≡ some s
      → (find_key session_key id w'.sessions ≡ some (moved c now s))
        × (is_stale (pos (suc n)) s.revision ≡ false)
  swapped s stored = ground (
    arith,
    transition_session_lem id (pos (suc n)) allowed c now e w s stored,
    find_key-update_self session_key id (λ r. r.revision == s.revision) (moved c now) w.sessions s
        stored (moved-id c now s),
  )

  -- Of two callers that expect the same (positive) revision of a session, at most one wins: after a
  -- swap that succeeded, one that expects the same revision is refused with a conflict and changes
  -- nothing, whatever states it allows and whatever it wants to write.
  pub transition_once :
      transition_session id (pos (suc n)) allowed' c' now' e' w' ≡ (err conflict, w')
  transition_once = elim (Option-cases (find_key session_key id w.sessions)) [
    | inl missing ↦ cc (transition_session_missing id (pos (suc n)) allowed c now e w missing, won)
    | inr (s, stored) ↦
        let (found, fresh) = swapped s stored in
        transition_session_lem id (pos (suc n)) allowed' c' now' e' w' (moved c now s) found
        ∙ rw (moved-revision c now s, is_stale_next n s.revision fresh)
  ]
