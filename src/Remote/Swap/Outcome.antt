-- ===== src/Remote/Swap/Outcome.antt =====
-- How a compare-and-swap on a session (backend/internal/remote/repository.go) may end.
use serein.Base.{
  ℕ, zero, suc, ◌≡◌, refl, ◌∙◌, subst, Bool, true, false, ◌==◌, ◌||◌, none, some, String, List, ℤ,
  pos, negsuc, arith, if◌then◌else◌, str_eq, eq_iff, Option-cases, Bool-cases, inl, inr, ◌⊎◌,
}
use serein.Base.Table.{find_key, update_key, find_key-update_self, find_key-update_ne}
use serein.Remote.Model.{
  Session, SessionState, allows, state_eq, waiting_primary, waiting_consent, is_terminal_state,
  connected_view, connected_control,
}
use serein.Remote.World.{Env, World, Result, ok, err, conflict, not_found}
use serein.Remote.Repository.{
  session_key, transition_session, approve_primary_session, is_stale, Change, moved, approved,
  or_current,
}
use serein.Remote.Swap.{
  transition_session_lem, approve_primary_session_lem, transition_session_missing,
  approve_primary_session_missing,
}

-- The revision that a caller expects: a positive one has to be that of the session.
pub data Agrees (revision : ℕ) : ℤ → Type 0 where
  unasked : Agrees revision (pos 0)
  negative : (n : ℕ) → Agrees revision (negsuc n)
  same : Agrees revision (pos revision)

pub data Differs (revision : ℕ) : ℤ → Type 0 where
  other : (n : ℕ) → (revision == suc n) ≡ false → Differs revision (pos (suc n))

-- The ends of a swap of the session `id` in the world `w`: of a session that is `ready`, what it becomes
-- is given by `Becomes`.
pub data Swap (id : String) (expected : ℤ) (ready : Session → Bool)
    (Becomes : Session → Session → Type 0) (w : World) : Result Session × World → Type 0 where
  missing :
      find_key session_key id w.sessions ≡ none
      → Swap id expected ready Becomes w (err not_found, w)
  refused :
      (s : Session)
      → find_key session_key id w.sessions ≡ some s
      → Differs s.revision expected ⊎ (ready s ≡ false)
      → Swap id expected ready Becomes w (err conflict, w)
  swapped :
      (s t : Session) (sessions : List Session)
      → find_key session_key id w.sessions ≡ some s
      → Agrees s.revision expected
      → ready s ≡ true
      → Becomes s t
      → ((j : String)
          → find_key session_key j sessions
            ≡ (if str_eq id j then some t else find_key session_key j w.sessions))
      → Swap id expected ready Becomes w (ok t, record w { sessions = sessions })

-- What a change makes of a session.
pub record Changed (c : Change) (now : ℕ) (s t : Session) : Type 0 where
  pub new_state : t.state ≡ c.next_state
  pub new_revision : t.revision ≡ suc s.revision
  pub new_reason : t.end_reason ≡ c.end_reason
  pub new_time : t.updated_at ≡ now
  pub granted : t.granted_capabilities ≡ or_current c.granted s.granted_capabilities
  pub transport :
      t.transport_type ≡ (if str_eq c.transport "" then s.transport_type else c.transport)
  pub ended : t.ended_at ≡ (if is_terminal_state t.state then some now else s.ended_at)
  pub started : t.started_at ≡ (
      if state_eq t.state connected_view || state_eq t.state connected_control
      then some (or_current s.started_at now)
      else s.started_at)
  pub same_id : t.id ≡ s.id
  pub same_host : t.host_id ≡ s.host_id
  pub same_controller : t.controller_device_id ≡ s.controller_device_id
  pub same_kind : t.controller_is_primary ≡ s.controller_is_primary
  pub same_approval : t.primary_approved ≡ s.primary_approved
  pub same_request : t.requested_capabilities ≡ s.requested_capabilities
  pub same_start : t.requested_at ≡ s.requested_at

-- What the approval of the primary phone makes of a session.
pub record Approved (now : ℕ) (s t : Session) : Type 0 where
  pub now_approved : t.primary_approved ≡ true
  pub waits_for_host : t.state ≡ waiting_consent
  pub new_revision : t.revision ≡ suc s.revision
  pub new_time : t.updated_at ≡ now
  pub rest_same :
      record t {
        primary_approved = s.primary_approved;
        state = s.state;
        revision = s.revision;
        updated_at = s.updated_at;
      }
      ≡ s

fresh-Agrees : (expected : ℤ) (r : ℕ) → is_stale expected r ≡ false → Agrees r expected
fresh-Agrees (pos zero) r h = unasked
fresh-Agrees (negsuc n) r h = negative n
fresh-Agrees (pos (suc n)) r h =
    let p : r ≡ suc n = ground arith in subst (λ k. Agrees r (pos k)) p same

stale-Differs : (expected : ℤ) (r : ℕ) → is_stale expected r ≡ true → Differs r expected
stale-Differs (pos zero) r h = absurd (ground (arith, h))
stale-Differs (negsuc n) r h = absurd (ground (arith, h))
stale-Differs (pos (suc n)) r h = other n (ground (arith, h))

module _ (id : String) (s : Session) (f : Session → Session) (sessions : List Session)
    (stored : find_key session_key id sessions ≡ some s)
    (same : (r : Session) → (f r).id ≡ r.id) where
  -- The update of the row that was read, seen at every id.
  update_read :
      (j : String)
      → find_key session_key j
          (update_key session_key id (λ r. r.revision == s.revision) f sessions)
        ≡ (if str_eq id j then some (f s) else find_key session_key j sessions)
  update_read j = elim (Bool-cases (str_eq id j)) [
    | inl e ↦
        let p : id ≡ j = ground (arith, eq_iff id j) in
        rw e (
          subst
            (λ k.
              find_key session_key k
                (update_key session_key id (λ r. r.revision == s.revision) f sessions)
              ≡ some (f s))
            p
            (find_key-update_self session_key id (λ r. r.revision == s.revision) f sessions s stored
                (same s)
              ∙ ground arith))
    | inr e ↦ rw e (
        find_key-update_ne session_key id j (λ r. r.revision == s.revision) f sessions
          (λ p. ground (arith, eq_iff id j, e, p)) same)
  ]

moved-Changed : (c : Change) (now : ℕ) (s : Session) → Changed c now s (moved c now s)
unfolding moved
moved-Changed c now s = record {
  new_state = refl;
  new_revision = omega arith;
  new_reason = refl;
  new_time = refl;
  granted = refl;
  transport = refl;
  ended = refl;
  started = refl;
  same_id = refl;
  same_host = refl;
  same_controller = refl;
  same_kind = refl;
  same_approval = refl;
  same_request = refl;
  same_start = refl;
}

-- The compare-and-swap ends in one of three ways. The session is not there; or the revision that is
-- expected, a positive one, is not the session's, or its state is not an allowed one, which is a
-- conflict; and in both cases nothing changes. Or the session is changed: its state, end reason and time
-- are the new ones, its revision is the next, its granted capabilities and transport are the new ones
-- where there are such, a terminal state gives it its end and the first connected one its start, and
-- all its other fields are as before; it is returned, and no other session and nothing else in the world
-- changes.
pub transition_session-Swap :
    (id : String) (expected : ℤ) (allowed : List SessionState) (c : Change) (now : ℕ) (e : Env)
    (w : World)
    → Swap id expected
        (λ s. allows allowed s.state)
        (Changed c now)
        w
        (transition_session id expected allowed c now e w)
transition_session-Swap id expected allowed c now e w =
    elim (Option-cases (find_key session_key id w.sessions)) [
      | inl gone ↦ rw (transition_session_missing id expected allowed c now e w gone) (missing gone)
      | inr (s, stored) ↦
          let does = transition_session_lem id expected allowed c now e w s stored in
          elim (Bool-cases (is_stale expected s.revision)) [
            | inl stale ↦
                rw (does, stale) (refused s stored (inl (stale-Differs expected s.revision stale)))
            | inr fresh ↦ elim (Bool-cases (allows allowed s.state)) [
              | inr bad ↦ rw (does, fresh, bad) (refused s stored (inr bad))
              | inl good ↦
                  rw (does, fresh, good)
                    (swapped s (moved c now s) _ stored (fresh-Agrees expected s.revision fresh)
                      good (moved-Changed c now s)
                      (update_read id s (moved c now) w.sessions stored
                        (λ r. (moved-Changed c now r).same_id)))
            ]
          ]
    ]

-- The approval by the primary phone ends in one of three ways. The session is not there; or the revision
-- that is expected, a positive one, is not the session's, or the session does not wait for the primary,
-- which is a conflict; and in both cases nothing changes. Or the session is approved, however old its
-- request is: it waits for the host's consent, its revision is the next and its time the new one, and
-- every other field of it is as before; it is returned, and no other session and nothing else in the
-- world changes.
pub approve_primary_session-Swap :
    (id : String) (expected : ℤ) (now : ℕ) (e : Env) (w : World)
    → Swap id expected
        (λ s. state_eq s.state waiting_primary)
        (Approved now)
        w
        (approve_primary_session id expected now e w)
approve_primary_session-Swap id expected now e w =
    elim (Option-cases (find_key session_key id w.sessions)) [
      | inl gone ↦ rw (approve_primary_session_missing id expected now e w gone) (missing gone)
      | inr (s, stored) ↦
          let does = approve_primary_session_lem id expected now e w s stored in
          elim (Bool-cases (is_stale expected s.revision)) [
            | inl stale ↦
                rw (does, stale) (refused s stored (inl (stale-Differs expected s.revision stale)))
            | inr fresh ↦ elim (Bool-cases (state_eq s.state waiting_primary)) [
              | inr bad ↦ rw (does, fresh, bad) (refused s stored (inr bad))
              | inl good ↦
                  rw (does, fresh, good)
                    (swapped s (approved now s) _ stored (fresh-Agrees expected s.revision fresh)
                      good
                      (record {
                        now_approved = refl;
                        waits_for_host = refl;
                        new_revision = omega arith;
                        new_time = refl;
                        rest_same = refl;
                      })
                      (update_read id s (approved now) w.sessions stored (λ _. refl)))
            ]
          ]
    ]
