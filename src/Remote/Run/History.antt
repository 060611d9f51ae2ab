-- ===== src/Remote/Run/History.antt =====
-- What a stored session keeps through any calls.
use serein.Base.{◌+◌, ◌≤◌, ◌≡◌, refl, sym, ap, ◌∙◌, true, false, some, String, List, arith}
use mathlib.Core.Option.{some-injective}
use serein.Base.Table.{find_key, find_key-Grows}
use serein.Remote.Model.{Session, is_terminal_state}
use serein.Remote.World.{Env, World}
use serein.Remote.Repository.{session_key, moved}
use serein.Remote.Service.{time_limit}
use serein.Remote.Lifecycle.{
  wake, accept, connect, drop, expire, finish, Step, change, approve, Evolves, here, next, IsNew,
}
use serein.Remote.Run.{Call, run}
use serein.Remote.Run.Refines.{run-Lives}

-- The columns that no statement sets, and those that only go one way.
pub record Keeps (s t : Session) : Type 0 where
  pub same_id : t.id ≡ s.id
  pub same_host : t.host_id ≡ s.host_id
  pub same_controller : t.controller_device_id ≡ s.controller_device_id
  pub same_request : t.requested_capabilities ≡ s.requested_capabilities
  pub same_time : t.requested_at ≡ s.requested_at
  pub same_primary : t.controller_is_primary ≡ s.controller_is_primary
  pub stays_approved : s.primary_approved ≡ true → t.primary_approved ≡ true
  pub revision_grows : s.revision ≤ t.revision

Step-Keeps : (s t : Session) → Step s t → Keeps s t
unfolding moved
Step-Keeps s t (approve now st eq) = ground arith
Step-Keeps s t (change c now e eq) = ground arith

Keeps-trans : (s t u : Session) → Keeps s t → Keeps t u → Keeps s u
Keeps-trans s t u h k = ground arith

Evolves-Keeps : (s t : Session) → Evolves s t → Keeps s t
Evolves-Keeps s t here = ground arith
Evolves-Keeps s t (next {t = u} p st) = Keeps-trans s u t (Evolves-Keeps s u p) (Step-Keeps u t st)

Step-revision : (s t : Session) → Step s t → t.revision ≡ s.revision + 1
unfolding moved
Step-revision s t (approve now st eq) = ground arith
Step-revision s t (change c now e eq) = ground arith

Step-live : (s t : Session) → Step s t → is_terminal_state s.state ≡ false
unfolding time_limit
Step-live s t (approve now st eq) = ground arith
Step-live s t (change c now (wake st ce) eq) = ground arith
Step-live s t (change c now (accept st ce) eq) = ground arith
Step-live s t (change c now (connect st ce) eq) = ground arith
Step-live s t (change c now (drop st ce) eq) = ground arith
Step-live s t (change c now (expire ttl reason st ce) eq) = ground arith
Step-live s t (change c now (finish reason st ce) eq) = st

Evolves-eq_of_revision : (s t : Session) → Evolves s t → t.revision ≡ s.revision → t ≡ s
Evolves-eq_of_revision s t here e = refl
Evolves-eq_of_revision s t (next {t = u} p st) e =
    absurd (omega (arith, Step-revision u t st, Evolves-Keeps s u p))

Evolves-eq_of_terminal : (s t : Session) → Evolves s t → is_terminal_state s.state ≡ true → t ≡ s
Evolves-eq_of_terminal s t here h = refl
Evolves-eq_of_terminal s t (next {t = u} p st) h =
    let same : u ≡ s = Evolves-eq_of_terminal s u p h in absurd (ground (arith, Step-live u t st))

module _ (calls : List (Env × Call)) (w : World) (id : String) (s : Session)
    (stored : find_key session_key id w.sessions ≡ some s) where
  later : (t : Session) × (find_key session_key id (run calls w).sessions ≡ some t) × Evolves s t
  later =
      find_key-Grows Evolves IsNew session_key id (λ a b p. (Evolves-Keeps a b p).same_id)
        w.sessions (run calls w).sessions s (run-Lives calls w) stored

  -- A stored session is never lost: after any calls its row is there, with the same host,
  -- controller, request and request time, still approved if it was, and at no lower a revision.
  pub run-Keeps :
      (t : Session) × (find_key session_key id (run calls w).sessions ≡ some t) × Keeps s t
  run-Keeps = let (t, found, p) = later in (t, found, Evolves-Keeps s t p)

  -- A session that has ended or failed is the same row, in every column, after any calls.
  pub run_terminal :
      is_terminal_state s.state ≡ true → find_key session_key id (run calls w).sessions ≡ some s
  run_terminal over =
      let (t, found, p) = later in rw found (ap some (Evolves-eq_of_terminal s t p over))

  -- A revision names one version of the row: if after any calls the revision is what it was, no
  -- column has changed. (So a caller that compares revisions has seen the row that it changes.)
  pub run_revision :
      (t : Session)
      → find_key session_key id (run calls w).sessions ≡ some t
      → t.revision ≡ s.revision
      → t ≡ s
  run_revision t found e =
      let (u, found', p) = later in
      let same : t ≡ u = some-injective t u (sym found ∙ found') in
      same ∙ Evolves-eq_of_revision s u p (ap (λ (r : Session). r.revision) (sym same) ∙ e)
