-- ===== src/Remote/Audit/Privacy.antt =====
-- Whose events a controller is shown (`ListAuditForController`), and which details of an event are
-- stored (`audit`).
use serein.Base.{
  zero, suc, ◌≤◌, ◌≡◌, ◌≢◌, true, false, some, String, List, ℤ, pos, negsuc, arith, str_eq, eq_iff,
  All, All-map, All-both, All-keep_if, All-keep_if_self, All-order_by, All-take, length, keep_if,
  order_by, take, length-take, Option-cases, inl, inr,
}
use serein.Remote.Model.{Session, AuditEvent}
use serein.Remote.World.{Env, World, ok, ◌>>=◌}
use serein.Remote.Audit.{
  is_listed, is_sessionless, joined, clamp_limit, is_newer, list_audit, list_audit_for_controller,
}

-- The event is one of a stored session of the controller.
pub record IsOwn (sessions : List Session) (controller : String) (a : AuditEvent) : Type 0 where
  pub session : Session
  pub found : joined sessions a ≡ some session
  pub same_controller : session.controller_device_id ≡ controller

not_sessionless :
    (a : AuditEvent) (actor : String) → a.session_id ≢ some "" → is_sessionless a actor ≡ false
not_sessionless a actor real = elim (Option-cases a.session_id) [
  | inl null ↦ ground (arith, null)
  | inr (id, e) ↦ ground (arith, e, real, eq_iff id "")
]

owned :
    (sessions : List Session) (controller host : String) (a : AuditEvent)
    → str_eq controller "" ≡ false
    → a.session_id ≢ some ""
    → is_listed sessions controller host a ≡ true
    → IsOwn sessions controller a
unfolding is_listed
owned sessions controller host a named real h = elim (Option-cases (joined sessions a)) [
  | inl none_found ↦
      absurd (ground (arith, named, none_found, h, not_sessionless a controller real))
  | inr (s, found) ↦ record {
    session = s;
    found = found;
    same_controller = ground (
      arith,
      named,
      found,
      h,
      not_sessionless a controller real,
      eq_iff s.controller_device_id controller,
    );
  }
]

clamp_bound : (limit : ℤ) → clamp_limit 200 50 limit ≤ 200
clamp_bound (pos zero) = omega arith
clamp_bound (pos (suc n)) = ground arith
clamp_bound (negsuc n) = omega arith

-- A named controller that asks for audit events is given 200 at most, and only such as belong to a
-- stored session of its own, when no stored event has the empty text (in place of NULL) as its session.
pub list_audit_for_controller_lem :
    (controller host : String) (limit : ℤ) (e : Env) (w : World)
    → str_eq controller "" ≡ false
    → All (λ a. a.session_id ≢ some "") w.audits
    → (events : List AuditEvent) × (list_audit_for_controller controller host limit e w
        ≡ (ok events, w))
      × (length events ≤ 200)
      × All (IsOwn w.sessions controller) events
unfolding list_audit_for_controller list_audit ◌>>=◌
list_audit_for_controller_lem controller host limit e w named real =
    let p = is_listed w.sessions controller host in
    let kept = keep_if p w.audits in
    let sorted = order_by is_newer kept in
    let IsReal : AuditEvent → Type 0 = λ a. a.session_id ≢ some "" in
    let IsListed : AuditEvent → Type 0 = λ a. p a ≡ true in
    let own =
      All-map (λ a. IsReal a × IsListed a) (IsOwn w.sessions controller)
        (λ a h. owned w.sessions controller host a named h.0 h.1) kept
        (All-both IsReal IsListed kept (All-keep_if IsReal p w.audits real)
          (All-keep_if_self p w.audits)) in
    (
      take (clamp_limit 200 50 limit) sorted,
      ground (arith, named),
      ground (arith, length-take (clamp_limit 200 50 limit) sorted, clamp_bound limit),
      All-take (IsOwn w.sessions controller) (clamp_limit 200 50 limit) sorted
          (All-order_by is_newer (IsOwn w.sessions controller) kept own),
    )
