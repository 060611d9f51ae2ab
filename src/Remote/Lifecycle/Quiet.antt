-- ===== src/Remote/Lifecycle/Quiet.antt =====
-- Actions that leave the table of sessions alone: one rule for each way to build an action, and the
-- parts of the service of which this holds.
use serein.Base.{
  ℕ, ◌≡◌, refl, sym, ◌∙◌, subst, Bool, true, false, Option, none, some, String, List, ℤ,
  if◌then◌else◌,
}
use serein.Remote.Model.{Session, Host, Role, Value}
use serein.Remote.World.{
  Env, World, Error, Result, ok, err, Action, pure, fail, gets, asks, or_fail, from_result, attempt,
  modify, fail_if, new_uuid, new_random, continue, ◌>>=◌, EventType, Nonce,
}
use serein.Remote.Audit.{audit, insert_audit}
use serein.Remote.Tickets.{
  issue, validate_and_consume, consume_ticket_nonce, create_ticket_nonce,
  delete_expired_ticket_nonces, put_nonces,
}
use serein.Remote.Repository.{
  upsert_host, touch_host, get_host, host_credential_hash, set_host_credential,
  upsert_authorization,
}
use serein.Remote.Service.{emit}
use serein.Remote.Lifecycle.{Lives, Lives-refl}
use serein.Remote.Lifecycle.Rules.{Fact, Ensures, Outcome, done, failed}

pub record Quiet {A : Type 0} (m : Action A) : Type 0 where
  pub at : (e : Env) (w : World) → (m e w).1.sessions ≡ w.sessions

module _ {A : Type 0} where
  pub Quiet-pure : (a : A) → Quiet (pure a)
  unfolding pure
  Quiet-pure a = record { at = λ e w. refl }

  pub Quiet-fail : (x : Error) → Quiet (fail {A = A} x)
  unfolding fail
  Quiet-fail x = record { at = λ e w. refl }

  pub Quiet-gets : (f : World → A) → Quiet (gets f)
  unfolding gets
  Quiet-gets f = record { at = λ e w. refl }

  pub Quiet-asks : (f : Env → A) → Quiet (asks f)
  unfolding asks
  Quiet-asks f = record { at = λ e w. refl }

  pub Quiet-or_fail : (o : Option A) (x : Error) → Quiet (or_fail o x)
  unfolding or_fail
  Quiet-or_fail none x = record { at = λ e w. refl }
  Quiet-or_fail (some a) x = record { at = λ e w. refl }

  pub Quiet-from_result : (r : Result A) → Quiet (from_result r)
  unfolding from_result
  Quiet-from_result r = record { at = λ e w. refl }

  pub Quiet-attempt : (m : Action A) → Quiet m → Quiet (attempt m)
  unfolding attempt
  Quiet-attempt m h = record { at = h.at }

  pub Quiet-if : (b : Bool) (m n : Action A) → Quiet m → Quiet n → Quiet (if b then m else n)
  Quiet-if true m n h k = h
  Quiet-if false m n h k = k

pub Quiet-modify :
    (f : World → World) → ((w : World) → (f w).sessions ≡ w.sessions) → Quiet (modify f)
unfolding modify
Quiet-modify f h = record { at = λ e w. h w }

pub Quiet-fail_if : (b : Bool) (x : Error) → Quiet (fail_if b x)
unfolding fail_if
Quiet-fail_if b x = record { at = λ e w. refl }

pub Quiet-new_uuid : Quiet new_uuid
unfolding new_uuid
Quiet-new_uuid = record { at = λ e w. refl }

pub Quiet-new_random : Quiet new_random
unfolding new_random
Quiet-new_random = record { at = λ e w. refl }

module _ {A B : Type 0} where
  Quiet-continue :
      (r : Result A) (f : A → Action B) (e : Env) (w : World)
      → ((a : A) → Quiet (f a))
      → (continue r f e w).1.sessions ≡ w.sessions
  Quiet-continue (ok a) f e w k = (k a).at e w
  Quiet-continue (err x) f e w k = refl

  pub Quiet-bind :
      (m : Action A) (f : A → Action B) → Quiet m → ((a : A) → Quiet (f a)) → Quiet (m >>= f)
  unfolding ◌>>=◌
  Quiet-bind m f h k = record { at = λ e w. Quiet-continue (m e w).0 f e (m e w).1 k ∙ h.at e w }

pub ruleset quiet_rules = (
  Quiet-pure, Quiet-fail, Quiet-gets, Quiet-asks, Quiet-or_fail, Quiet-from_result, Quiet-attempt,
  Quiet-fail_if, Quiet-new_uuid, Quiet-new_random, Quiet-bind,
)

-- A quiet action keeps what is known of the table.
pub Ensures-Quiet : {A : Type 0} (m : Action A) (P : Fact) → Quiet m → Ensures P m (λ _. P)
Ensures-Quiet {A} m P h = record { at = λ e w p. outcome e w (m e w).0 refl p }
  where
    outcome :
        (e : Env) (w : World) (r : Result A)
        → (m e w).0 ≡ r
        → P e w.sessions
        → Outcome (λ _. P) e w.sessions (m e w)
    outcome e w (ok a) eq p =
        done a (m e w).1 (λ i. (eq i, (m e w).1))
          (subst (Lives w.sessions) (sym (h.at e w)) (Lives-refl _))
          (subst (P e) (sym (h.at e w)) p)
    outcome e w (err x) eq p =
        failed x (m e w).1 (λ i. (eq i, (m e w).1))
          (subst (Lives w.sessions) (sym (h.at e w)) (Lives-refl _))

pub Quiet-emit : (t : EventType) (s : Session) → Quiet (emit t s)
unfolding emit
Quiet-emit t s = Quiet-modify _ (λ w. refl)

pub Quiet-audit :
    (id type actor event : String) (metadata : List (String × Value))
    → Quiet (audit id type actor event metadata)
unfolding audit insert_audit
Quiet-audit id type actor event metadata =
    Quiet-bind _ _ Quiet-new_uuid λ a. Quiet-bind _ _ (Quiet-asks _) λ b. Quiet-modify _ (λ w. refl)

pub Quiet-upsert_host : (h : Host) → Quiet (upsert_host h)
unfolding upsert_host
Quiet-upsert_host h =
    Quiet-bind _ _ (Quiet-gets _)
      λ a. Quiet-bind _ _ (Quiet-fail_if _ _) λ b. Quiet-modify _ (λ w. refl)

pub Quiet-upsert_authorization :
    (id host controller : String) (caps : List String) (now : ℕ)
    → Quiet (upsert_authorization id host controller caps now)
unfolding upsert_authorization
Quiet-upsert_authorization id host controller caps now = Quiet-modify _ (λ w. refl)

pub Quiet-get_host : (id : String) → Quiet (get_host id)
unfolding get_host
Quiet-get_host id = search quiet_rules

pub Quiet-touch_host : (id : String) (at : ℕ) → Quiet (touch_host id at)
unfolding touch_host
Quiet-touch_host id at =
    Quiet-bind _ _ (Quiet-gets _)
      λ a. Quiet-bind _ _ (Quiet-modify _ (λ w. refl)) λ b. Quiet-fail_if _ _

pub Quiet-host_credential_hash : (id : String) → Quiet (host_credential_hash id)
unfolding host_credential_hash
Quiet-host_credential_hash id = search quiet_rules

pub Quiet-set_host_credential :
    (id hash : String) (now : ℕ) → Quiet (set_host_credential id hash now)
unfolding set_host_credential
Quiet-set_host_credential id hash now = Quiet-modify _ (λ w. refl)

Quiet-put_nonces : (o : Option (List Nonce)) → Quiet (put_nonces o)
Quiet-put_nonces none = Quiet-fail _
Quiet-put_nonces (some rows) = Quiet-modify _ (λ w. refl)

Quiet-create_ticket_nonce : (n : Nonce) → Quiet (create_ticket_nonce n)
unfolding create_ticket_nonce
Quiet-create_ticket_nonce n = Quiet-bind _ _ (Quiet-gets _) Quiet-put_nonces

Quiet-delete_expired : (now : ℕ) → Quiet (delete_expired_ticket_nonces now)
unfolding delete_expired_ticket_nonces
Quiet-delete_expired now = Quiet-modify _ (λ w. refl)

pub Quiet-issue : (s : Session) (endpoint : String) (role : Role) → Quiet (issue s endpoint role)
unfolding issue
Quiet-issue s endpoint role =
    search (quiet_rules, Quiet-create_ticket_nonce, Quiet-delete_expired) depth 12

pub Quiet-consume_ticket_nonce :
    (hash session endpoint : String) (role : Role) (revision : ℤ) (now : ℕ)
    → Quiet (consume_ticket_nonce hash session endpoint role revision now)
unfolding consume_ticket_nonce
Quiet-consume_ticket_nonce hash session endpoint role revision now =
    Quiet-bind _ _ (Quiet-gets _) λ n.
      Quiet-bind _ _ (Quiet-modify _ (λ w. refl))
        λ _. Quiet-bind _ _ (Quiet-gets _) λ row. Quiet-fail_if _ _

pub Quiet-validate_and_consume :
    (token session endpoint : String) (role : Role) (revision : ℤ)
    → Quiet (validate_and_consume token session endpoint role revision)
unfolding validate_and_consume
Quiet-validate_and_consume token session endpoint role revision =
    search (quiet_rules, Quiet-consume_ticket_nonce) depth 20
