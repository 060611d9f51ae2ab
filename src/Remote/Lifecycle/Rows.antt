-- ===== src/Remote/Lifecycle/Rows.antt =====
-- The statements of the repository on remote_sessions take the table along the diagram.
use serein.Base.{
  ℕ, ◌≡◌, refl, Bool, true, false, not, ◌||◌, ◌==◌, Option, none, some, String, List, ℤ, arith,
  subst, sym, ◌∙◌, inl, inr, Option-cases,
}
use mathlib.Core.Option.{some-injective}
use serein.Base.Table.{find_key, update_key, insert_key, Grows-update_key, Grows-append}
use serein.Remote.Model.{Session, SessionState, allows, state_eq, waiting_primary}
use serein.Remote.World.{Env}
use serein.Remote.Repository.{
  session_key, get_session, insert_session, put_sessions, transition_session,
  approve_primary_session, is_stale, Change, moved, approved,
}
use serein.Remote.Lifecycle.{Edge, Step, Evolves, here, next, IsNew, IsRequest, requested, Lives}
use serein.Remote.Lifecycle.Rules.{
  Fact, Any, Ensures, Ensures-bind, Ensures-gets, Ensures-or_fail, Ensures-fail_if, Ensures-modify,
  Ensures-weaken, Ensures-fail,
}

-- The row that `id` names.
abbrev pub Stored : String → Session → Fact
Stored id s e xs = find_key session_key id xs ≡ some s

pub get_session-Ensures :
    (id : String) (P : Fact) → Ensures P (get_session id) (λ s e xs. P e xs × Stored id s e xs)
unfolding get_session
get_session-Ensures id P =
    Ensures-bind P _ (λ o e xs. P e xs × (o ≡ find_key session_key id xs)) _ _
      (Ensures-gets _ P _ (λ e w p. (p, refl)))
      λ o.
        Ensures-weaken _ _ _ _ _ (λ e xs p. p) (λ s e xs p. (p.0.0, rw (← p.0.1) p.1))
          (Ensures-or_fail o _ _)

update-Lives :
    (id : String) (f : Session → Session) (p : Session → Bool) (xs : List Session) (s : Session)
    → find_key session_key id xs ≡ some s
    → Step s (f s)
    → Lives xs (update_key session_key id p f xs)
update-Lives id f p xs s found st =
    Grows-update_key Evolves IsNew session_key id p f (λ s. here) xs
      λ s' found' _.
        next here (subst (λ t. Step t (f t)) (some-injective s s' (sym found ∙ found')) st)

not-eq-false : (b : Bool) → not b ≡ false → b ≡ true
not-eq-false true h = refl
not-eq-false false h = cc

module _ (id : String) (expected : ℤ) (now : ℕ) (P : Fact) where
  -- A transition whose guards admit only edges of the diagram.
  pub transition-Ensures :
      (allowed : List SessionState) (c : Change)
      → ((e : Env) (xs : List Session) (s : Session)
          → P e xs
          → Stored id s e xs
          → is_stale expected s.revision ≡ false
          → allows allowed s.state ≡ true
          → Edge s c)
      → Ensures P (transition_session id expected allowed c now) (Stored id)
  unfolding transition_session
  transition-Ensures allowed c edge = Ensures-bind _ _ _ _ _ (get_session-Ensures id P) λ s.
      Ensures-bind _ _ _ _ _ (Ensures-fail_if _ _ _) λ _.
        Ensures-bind _ _ _ _ _ (Ensures-fail_if _ _ _) λ _.
          Ensures-bind _ _ (λ _. Sound s) _ _ (Ensures-gets _ _ _ (λ e w p. sound s e w.sessions p))
            λ n.
              Ensures-bind _ _ (λ _. Sound s) _ _
                (Ensures-weaken _ _ _ _ _ (λ e xs p. p) (λ _ e xs p. p.0) (Ensures-fail_if _ _ _))
                λ _.
                  Ensures-bind _ _ (λ _. Any) _ _ (Ensures-modify _ _ _ (λ e w p. (p, tt)))
                    λ _.
                      Ensures-weaken _ _ _ _ _ (λ e xs p. p) (λ t e xs p. p.1)
                        (get_session-Ensures id Any)
    where
      Sound : Session → Fact
      Sound s e xs =
          Lives xs (update_key session_key id (λ r. r.revision == s.revision) (moved c now) xs)

      sound :
          (s : Session) (e : Env) (xs : List Session)
          → (((P e xs × Stored id s e xs) × (is_stale expected s.revision ≡ false))
              × (not (allows allowed s.state) ≡ false))
          → Sound s e xs
      sound s e xs (((p, found), fresh), ok) =
          update-Lives id _ _ xs s found
            (Step.change c now (edge e xs s p found fresh (not-eq-false _ ok)) refl)

  -- The approval of the primary phone.
  pub approve-Ensures : Ensures P (approve_primary_session id expected now) (Stored id)
  unfolding approve_primary_session
  approve-Ensures = Ensures-bind _ _ _ _ _ (get_session-Ensures id P) λ s.
      Ensures-bind _ _ _ _ _ (Ensures-fail_if _ _ _) λ _.
        Ensures-bind _ _ (λ _. Sound s) _ _ (Ensures-gets _ _ _ (λ e w p. sound s e w.sessions p))
          λ n.
            Ensures-bind _ _ (λ _. Sound s) _ _
              (Ensures-weaken _ _ _ _ _ (λ e xs p. p) (λ _ e xs p. p.0) (Ensures-fail_if _ _ _))
              λ _.
                Ensures-bind _ _ (λ _. Any) _ _ (Ensures-modify _ _ _ (λ e w p. (p, tt)))
                  λ _.
                    Ensures-weaken _ _ _ _ _ (λ e xs p. p) (λ t e xs p. p.1)
                      (get_session-Ensures id Any)
    where
      Sound : Session → Fact
      Sound s e xs =
          Lives xs (update_key session_key id (λ r. r.revision == s.revision) (approved now) xs)

      sound :
          (s : Session) (e : Env) (xs : List Session)
          → ((P e xs × Stored id s e xs)
              × ((is_stale expected s.revision || not (state_eq s.state waiting_primary)) ≡ false))
          → Sound s e xs
      sound s e xs ((p, found), ok) =
          update-Lives id _ _ xs s found (Step.approve now (ground arith) refl)

put-Ensures :
    (s : Session) (o : Option (List Session)) (P : Fact)
    → IsRequest s
    → Ensures (λ e xs. P e xs × (o ≡ insert_key session_key s xs)) (put_sessions o) (λ _. Any)
put-Ensures s none P new = Ensures-fail _ _ _
put-Ensures s (some rows) P new = Ensures-modify _ _ _ (λ e w p. (grown w.sessions p.1, tt))
  where
    grown : (xs : List Session) → some rows ≡ insert_key session_key s xs → Lives xs rows
    grown xs e = elim (Option-cases (find_key session_key (session_key s) xs)) [
      | inl fresh ↦
          subst (Lives xs) (sym (some-injective rows _ (rw (fresh, insert_key) at e)))
            (Grows-append Evolves IsNew (λ s. here) xs s (requested s new here))
      | inr (r, taken) ↦ cc (rw (taken, insert_key) at e)
    ]

-- A request is a new row.
pub insert-Ensures :
    (s : Session) (P : Fact) → IsRequest s → Ensures P (insert_session s) (λ _. Any)
unfolding insert_session
insert-Ensures s P new =
    Ensures-bind _ _ (λ o e xs. P e xs × (o ≡ insert_key session_key s xs)) _ _
      (Ensures-gets _ _ _ (λ e w p. (p, refl))) (λ o. put-Ensures s o P new)
