-- ===== src/Remote/Lifecycle/Rules.antt =====
-- What an action does to the table of sessions: a judgement with a rule for each way to build an
-- action. `P` is what the action may rely on, and `Q` what it returns.
use serein.Base.{◌≡◌, refl, Bool, true, false, Option, none, some, List, if◌then◌else◌}
use serein.Remote.Model.{Session}
use serein.Remote.World.{
  Env, World, Error, Result, ok, err, Action, pure, fail, gets, asks, or_fail, from_result, attempt,
  modify, fail_if, new_uuid, continue, ◌>>=◌,
}
use serein.Remote.Lifecycle.{Lives, Lives-refl, Lives-trans}

abbrev pub Fact : Type 1
Fact = Env → List Session → Type 0

-- The table lives on, and a value that is returned satisfies `Q`.
pub data Outcome {A : Type 0} (Q : A → Fact) (e : Env) (xs : List Session) (r : Result A × World)
    : Type 0 where
  done :
      (a : A) (w : World)
      → r ≡ (ok a, w)
      → Lives xs w.sessions
      → Q a e w.sessions
      → Outcome Q e xs r
  failed : (x : Error) (w : World) → r ≡ (err x, w) → Lives xs w.sessions → Outcome Q e xs r

pub record Ensures {A : Type 0} (P : Fact) (m : Action A) (Q : A → Fact) : Type 0 where
  pub at : (e : Env) (w : World) → P e w.sessions → Outcome Q e w.sessions (m e w)

abbrev pub Any : Fact
Any e xs = Unit

-- What is known of a caught result: `Q` of a value, nothing of an error.
abbrev pub Caught : {A : Type 0} → (A → Fact) → Result A → Fact
Caught Q (ok a) e xs = Q a e xs
Caught Q (err x) e xs = Unit

module _ {A : Type 0} where
  pub Ensures-pure :
      (a : A) (P : Fact) (Q : A → Fact)
      → ((e : Env) (xs : List Session) → P e xs → Q a e xs)
      → Ensures P (pure a) Q
  unfolding pure
  Ensures-pure a P Q h = record { at = λ e w p. done a w refl (Lives-refl _) (h e w.sessions p) }

  pub Ensures-fail : (x : Error) (P : Fact) (Q : A → Fact) → Ensures P (fail x) Q
  unfolding fail
  Ensures-fail x P Q = record { at = λ e w p. failed x w refl (Lives-refl _) }

  pub Ensures-from_result : (r : Result A) (P : Fact) → Ensures P (from_result r) (λ a e xs. P e xs)
  unfolding from_result
  Ensures-from_result (ok a) P = record { at = λ e w p. done a w refl (Lives-refl _) p }
  Ensures-from_result (err x) P = record { at = λ e w p. failed x w refl (Lives-refl _) }

  pub Ensures-or_fail :
      (o : Option A) (x : Error) (P : Fact)
      → Ensures P (or_fail o x) (λ a e xs. P e xs × (o ≡ some a))
  unfolding or_fail
  Ensures-or_fail none x P = record { at = λ e w p. failed x w refl (Lives-refl _) }
  Ensures-or_fail (some a) x P = record { at = λ e w p. done a w refl (Lives-refl _) (p, refl) }

  -- A value that the action takes from the tables.
  pub Ensures-gets :
      (f : World → A) (P : Fact) (Q : A → Fact)
      → ((e : Env) (w : World) → P e w.sessions → Q (f w) e w.sessions)
      → Ensures P (gets f) Q
  unfolding gets
  Ensures-gets f P Q h = record { at = λ e w p. done (f w) w refl (Lives-refl _) (h e w p) }

  pub Ensures-asks : (f : Env → A) (P : Fact) → Ensures P (asks f) (λ a e xs. P e xs × (a ≡ f e))
  unfolding asks
  Ensures-asks f P = record { at = λ e w p. done (f e) w refl (Lives-refl _) (p, refl) }

  pub Ensures-weaken :
      (P P' : Fact) (m : Action A) (Q Q' : A → Fact)
      → ((e : Env) (xs : List Session) → P' e xs → P e xs)
      → ((a : A) (e : Env) (xs : List Session) → Q a e xs → Q' a e xs)
      → Ensures P m Q
      → Ensures P' m Q'
  Ensures-weaken P P' m Q Q' f g h = record {
    at = λ e w p. widen e w (h.at e w (f e w.sessions p));
  }
    where
      widen :
          (e : Env) (w : World) → Outcome Q e w.sessions (m e w) → Outcome Q' e w.sessions (m e w)
      widen e w (done a w' eq l q) = done a w' eq l (g a e w'.sessions q)
      widen e w (failed x w' eq l) = failed x w' eq l

  -- A fact that the action relies on and that does not speak of the table.
  pub Ensures-known :
      (F : Type 0) (P : Fact) (m : Action A) (Q : A → Fact)
      → ((e : Env) (xs : List Session) → P e xs → F)
      → (F → Ensures P m Q)
      → Ensures P m Q
  Ensures-known F P m Q f h = record { at = λ e w p. (h (f e w.sessions p)).at e w p }

  pub Ensures-if :
      (b : Bool) (P : Fact) (m n : Action A) (Q : A → Fact)
      → (b ≡ true → Ensures P m Q)
      → (b ≡ false → Ensures P n Q)
      → Ensures P (if b then m else n) Q
  Ensures-if true P m n Q h k = h refl
  Ensures-if false P m n Q h k = k refl

  -- The outcome of an action as a value.
  pub Ensures-attempt :
      (P : Fact) (m : Action A) (Q : A → Fact) → Ensures P m Q → Ensures P (attempt m) (Caught Q)
  unfolding attempt
  Ensures-attempt P m Q h = record { at = λ e w p. caught e w (h.at e w p) }
    where
      caught :
          (e : Env) (w : World)
          → Outcome Q e w.sessions (m e w)
          → Outcome (Caught Q) e w.sessions (attempt m e w)
      caught e w (done a w' eq l q) = done (ok a) w' (rw eq) l q
      caught e w (failed x w' eq l) = done (err x) w' (rw eq) l tt

pub Ensures-fail_if :
    (c : Bool) (x : Error) (P : Fact) → Ensures P (fail_if c x) (λ _ e xs. P e xs × (c ≡ false))
unfolding fail_if
Ensures-fail_if true x P = record { at = λ e w p. failed x w refl (Lives-refl _) }
Ensures-fail_if false x P = record { at = λ e w p. done tt w refl (Lives-refl _) (p, refl) }

pub Ensures-modify :
    (f : World → World) (P : Fact) (Q : Fact)
    → ((e : Env) (w : World)
        → P e w.sessions
        → Lives w.sessions (f w).sessions × Q e (f w).sessions)
    → Ensures P (modify f) (λ _. Q)
unfolding modify
Ensures-modify f P Q h = record { at = λ e w p. done tt (f w) refl (h e w p).0 (h e w p).1 }

pub Ensures-new_uuid : (P : Fact) → Ensures P new_uuid (λ _. P)
unfolding new_uuid
Ensures-new_uuid P = record {
  at = λ e w p. done (e.uuid w.drawn) (record w { drawn = _ }) refl (Lives-refl _) p;
}

module _ {A B : Type 0} where
  continued :
      (Q : A → Fact) (R : B → Fact) (f : A → Action B) (e : Env) (xs : List Session)
      (r : Result A × World)
      → ((a : A) → Ensures (Q a) (f a) R)
      → Outcome Q e xs r
      → Outcome R e xs (continue r.0 f e r.1)
  continued Q R f e xs r k (failed x w eq l) = failed x w (rw eq) l
  continued Q R f e xs r k (done a w eq l q) = rest ((k a).at e w q)
    where
      rest : Outcome R e w.sessions (f a e w) → Outcome R e xs (continue r.0 f e r.1)
      rest (done b w' eq' l' q') = done b w' (rw eq eq') (Lives-trans xs w.sessions _ l l') q'
      rest (failed x w' eq' l') = failed x w' (rw eq eq') (Lives-trans xs w.sessions _ l l')

  pub Ensures-bind :
      (P : Fact) (m : Action A) (Q : A → Fact) (f : A → Action B) (R : B → Fact)
      → Ensures P m Q
      → ((a : A) → Ensures (Q a) (f a) R)
      → Ensures P (m >>= f) R
  unfolding ◌>>=◌
  Ensures-bind P m Q f R h k = record {
    at = λ e w p. continued Q R f e w.sessions (m e w) k (h.at e w p);
  }
