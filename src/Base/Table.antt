-- ===== src/Base/Table.antt =====
-- A table of the database with a text as its primary key: the rows in the order of insertion, and
-- the statements that the repositories run on it. The key makes a row unique, so a statement
-- `WHERE id=? AND ...` reads or writes the first row with that key.
use Prim.Native.Nat.{ℕ}
use Prim.Native.String.{String}
use mathlib.Core.Path.{◌≡◌, refl, subst}
use mathlib.Core.Logic.{◌≢◌, inl, inr}
use mathlib.Core.Bool.{Bool, true}
use mathlib.Core.Option.{Option, none, some, some-injective}
use mathlib.Core.List.{List, [], ◌∷◌, ◌++◌}
use native.Mathlib.Omega.{arith}
use text.Mathlib.Text.{◌==◌ as str_eq}
use text.Mathlib.TextEquality.{eq_iff}
use serein.Base.Tests.{if◌then◌else◌, Bool-cases}
use serein.Base.Lists.{All, keep_if}

module _ {ℓ} {A : Type ℓ} (key : A → String) where
  -- `SELECT ... WHERE id=?`
  unfoldable pub find_key : String → List A → Option A
  find_key k [] = none
  find_key k (r ∷ rows) = if str_eq (key r) k then some r else find_key k rows

  -- `UPDATE ... SET ... WHERE id=? AND p`
  unfoldable pub update_key : String → (A → Bool) → (A → A) → List A → List A
  update_key k p f [] = []
  update_key k p f (r ∷ rows) =
      if str_eq (key r) k then (if p r then f r else r) ∷ rows else r ∷ update_key k p f rows

  -- Its `RowsAffected`.
  abbrev pub affected : String → (A → Bool) → List A → ℕ
  affected k p rows = elim (find_key k rows) [ none ↦ 0 | some r ↦ if p r then 1 else 0 ]

  -- `INSERT`, which the primary key refuses when the row is there.
  abbrev pub insert_key : A → List A → Option (List A)
  insert_key r rows = elim (find_key (key r) rows) [ none ↦ some (rows ++ r ∷ []) | some _ ↦ none ]

  -- `INSERT ... ON CONFLICT(id) DO UPDATE`
  abbrev pub upsert_key : A → (A → A) → List A → List A
  upsert_key r f rows = elim (find_key (key r) rows) [
    | none ↦ rows ++ r ∷ []
    | some _ ↦ update_key (key r) (λ _. true) f rows
  ]

  pub key-find_key : (k : String) (rows : List A) (r : A) → find_key k rows ≡ some r → key r ≡ k
  unfolding find_key
  key-find_key k [] r h = cc
  key-find_key k (x ∷ rows) r h = ground (arith, eq_iff (key x) k, key-find_key k rows r)

  -- The updated row, read back.
  pub find_key-update_self :
      (k : String) (p : A → Bool) (f : A → A) (rows : List A) (r : A)
      → find_key k rows ≡ some r
      → key (f r) ≡ key r
      → find_key k (update_key k p f rows) ≡ some (if p r then f r else r)
  unfolding find_key update_key
  find_key-update_self k p f [] r h e = cc
  find_key-update_self k p f (x ∷ rows) r h e =
      ground (arith, eq_iff (key x) k, eq_iff (key (f x)) k, find_key-update_self k p f rows r)

  -- The other rows stay.
  pub find_key-update_ne :
      (k j : String) (p : A → Bool) (f : A → A) (rows : List A)
      → k ≢ j
      → ((r : A) → key (f r) ≡ key r)
      → find_key j (update_key k p f rows) ≡ find_key j rows
  unfolding find_key update_key
  find_key-update_ne k j p f [] ne e = refl
  find_key-update_ne k j p f (x ∷ rows) ne e = ground (
    arith,
    eq_iff (key x) k,
    eq_iff (key x) j,
    eq_iff (key (f x)) j,
    e x,
    find_key-update_ne k j p f rows ne e,
  )

  pub update_key-none :
      (k : String) (p : A → Bool) (f : A → A) (rows : List A)
      → find_key k rows ≡ none
      → update_key k p f rows ≡ rows
  unfolding find_key update_key
  update_key-none k p f [] h = refl
  update_key-none k p f (x ∷ rows) h = ground (arith, update_key-none k p f rows)

  -- `DELETE` adds no row.
  pub find_key-keep_if :
      (k : String) (p : A → Bool) (rows : List A)
      → find_key k rows ≡ none
      → find_key k (keep_if p rows) ≡ none
  unfolding find_key
  find_key-keep_if k p [] h = refl
  find_key-keep_if k p (x ∷ rows) h = ground (arith, find_key-keep_if k p rows)

  pub find_key-append :
      (k : String) (rows : List A) (r : A)
      → find_key k rows ≡ none
      → key r ≡ k
      → find_key k (rows ++ r ∷ []) ≡ some r
  unfolding find_key
  find_key-append k [] r h e = ground (arith, eq_iff (key r) k)
  find_key-append k (x ∷ rows) r h e = ground (arith, find_key-append k rows r)

-- What a table has become: the old rows in their places, each related to what it was, and then new
-- rows with the property `N`.
abbrev pub Grows {ℓ} : {A : Type ℓ} → (A → A → Type 0) → (A → Type 0) → List A → List A → Type 0
Grows R N [] ys = All N ys
Grows R N (x ∷ xs) [] = ⊥
Grows R N (x ∷ xs) (y ∷ ys) = R x y × Grows R N xs ys

module _ {ℓ} {A : Type ℓ} (R : A → A → Type 0) (N : A → Type 0) where
  pub Grows-refl : ((a : A) → R a a) → (xs : List A) → Grows R N xs xs
  Grows-refl r [] = tt
  Grows-refl r (x ∷ xs) = (r x, Grows-refl r xs)

  Grows-step_new :
      ((a b : A) → N a → R a b → N b) → (ys zs : List A) → All N ys → Grows R N ys zs → All N zs
  Grows-step_new t [] zs h g = g
  Grows-step_new t (y ∷ ys) [] h g = absurd g
  Grows-step_new t (y ∷ ys) (z ∷ zs) h g = (t y z h.0 g.0, Grows-step_new t ys zs h.1 g.1)

  pub Grows-trans :
      ((a b c : A) → R a b → R b c → R a c)
      → ((a b : A) → N a → R a b → N b)
      → (xs ys zs : List A) → Grows R N xs ys
      → Grows R N ys zs
      → Grows R N xs zs
  Grows-trans t n [] ys zs g h = Grows-step_new n ys zs g h
  Grows-trans t n (x ∷ xs) [] zs g h = absurd g
  Grows-trans t n (x ∷ xs) (y ∷ ys) [] g h = absurd h
  Grows-trans t n (x ∷ xs) (y ∷ ys) (z ∷ zs) g h =
      (t x y z g.0 h.0, Grows-trans t n xs ys zs g.1 h.1)

  pub Grows-append : ((a : A) → R a a) → (xs : List A) (a : A) → N a → Grows R N xs (xs ++ a ∷ [])
  Grows-append r [] a n = (n, tt)
  Grows-append r (x ∷ xs) a n = (r x, Grows-append r xs a n)

  pub Grows-update_key :
      (key : A → String) (k : String) (p : A → Bool) (f : A → A)
      → ((a : A) → R a a)
      → (xs : List A) → ((a : A) → find_key key k xs ≡ some a → p a ≡ true → R a (f a))
      → Grows R N xs (update_key key k p f xs)
  unfolding find_key update_key
  Grows-update_key key k p f r [] h = tt
  Grows-update_key key k p f r (x ∷ xs) h = elim (Bool-cases (str_eq (key x) k)) [
    | inl e ↦ elim (Bool-cases (p x)) [
      | inl q ↦ rw (e, q) (h x (rw e) q, Grows-refl r xs)
      | inr q ↦ rw (e, q) (r x, Grows-refl r xs)
    ]
    | inr e ↦ rw e (r x, Grows-update_key key k p f r xs (λ a found. h a (rw e found)))
  ]

  -- A property that `R` keeps and new rows have, of the whole table.
  pub All-Grows {κ} :
      (P : A → Type κ)
      → ((a b : A) → P a → R a b → P b)
      → ((a : A) → N a → P a)
      → (xs ys : List A) → Grows R N xs ys
      → All P xs
      → All P ys
  All-Grows P t n [] [] g h = tt
  All-Grows P t n [] (y ∷ ys) g h = (n y g.0, All-Grows P t n [] ys g.1 tt)
  All-Grows P t n (x ∷ xs) [] g h = absurd g
  All-Grows P t n (x ∷ xs) (y ∷ ys) g h = (t x y h.0 g.0, All-Grows P t n xs ys g.1 h.1)

  -- A row that is there stays there, related to what it was.
  pub find_key-Grows :
      (key : A → String) (k : String)
      → ((a b : A) → R a b → key b ≡ key a)
      → (xs ys : List A) (a : A) → Grows R N xs ys
      → find_key key k xs ≡ some a
      → (b : A) × (find_key key k ys ≡ some b) × R a b
  unfolding find_key
  find_key-Grows key k same [] ys a g h = cc
  find_key-Grows key k same (x ∷ xs) [] a g h = absurd g
  find_key-Grows key k same (x ∷ xs) (y ∷ ys) a g h = elim (Bool-cases (str_eq (key x) k)) [
    | inl e ↦ (y, rw (same x y g.0, e), subst (λ t. R t y) (some-injective x a (rw e at h)) g.0)
    | inr e ↦
        let (b, found, related) = find_key-Grows key k same xs ys a g.1 (rw e at h) in
        (b, rw (same x y g.0, e) found, related)
  ]
