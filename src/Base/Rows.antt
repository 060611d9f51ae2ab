-- ===== src/Base/Rows.antt =====
-- What holds of all rows of a table, looked up, updated and inserted.
use Prim.Native.String.{String}
use mathlib.Core.Path.{◌≡◌, subst, sym, ap}
use mathlib.Core.Logic.{inl, inr}
use mathlib.Core.Bool.{Bool, true, false}
use mathlib.Core.Option.{none, some, some-injective}
use mathlib.Core.List.{List, [], ◌∷◌, ◌++◌}
use native.Mathlib.Omega.{arith}
use text.Mathlib.Text.{◌==◌ as str_eq}
use text.Mathlib.TextEquality.{eq_iff}
use serein.Base.Tests.{Bool-cases, Option-cases, if◌then◌else◌}
use serein.Base.Lists.{All, All-append, keep_if}
use serein.Base.Table.{find_key, update_key, upsert_key}

module _ {ℓ} {A : Type ℓ} (key : A → String) where
  pub All-find_key {κ} :
      (P : A → Type κ) (k : String) (rows : List A) (r : A)
      → All P rows
      → find_key key k rows ≡ some r
      → P r
  unfolding find_key
  All-find_key P k [] r h e = cc
  All-find_key P k (x ∷ rows) r h e = elim (Bool-cases (str_eq (key x) k)) [
    | inl here ↦ subst P (some-injective x r (rw here at e)) h.0
    | inr there ↦ All-find_key P k rows r h.1 (rw there at e)
  ]

  pub All-update {κ} :
      (P : A → Type κ) (k : String) (p : A → Bool) (f : A → A) (rows : List A)
      → ((a : A) → find_key key k rows ≡ some a → p a ≡ true → P a → P (f a))
      → All P rows
      → All P (update_key key k p f rows)
  unfolding find_key update_key
  All-update P k p f [] g h = tt
  All-update P k p f (x ∷ rows) g h = elim (Bool-cases (str_eq (key x) k)) [
    | inl e ↦ elim (Bool-cases (p x)) [
      | inl q ↦ rw (e, q) (g x (rw e) q h.0, h.1)
      | inr q ↦ rw (e, q) h
    ]
    | inr e ↦ rw e (h.0, All-update P k p f rows (λ a found. g a (rw e found)) h.1)
  ]

  pub upsert_key_new :
      (r : A) (f : A → A) (rows : List A)
      → find_key key (key r) rows ≡ none
      → upsert_key key r f rows ≡ rows ++ r ∷ []
  upsert_key_new r f rows e = ground (arith, e)

  pub upsert_key_old :
      (r : A) (f : A → A) (rows : List A) (o : A)
      → find_key key (key r) rows ≡ some o
      → upsert_key key r f rows ≡ update_key key (key r) (λ _. true) f rows
  upsert_key_old r f rows o e = ground (arith, e)

  pub All-upsert_key {κ} :
      (P : A → Type κ) (r : A) (f : A → A) (rows : List A)
      → P r
      → ((a : A) → P a → P (f a))
      → All P rows
      → All P (upsert_key key r f rows)
  All-upsert_key P r f rows new g h = elim (Option-cases (find_key key (key r) rows)) [
    | inl e ↦ rw (upsert_key_new r f rows e) (All-append P rows (r ∷ []) h (new, tt))
    | inr (a, e) ↦
        rw (upsert_key_old r f rows a e)
          (All-update P (key r) (λ _. true) f rows (λ a _ _ p. g a p) h)
  ]

  -- A row that is found stays the one that is found when rows are added at the end, or when others are
  -- deleted.
  pub find_key-append_old :
      (k : String) (rows more : List A) (r : A)
      → find_key key k rows ≡ some r
      → find_key key k (rows ++ more) ≡ some r
  unfolding find_key
  find_key-append_old k [] more r h = cc
  find_key-append_old k (x ∷ rows) more r h = ground (arith, find_key-append_old k rows more r)

  pub find_key-keep_if_kept :
      (k : String) (q : A → Bool) (rows : List A) (r : A)
      → find_key key k rows ≡ some r
      → q r ≡ true
      → find_key key k (keep_if q rows) ≡ some r
  unfolding find_key
  find_key-keep_if_kept k q [] r h e = cc
  find_key-keep_if_kept k q (x ∷ rows) r h e = elim (Bool-cases (str_eq (key x) k)) [
    | inl here ↦
        let same : x ≡ r = some-injective x r (rw here at h) in
        let kept : q x ≡ true = subst (λ y. q y ≡ true) (sym same) e in
        rw (kept, here) (ap some same)
    | inr there ↦ elim (Bool-cases (q x)) [
      | inl kept ↦ rw (kept, there) (find_key-keep_if_kept k q rows r (rw there at h) e)
      | inr gone ↦ rw gone (find_key-keep_if_kept k q rows r (rw there at h) e)
    ]
  ]

  -- What an update by key leaves of a row.
  pub find_key-update :
      (j k : String) (f : A → A) (rows : List A) (r : A)
      → ((a : A) → key (f a) ≡ key a)
      → find_key key k rows ≡ some r
      → find_key key k (update_key key j (λ _. true) f rows) ≡ some (if str_eq j k then f r else r)
  unfolding find_key update_key
  find_key-update j k f [] r same h = cc
  find_key-update j k f (x ∷ rows) r same h = elim (Bool-cases (str_eq (key x) k)) [
    | inl here ↦
        let p : key x ≡ k = ground (arith, eq_iff (key x) k) in
        let q : x ≡ r = some-injective x r (rw here at h) in
        elim (Bool-cases (str_eq (key x) j)) [
          | inl e ↦
              let b : str_eq j k ≡ true = ground (arith, eq_iff (key x) j, eq_iff j k, p) in
              rw (e, same x, here, b) (ap (λ t. some (f t)) q)
          | inr e ↦
              let b : str_eq j k ≡ false = ground (arith, eq_iff (key x) j, eq_iff j k, p) in
              rw (e, here, b) (ap some q)
        ]
    | inr there ↦ elim (Bool-cases (str_eq (key x) j)) [
      | inl e ↦
          let b : str_eq j k ≡ false =
            ground (arith, eq_iff (key x) j, eq_iff j k, eq_iff (key x) k) in
          rw (e, same x, there, b) (rw there at h)
      | inr e ↦ rw (e, there) (find_key-update j k f rows r same (rw there at h))
    ]
  ]

  -- A row put under another key changes nothing here, and under this one is the row.
  pub find_key-upsert_ne :
      (k : String) (r : A) (f : A → A) (rows : List A) (o : A)
      → ((a : A) → key (f a) ≡ key a)
      → str_eq (key r) k ≡ false
      → find_key key k rows ≡ some o
      → find_key key k (upsert_key key r f rows) ≡ some o
  find_key-upsert_ne k r f rows o same ne h = elim (Option-cases (find_key key (key r) rows)) [
    | inl e ↦ rw (upsert_key_new r f rows e) (find_key-append_old k rows (r ∷ []) o h)
    | inr (a, e) ↦
        let found = find_key-update (key r) k f rows o same h in
        rw (upsert_key_old r f rows a e) (rw ne at found)
  ]
