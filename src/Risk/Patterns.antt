-- ===== src/Risk/Patterns.antt =====
-- backend/internal/store/blacklist_repo.go and whitelist_repo.go, which are one text but for the name
-- of the table. `regexp` is a parameter: a pattern compiles, to its test on commands, or does not.
use serein.Base.{
  ℕ, suc, Bool, false, not, Option, none, some, String, List, [], ◌∷◌, ◌++◌, str_eq, leb, ltb, ◌==◌,
  if◌then◌else◌, keep_if, order_by, length, any,
}

abbrev pub Regexp : Type 0
Regexp = String → Option (String → Bool)

-- A row of the table `blacklist` or `whitelist`.
pub record Entry : Type 0 where
  pub id : ℕ
  pub pattern : String
  pub description : String
  pub created_at : ℕ

-- The rows, and the largest id that was ever given (AUTOINCREMENT).
pub record Table : Type 0 where
  pub entries : List Entry
  pub last_id : ℕ

-- `none` is the error of a duplicate pattern (UNIQUE).
unfoldable pub add : String → String → ℕ → Table → Option Entry × Table
add pattern description now t =
    let e : Entry = record {
      id = suc t.last_id;
      pattern = pattern;
      description = description;
      created_at = now;
    } in
    if any (λ o. str_eq o.pattern pattern) t.entries
    then (none, t)
    else (some e, record { entries = t.entries ++ e ∷ []; last_id = suc t.last_id })

unfoldable pub remove : ℕ → Table → Bool × Table
remove id t = (
  ltb 0 (length (keep_if (λ e. e.id == id) t.entries)),
  record t { entries = keep_if (λ e. not (e.id == id)) t.entries },
)

-- `ORDER BY id`
unfoldable pub list : Table → List Entry
list t = order_by (λ a b. leb a.id b.id) t.entries

module _ (compile : Regexp) where
  -- A pattern that does not compile matches nothing.
  unfoldable pub pattern_matches : String → String → Bool
  pattern_matches pattern cmd = elim (compile pattern) [ none ↦ false | some test ↦ test cmd ]

  abbrev pub name : Entry → String
  name e = if str_eq e.description "" then e.pattern else e.description

  unfoldable pub first_match : List Entry → String → Option String
  first_match [] cmd = none
  first_match (e ∷ es) cmd =
      if pattern_matches e.pattern cmd then some (name e) else first_match es cmd

  -- `Match`
  unfoldable pub match_command : Table → String → Option String
  unfolding list first_match
  match_command t cmd = first_match (list t) cmd
