-- ===== src/Risk/Reload.antt =====
-- The rules exported and loaded again (backend/internal/risk/rules.go).
use serein.Base.{
  ◌≡◌, refl, sym, subst, ◌≢◌, Bool, none, some, String, List, [], ◌∷◌, arith, Option-cases, inl,
  inr,
}
use serein.Risk.Patterns.{Regexp}
use serein.Risk.Rules.{
  RuleEntry, Rule, RulesFile, RuleSet, rule_of, rules_to_entries, rule_set_to_file, compile_rules,
  merge_compile, reload,
}

module _ (compile : Regexp) where
  -- The rules of a list were compiled: each one's test is that of its pattern.
  abbrev pub IsCompiled : List Rule → Type 0
  IsCompiled [] = Unit
  IsCompiled (r ∷ rs) = (compile r.pattern ≡ some r.test) × IsCompiled rs

  compile_rules_valid :
      (e : RuleEntry) (es : List RuleEntry) (test : String → Bool)
      → compile e.pattern ≡ some test
      → compile_rules compile (e ∷ es) ≡ rule_of e test ∷ compile_rules compile es
  unfolding compile_rules
  compile_rules_valid e es test h = ground (arith, h)

  compile_rules_invalid :
      (e : RuleEntry) (es : List RuleEntry)
      → compile e.pattern ≡ none
      → compile_rules compile (e ∷ es) ≡ compile_rules compile es
  unfolding compile_rules
  compile_rules_invalid e es h = ground (arith, h)

  compile_rules-IsCompiled : (es : List RuleEntry) → IsCompiled (compile_rules compile es)
  unfolding compile_rules
  compile_rules-IsCompiled [] = tt
  compile_rules-IsCompiled (e ∷ es) = elim (Option-cases (compile e.pattern)) [
    | inl h ↦ subst IsCompiled (sym (compile_rules_invalid e es h)) (compile_rules-IsCompiled es)
    | inr (test, h) ↦
        subst IsCompiled (sym (compile_rules_valid e es test h)) (h, compile_rules-IsCompiled es)
  ]

  merge_compile-IsCompiled :
      (es : List RuleEntry) (ds : List Rule)
      → IsCompiled ds
      → IsCompiled (merge_compile compile es ds)
  unfolding merge_compile
  merge_compile-IsCompiled [] ds h = h
  merge_compile-IsCompiled (e ∷ es) ds h = compile_rules-IsCompiled (e ∷ es)

  compile_rules-entries :
      (rs : List Rule) → IsCompiled rs → compile_rules compile (rules_to_entries rs) ≡ rs
  unfolding compile_rules
  compile_rules-entries [] h = refl
  compile_rules-entries (r ∷ rs) h = rw (h.0, compile_rules-entries rs h.1) refl

  abbrev or_default : List Rule → List Rule → List Rule
  or_default [] ds = ds
  or_default (r ∷ rs) ds = r ∷ rs

  -- A list that is exported and merged again is itself, unless it is empty: then it is the default.
  merge_compile-entries :
      (rs ds : List Rule)
      → IsCompiled rs
      → merge_compile compile (rules_to_entries rs) ds ≡ or_default rs ds
  unfolding merge_compile
  merge_compile-entries [] ds h = refl
  merge_compile-entries (r ∷ rs) ds h = compile_rules-entries (r ∷ rs) h

  merge_compile_again :
      (es : List RuleEntry) (ds : List Rule)
      → IsCompiled ds
      → merge_compile compile es ds ≢ []
      → merge_compile compile (rules_to_entries (merge_compile compile es ds)) ds
        ≡ merge_compile compile es ds
  merge_compile_again es ds h ne =
      go (merge_compile compile es ds) (merge_compile-IsCompiled es ds h) ne
    where
      go :
          (rs : List Rule)
          → IsCompiled rs
          → rs ≢ []
          → merge_compile compile (rules_to_entries rs) ds ≡ rs
      go [] c n = absurd (n refl)
      go (r ∷ rs) c n = merge_compile-entries (r ∷ rs) ds c

  -- The rules that a document has put in force, exported and loaded again, are the same rules, when
  -- none of the four lists is empty. (A list is empty when every pattern in it was invalid; the
  -- defaults come back then.)
  pub reload-export :
      (f : RulesFile) (defaults : RuleSet)
      → IsCompiled defaults.green
      → IsCompiled defaults.yellow
      → IsCompiled defaults.red
      → IsCompiled defaults.blacklist
      → (reload compile f defaults).green ≢ []
      → (reload compile f defaults).yellow ≢ []
      → (reload compile f defaults).red ≢ []
      → (reload compile f defaults).blacklist ≢ []
      → reload compile (rule_set_to_file (reload compile f defaults)) defaults
        ≡ reload compile f defaults
  unfolding reload rule_set_to_file
  reload-export f defaults g y r b g' y' r' b' =
      rw
        (
          merge_compile_again f.green defaults.green g g',
          merge_compile_again f.yellow defaults.yellow y y',
          merge_compile_again f.red defaults.red r r',
          merge_compile_again f.blacklist defaults.blacklist b b',
        )
        refl
