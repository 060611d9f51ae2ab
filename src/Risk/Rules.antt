-- ===== src/Risk/Rules.antt =====
-- backend/internal/risk/rules.go: the rules that can be replaced while the server runs, and the
-- built-in ones of engine.go. The JSON document is its value, `RulesFile`.
mod Defaults
pub use Defaults.*
use serein.Base.{Bool, Option, none, some, String, List, [], ◌∷◌, map, length, ◌==◌, if◌then◌else◌}
use serein.Risk.Patterns.{Regexp}

-- A compiled regular expression keeps its text (`String`).
pub record Rule : Type 0 where
  pub pattern : String
  pub test : String → Bool
  pub desc : String

pub record RulesFile : Type 0 where
  pub green : List RuleEntry
  pub yellow : List RuleEntry
  pub red : List RuleEntry
  pub blacklist : List RuleEntry

pub record RuleSet : Type 0 where
  pub green : List Rule
  pub yellow : List Rule
  pub red : List Rule
  pub blacklist : List Rule

abbrev pub rule_of : RuleEntry → (String → Bool) → Rule
rule_of e test = record { pattern = e.pattern; test = test; desc = e.description }

abbrev pub rules_to_entries : List Rule → List RuleEntry
rules_to_entries rs = map (λ r. record { pattern = r.pattern; description = r.desc }) rs

-- `Export`, of the rules in force.
unfoldable pub rule_set_to_file : RuleSet → RulesFile
rule_set_to_file rs = record {
  green = rules_to_entries rs.green;
  yellow = rules_to_entries rs.yellow;
  red = rules_to_entries rs.red;
  blacklist = rules_to_entries rs.blacklist;
}

module _ (compile : Regexp) where
  -- An invalid pattern is skipped.
  unfoldable pub compile_rules : List RuleEntry → List Rule
  compile_rules [] = []
  compile_rules (e ∷ es) =
      let rest = compile_rules es in
      elim (compile e.pattern) [ none ↦ rest | some test ↦ rule_of e test ∷ rest ]

  -- The defaults are compiled by `mustCompile`, which panics on an invalid pattern: `none`.
  unfoldable pub must_compile : List RuleEntry → Option (List Rule)
  must_compile [] = some []
  must_compile (e ∷ es) =
      let rest = must_compile es in
      elim (compile e.pattern) [
        | none ↦ none
        | some test ↦ elim rest [ none ↦ none | some rs ↦ some (rule_of e test ∷ rs) ]
      ]

  unfoldable pub merge_compile : List RuleEntry → List Rule → List Rule
  unfolding compile_rules
  merge_compile [] defaults = defaults
  merge_compile (e ∷ es) defaults = compile_rules (e ∷ es)

  -- `Reload`, behind the parsing of the document.
  unfoldable pub reload : RulesFile → RuleSet → RuleSet
  unfolding merge_compile
  reload f defaults = record {
    green = merge_compile f.green defaults.green;
    yellow = merge_compile f.yellow defaults.yellow;
    red = merge_compile f.red defaults.red;
    blacklist = merge_compile f.blacklist defaults.blacklist;
  }
