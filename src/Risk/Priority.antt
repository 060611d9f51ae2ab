-- ===== src/Risk/Priority.antt =====
-- The order in which `Classify` (backend/internal/risk/engine.go) asks its sources.
use serein.Base.{
  ℕ, ◌≡◌, refl, sym, subst, ◌∙◌, ap, ◌⊎◌, inl, inr, Bool, true, false, not, ◌&&◌, ◌||◌, Option,
  none, some, String, List, [], ◌∷◌, ◌++◌, str_eq, eq_iff, eq_refl, contains, arith, if◌then◌else◌,
  Bool-cases, any,
}
use serein.Risk.Patterns.{Regexp}
use serein.Risk.Memo.{SessionMemo, is_memo, is_known, remember, forget_session}
use serein.Risk.Rules.{Rule, RuleSet}
use serein.Risk.Engine.{
  green, yellow, red, green_tools, yellow_tools, match_rules, Engine, match_table, is_remembered,
  classify_rules, classify,
}

-- A tool that is neither read-only nor an editor, with a command.
abbrev pub is_command : String → String → Bool
is_command tool cmd =
    not (contains green_tools tool) && not (contains yellow_tools tool) && not (str_eq cmd "")

abbrev pub is_some : {A : Type 0} → Option A → Bool
is_some none = false
is_some (some _) = true

-- Some rule of the list applies: the first that matches has a description.
abbrev pub applies : List Rule → String → Bool
applies rs cmd = not (str_eq (match_rules rs cmd) "")

abbrev pub all_described : List Rule → Bool
all_described [] = true
all_described (r ∷ rs) = not (str_eq r.desc "") && all_described rs

-- Every rule has a description.
abbrev pub are_described : RuleSet → Bool
are_described rs =
    all_described rs.green
    && all_described rs.yellow
    && all_described rs.red
    && all_described rs.blacklist

abbrev pub some_match : List Rule → String → Bool
some_match rs cmd = any (λ r. r.test cmd) rs

-- Where every rule has a description, a list applies exactly if one of its rules matches.
applies-some_match :
    (rs : List Rule) (cmd : String) → all_described rs ≡ true → applies rs cmd ≡ some_match rs cmd
unfolding match_rules
applies-some_match [] cmd d = refl
applies-some_match (r ∷ rs) cmd d = ground (arith, applies-some_match rs cmd)

module _ (compile : Regexp) (hash : String → String) (e : Engine) (session tool cmd : String) where
  -- A blacklist stops the command: an entry of the table matches it, or the first of the blacklist rules
  -- that matches it has a description.
  abbrev pub is_blacklisted : Bool
  is_blacklisted =
      is_some (match_table compile hash e.blacklist cmd) || applies e.rules.blacklist cmd

  -- What the session or the whitelist have let through.
  abbrev pub is_trusted : Bool
  is_trusted =
      is_remembered compile hash e.session session cmd
      || is_some (match_table compile hash e.whitelist cmd)

  -- The level of a call whose tool is neither read-only nor an editor and whose command is not
  -- empty, in one formula: the blacklists come first, then what the session or the whitelist
  -- trusts, then the red, yellow and green rules; and what none of them knows is yellow.
  pub classify-level :
      is_command tool cmd ≡ true
      → (classify compile hash e session tool cmd).0 ≡ (
          if is_blacklisted
          then red
          else if is_trusted
          then green
          else if applies e.rules.red cmd
          then red
          else if applies e.rules.yellow cmd
          then yellow
          else if applies e.rules.green cmd
          then green
          else yellow)
  unfolding classify classify_rules
  classify-level h = ground arith

  -- The level of a call whose tool alone decides, or that has no command.
  classify-tool :
      is_command tool cmd ≡ false
      → (classify compile hash e session tool cmd).0
        ≡ (if contains green_tools tool then green else yellow)
  unfolding classify
  classify-tool h = ground arith

  green_sources :
      (classify compile hash e session tool cmd).0 ≡ green
      → (contains green_tools tool ≡ true)
        ⊎ ((is_blacklisted ≡ false)
            × ((is_trusted ≡ true)
                ⊎ ((applies e.rules.red cmd ≡ false)
                    × (applies e.rules.yellow cmd ≡ false)
                    × (applies e.rules.green cmd ≡ true))))
  green_sources g = elim (Bool-cases (is_command tool cmd)) [
    | inl h ↦ ground (arith, classify-level h)
    | inr h ↦ ground (arith, classify-tool h)
  ]

  -- Why a call is green, when every rule has a description: its tool is read-only; or no entry of the
  -- blacklist table and no blacklist rule matches its command, and the session or an entry of the
  -- whitelist trusts it, or a green rule matches it and no red and no yellow one.
  pub green_reasons :
      are_described e.rules ≡ true
      → (classify compile hash e session tool cmd).0 ≡ green
      → (contains green_tools tool ≡ true)
        ⊎ ((is_some (match_table compile hash e.blacklist cmd) ≡ false)
            × (some_match e.rules.blacklist cmd ≡ false)
            × ((is_trusted ≡ true)
                ⊎ ((some_match e.rules.red cmd ≡ false)
                    × (some_match e.rules.yellow cmd ≡ false)
                    × (some_match e.rules.green cmd ≡ true))))
  green_reasons d g = elim (green_sources g) [
    | inl reads ↦ inl reads
    | inr (clear, why) ↦
        let no_entry : is_some (match_table compile hash e.blacklist cmd) ≡ false =
          ground (arith, clear) in
        let no_rule : applies e.rules.blacklist cmd ≡ false = ground (arith, clear) in
        let none_matches =
          sym (applies-some_match e.rules.blacklist cmd (ground (arith, d))) ∙ no_rule in
        inr (
          no_entry,
          none_matches,
          elim why [
            | inl trusted ↦ inl trusted
            | inr (red', yellow', green') ↦ inr (
              sym (applies-some_match e.rules.red cmd (ground (arith, d))) ∙ red',
              sym (applies-some_match e.rules.yellow cmd (ground (arith, d))) ∙ yellow',
              sym (applies-some_match e.rules.green cmd (ground (arith, d))) ∙ green',
            )
          ],
        )
  ]

module _ (hash : String → String) where
  is_memo_self :
      (s c : String) (now : ℕ) (sample : String)
      → is_memo s (hash c) (record {
        session_id = s;
        command_hash = hash c;
        command_sample = sample;
        created_at = now;
      })
        ≡ true
  is_memo_self s c now sample = ground (arith, eq_refl s, eq_refl (hash c))

  any-append :
      (p : SessionMemo → Bool) (xs : List SessionMemo) (m : SessionMemo)
      → any p (xs ++ m ∷ []) ≡ (any p xs || p m)
  any-append p [] m = ground arith
  any-append p (x ∷ xs) m = ground (arith, any-append p xs m)

  same_memo :
      (s c s' c' : String) (memos : List SessionMemo)
      → is_known hash s c memos ≡ true
      → is_known hash s' c' memos
        ≡ (is_known hash s' c' memos || (str_eq s s' && str_eq (hash c) (hash c')))
  unfolding is_known
  same_memo s c s' c' memos known = elim (Bool-cases (str_eq s s' && str_eq (hash c) (hash c'))) [
    | inl same ↦
        let ps : s ≡ s' = ground (arith, eq_iff s s') in
        let pc : hash c ≡ hash c' = ground (arith, eq_iff (hash c) (hash c')) in
        ground (
          arith,
          subst (λ t. any (is_memo t (hash c')) memos ≡ true) ps
              (subst (λ t. any (is_memo s t) memos ≡ true) pc known),
        )
    | inr ne ↦ ground (arith, ne)
  ]

  -- What a session remembers after `Remember`, asked of any session and command: what it did before,
  -- and in that session the commands with the same hash.
  pub is_known-remember :
      (s c : String) (now : ℕ) (memos : List SessionMemo) (s' c' : String)
      → is_known hash s' c' (remember hash s c now memos)
        ≡ (is_known hash s' c' memos || (str_eq s s' && str_eq (hash c) (hash c')))
  unfolding is_known remember
  is_known-remember s c now memos s' c' = elim (Bool-cases (is_known hash s c memos)) [
    | inl known ↦ rw known (same_memo s c s' c' memos known)
    | inr new ↦
        rw new (
          any-append (is_memo s' (hash c')) memos _ ∙ ap (λ b. is_known hash s' c' memos || b) refl)
  ]

  -- A session that was forgotten remembers nothing, and the others what they did.
  pub is_known-forget :
      (s : String) (memos : List SessionMemo) (s' c : String)
      → is_known hash s' c (forget_session s memos)
        ≡ (not (str_eq s' s) && is_known hash s' c memos)
  unfolding is_known forget_session
  is_known-forget s [] s' c = ground arith
  is_known-forget s (m ∷ memos) s' c = ground (
    arith,
    eq_iff m.session_id s,
    eq_iff m.session_id s',
    eq_iff s' s,
    is_known-forget s memos s' c,
  )
