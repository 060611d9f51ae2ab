-- ===== src/Risk/Permission/Matrix.antt =====
-- The matrix of modes, and the tool lists before it (backend/internal/session/message.go).
use serein.Base.{
  ◌≡◌, refl, Bool, true, false, not, String, List, [], ◌∷◌, contains, arith, str_eq, eq_iff, length,
  if◌then◌else◌, ◌==◌, Bool-cases, inl, inr, subst, ◌||◌, ◌&&◌,
}
use serein.Risk.Engine.{green_tools}
use serein.Risk.Permission.{
  Mode, default, accept_edits, bypass_permissions, plan, read_only, safe_yolo, yolo, other,
  needs_approval, auto_approve, auto_deny, is_write_tool, read_only_tools, evaluate_mode,
  evaluate_permission,
}

-- The tool lists exclude a tool.
abbrev pub is_excluded : String → List String → List String → Bool
is_excluded tool allowed disallowed =
    contains disallowed tool || (not (length allowed == 0) && not (contains allowed tool))

-- The modes that let a command of a risk and a tool through by themselves.
abbrev pub lets_through : Mode → String → Bool → Bool
lets_through bypass_permissions risk writes = true
lets_through yolo risk writes = true
lets_through safe_yolo risk writes = not (str_eq risk "red")
lets_through accept_edits risk writes = not (str_eq risk "red")
lets_through default risk writes = str_eq risk "green"
lets_through plan risk writes = not writes
lets_through read_only risk writes = not writes
lets_through (other _) risk writes = false

-- The modes that never ask.
abbrev pub never_asks : Mode → Bool
never_asks default = false
never_asks accept_edits = false
never_asks (other _) = false
never_asks _ = true

matrix :
    (mode : Mode) (risk tool : String)
    → evaluate_mode mode risk tool ≡ (
        if lets_through mode risk (is_write_tool tool)
        then auto_approve
        else if never_asks mode
        then auto_deny
        else needs_approval)
unfolding evaluate_mode
matrix default risk tool = ground arith
matrix accept_edits risk tool = ground arith
matrix bypass_permissions risk tool = refl
matrix plan risk tool = ground arith
matrix read_only risk tool = ground arith
matrix safe_yolo risk tool = ground arith
matrix yolo risk tool = refl
matrix (other _) risk tool = refl

-- The decision as a matrix: a tool that the lists exclude is denied in every mode; otherwise the call
-- is approved if the mode lets its risk or its tool through, and if not it is denied in the modes that
-- never ask, and waits for approval in the others.
pub evaluate_permission_lem :
    (mode : Mode) (risk tool : String) (allowed disallowed : List String)
    → evaluate_permission mode risk tool allowed disallowed ≡ (
        if is_excluded tool allowed disallowed
        then auto_deny
        else if lets_through mode risk (is_write_tool tool)
        then auto_approve
        else if never_asks mode
        then auto_deny
        else needs_approval)
unfolding evaluate_permission
evaluate_permission_lem mode risk tool allowed disallowed = ground (arith, matrix mode risk tool)

abbrev is_subset : List String → List String → Bool
is_subset [] ys = true
is_subset (x ∷ xs) ys = contains ys x && is_subset xs ys

contains_subset :
    (xs ys : List String) (t : String)
    → is_subset xs ys ≡ true
    → contains xs t ≡ true
    → contains ys t ≡ true
unfolding contains
contains_subset [] ys t h k = absurd (ground (arith, k))
contains_subset (x ∷ xs) ys t h k = elim (Bool-cases (str_eq x t)) [
  | inl e ↦
      let same : x ≡ t = ground (arith, eq_iff x t) in
      subst (λ u. contains ys u ≡ true) same (ground (arith, h))
  | inr e ↦ contains_subset xs ys t (ground (arith, h)) (ground (arith, e, k))
]

subset : is_subset read_only_tools green_tools ≡ true
unfolding contains
subset = refl

superset : is_subset green_tools read_only_tools ≡ true
unfolding contains
superset = refl

-- The list of read-only tools here and the fast lane of the risk engine are the same set of tools.
pub write_tool_sync : (tool : String) → is_write_tool tool ≡ not (contains green_tools tool)
unfolding is_write_tool
write_tool_sync tool = ground (
  arith,
  contains_subset read_only_tools green_tools tool subset,
  contains_subset green_tools read_only_tools tool superset,
)
