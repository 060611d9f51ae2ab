-- ===== src/Relay/Output.antt =====
-- backend/internal/api/agent_relay.go: `sanitizeOutput`, with the keys that it allows. `regexp` is a
-- parameter.
pub mod Depth
use Prim.Native.Char.{code}
use serein.Base.{
  ℕ, suc, ◌+◌, ◌*◌, ℤ, pos, negsuc, Bool, true, false, not, ◌&&◌, ◌||◌, Option, none, some, String,
  List, [], ◌∷◌, str_eq, ltb, leb, ◌==◌, len, if◌then◌else◌, contains, any,
}
use serein.Risk.Patterns.{Regexp, pattern_matches}
use serein.Relay.Json.{
  Json, null, nil_map, bool, number, text, array, object, Items, nil, cons, Fields, end, field,
  count, size, lookup,
}

abbrev pub max_project_len : ℕ
max_project_len = 100

abbrev pub max_sanitize_depth : ℕ
max_sanitize_depth = 10

-- The keys by the type that they ask for.
abbrev pub text_keys : List String
text_keys =
    "status" ∷ "message" ∷ "error" ∷ "project" ∷ "cmd_id" ∷ "path" ∷ "filename" ∷ "stdout"
    ∷ "stderr" ∷ "context" ∷ "session" ∷ "agent_type" ∷ []

abbrev pub bool_keys : List String
bool_keys = "_heartbeat" ∷ "success" ∷ "ok" ∷ "killed" ∷ "relay_started" ∷ []

abbrev pub number_keys : List String
number_keys = "cpu" ∷ "returncode" ∷ []

abbrev pub map_keys : List String
map_keys = "sysinfo" ∷ "memory" ∷ "disk" ∷ "tokens" ∷ "gpu" ∷ "details" ∷ "projects" ∷ []

abbrev pub array_keys : List String
array_keys = "running" ∷ "agent_types" ∷ "killed_pids" ∷ []

abbrev is_text : Json → Bool
is_text (text _) = true
is_text _ = false

abbrev is_bool : Json → Bool
is_bool (bool _) = true
is_bool _ = false

abbrev is_number : Json → Bool
is_number (number _ _) = true
is_number _ = false

abbrev is_map : Json → Bool
is_map (object _) = true
is_map nil_map = true
is_map _ = false

abbrev is_array : Json → Bool
is_array (array _) = true
is_array _ = false

-- The fields of a value of the type of maps; a nil map has none.
abbrev fields_of : Json → Option Fields
fields_of (object fs) = some fs
fields_of nil_map = some end
fields_of _ = none

abbrev with_text : (String → Bool) → Json → Bool
with_text p (text s) = p s
with_text p _ = false

abbrev with_fields : (Fields → Bool) → Option Fields → Bool
with_fields p none = false
with_fields p (some fs) = p fs

abbrev is_project : String → Bool
is_project s = not (str_eq s "" || ltb max_project_len (len s))

-- `count < 1 || count > 100000`
abbrev is_thread_count : Json → Bool
is_thread_count (number (pos n) d) = not (ltb n (suc d) || ltb (100_000 + 100_000 * d) n)
is_thread_count _ = false

abbrev is_available : Json → Bool
is_available (bool b) = b
is_available _ = false

abbrev is_desktop : Json → Bool
is_desktop v =
    with_fields
      (λ fs. is_available (lookup "available" fs) && is_thread_count (lookup "thread_count" fs))
      (fields_of v)

abbrev all_fields : (String → Json → Bool) → Fields → Bool
all_fields p end = true
all_fields p (field k v fs) = p k v && all_fields p fs

abbrev all_items : (Json → Bool) → Items → Bool
all_items p nil = true
all_items p (cons v vs) = p v && all_items p vs

-- `strings.ContainsAny(s, "?#@")`
abbrev has_mark : String → Bool
has_mark String.[] = false
has_mark (String.◌∷◌ c s) = code c == b'?' || code c == b'#' || code c == b'@' || has_mark s

abbrev is_remote : Json → Bool
is_remote = with_text (λ s. not (ltb 500 (len s)) && not (has_mark s))

abbrev are_remotes : Json → Bool
are_remotes (array vs) = not (ltb 20 (count vs)) && all_items is_remote vs
are_remotes _ = false

module _ (compile : Regexp) where
  unfoldable pub is_safe_work_scope : String → Bool
  is_safe_work_scope = pattern_matches compile "^[A-Za-z0-9._:/-]{1,500}$"

  unfoldable pub is_uuid : String → Bool
  is_uuid =
      pattern_matches compile
        "(?i)^[0-9a-f]{8}-[0-9a-f]{4}-[1-5][0-9a-f]{3}-[89ab][0-9a-f]{3}-[0-9a-f]{12}$"

  abbrev is_collaboration : Json → Bool
  is_collaboration v =
      with_fields
        (λ fs.
          with_text is_uuid (lookup "agent_session_id" fs)
          && with_text (λ s. str_eq s "codex" || str_eq s "claude") (lookup "agent_type" fs)
          && with_text is_project (lookup "project" fs)
          && with_text (λ s. not (ltb 64 (len s))) (lookup "updated_at" fs))
        (fields_of v)

  -- `allowedOutputKeys`: whether the key is known and its value is of the right kind.
  unfoldable pub is_allowed : String → Json → Bool
  is_allowed key v =
      if contains text_keys key
      then is_text v
      else if contains bool_keys key
      then is_bool v
      else if contains number_keys key
      then is_number v
      else if contains map_keys key
      then is_map v
      else if contains array_keys key
      then is_array v
      else if str_eq key "runtime_mode"
      then with_text (λ s. str_eq s "cli" || str_eq s "desktop") v
      else if str_eq key "work_scope"
      then with_text (λ s. str_eq s "" || is_safe_work_scope s) v
      else if str_eq key "agent_session_id"
      then with_text (λ s. str_eq s "" || is_uuid s) v
      else if str_eq key "desktop_projects"
      then with_fields (all_fields (λ k w. is_project k && is_desktop w)) (fields_of v)
      else if str_eq key "git_remotes"
      then with_fields (all_fields (λ k w. is_project k && are_remotes w)) (fields_of v)
      else if str_eq key "collaboration_sessions"
      then with_fields
          (λ fs.
            not (ltb 500 (size fs))
            && all_fields (λ k w. is_safe_work_scope k && is_collaboration w) fs)
          (fields_of v)
      else false

  -- Below the top every value that the decoder makes is valid.
  unfoldable pub keeps : ℕ → String → Json → Bool
  keeps d key v = if d == 0 then is_allowed key v else true

  -- `sanitizeOutput` at a depth: its loop, and the call for a value that is a map, which gives a nil map
  -- at the greatest depth.
  unfoldable mutual
    pub clean_fields : ℕ → Fields → Fields
    clean_fields d end = end
    clean_fields d (field k v fs) =
        let rest = clean_fields d fs in if keeps d k v then field k (clean_value d v) rest else rest

    pub clean_value : ℕ → Json → Json
    clean_value d null = null
    clean_value d nil_map = nil_map
    clean_value d (bool b) = bool b
    clean_value d (number n m) = number n m
    clean_value d (text s) = text s
    clean_value d (array vs) = array vs
    clean_value d (object fs) =
        let inner = clean_fields (suc d) fs in
        if leb max_sanitize_depth (suc d) then nil_map else object inner

  unfoldable pub sanitize_output : Option Fields → Option Fields
  sanitize_output none = none
  sanitize_output (some output) = some (clean_fields 0 output)
