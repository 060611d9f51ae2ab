-- ===== src/Remote/Capability.antt =====
-- The pure functions of backend/internal/remote/service.go: the checks of the capabilities that a
-- host reports and that a phone asks for, and the text of an end reason.
pub mod Requests
pub mod Reasons
use Prim.Native.Char.{code}
use serein.Base.{
  ℕ, Bool, true, false, not, ◌&&◌, ◌||◌, String, len, slice, List, [], ◌∷◌, ltb, leb, ◌==◌,
  if◌then◌else◌, str_eq, trim_space, equal_fold, length, any, ℤ, pos, negsuc, Option, none, some,
}
use serein.Remote.Model.{HostCapabilities}
use serein.Remote.World.{Error, message, invalid_capability, Result, ok, err}

abbrev pub capability_view : String
capability_view = "view"

abbrev pub capability_input : String
capability_input = "input"

-- `ProtocolVersion` is 1; the monitors are 0 to 32.
abbrev is_protocol_version : ℤ → Bool
is_protocol_version (pos n) = n == 1
is_protocol_version (negsuc n) = false

abbrev is_monitor_count : ℤ → Bool
is_monitor_count (pos n) = leb n 32
is_monitor_count (negsuc n) = false

abbrev is_bad_item : String → Bool
is_bad_item item = str_eq (trim_space item) "" || ltb 64 (len item)

check_group : List String → Option Error
check_group group =
    if ltb 16 (length group)
    then some (message "too many remote host capabilities")
    else if any is_bad_item group
    then some (message "invalid remote host capability")
    else none

check_groups : List (List String) → Option Error
unfolding check_group
check_groups [] = none
check_groups (g ∷ gs) =
    let rest = check_groups gs in elim (check_group g) [ some x ↦ some x | none ↦ rest ]

unfoldable pub validate_host_capabilities : HostCapabilities → Option Error
unfolding check_groups
validate_host_capabilities c =
    if not (is_protocol_version c.protocol_version) || not (is_monitor_count c.monitors)
    then some (message "unsupported remote host capabilities")
    else check_groups (c.capture ∷ c.video_codecs ∷ c.transports ∷ c.input ∷ [])

abbrev is_positive : ℤ → Bool
is_positive (pos n) = ltb 0 n
is_positive (negsuc n) = false

unfoldable pub host_supports_view : HostCapabilities → Bool
host_supports_view c =
    if not (is_positive c.monitors) || length c.capture == 0
    then false
    else any (λ codec. equal_fold codec "h264") c.video_codecs
      && any (λ transport. equal_fold transport "webrtc") c.transports

unfoldable pub host_supports_input : HostCapabilities → Bool
host_supports_input c =
    any (λ v. equal_fold (trim_space v) "pointer") c.input
    && any (λ v. equal_fold (trim_space v) "keyboard") c.input

-- The loop over the values, with `seen` for the two known capabilities.
pub record Seen : Type 0 where
  pub view : Bool
  pub input : Bool

abbrev pub already : String → Seen → Bool
already v seen = if str_eq v capability_view then seen.view else seen.input

abbrev pub mark : String → Seen → Seen
mark v seen =
    if str_eq v capability_view then record seen { view = true } else record seen { input = true }

unfoldable pub collect : List String → Seen → Option Seen
collect [] seen = some seen
collect (x ∷ xs) seen =
    let v = trim_space x in
    let rest = collect xs (mark v seen) in
    if not (str_eq v capability_view || str_eq v capability_input) || already v seen
    then none
    else rest

unfoldable pub canonical : Option Seen → Result (List String)
canonical none = err invalid_capability
canonical (some seen) =
    if not seen.view
    then err invalid_capability
    else ok (capability_view ∷ (if seen.input then capability_input ∷ [] else []))

unfoldable pub normalize_requested_capabilities : List String → Result (List String)
unfolding collect canonical
normalize_requested_capabilities [] = ok (capability_view ∷ [])
normalize_requested_capabilities (x ∷ xs) =
    canonical (collect (x ∷ xs) (record { view = false; input = false }))

-- The characters of an end reason.
abbrev pub is_reason_char : ℕ → Bool
is_reason_char c =
    c == b'_'
    || c == b'-'
    || c == b'.'
    || (leb b'a' c && leb c b'z')
    || (leb b'A' c && leb c b'Z')
    || (leb b'0' c && leb c b'9')

unfoldable pub is_reason : String → Bool
is_reason String.[] = true
is_reason (String.◌∷◌ c s) = is_reason_char (code c) && is_reason s

-- `value[:64]` may cut a character in two. What is left of it then is no allowed character, and the
-- loop returns the fallback; `slice` leaves such a character out, so its length shows the cut.
abbrev pub cut_reason : String → String → String
cut_reason value fallback =
    if ltb 64 (len value)
    then if len (slice value 0 64) == 64 && is_reason (slice value 0 64)
      then slice value 0 64
      else fallback
    else if is_reason value
    then value
    else fallback

unfoldable pub normalize_end_reason : String → String → String
unfolding is_reason
normalize_end_reason value fallback =
    let trimmed = trim_space value in
    cut_reason (if str_eq trimmed "" then fallback else trimmed) fallback
