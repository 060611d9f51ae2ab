-- ===== src/Base/Text.antt =====
-- Go's strings: `strings.TrimSpace`, `strings.ToLower` and membership in a list of strings. A text
-- is the sequence of its code points; `len` and `slice` count the bytes of its UTF-8.
use Prim.Native.Nat.{ℕ, ◌+◌}
use Prim.Native.Char.{code}
use Prim.Native.String.{String}
use mathlib.Core.Bool.{Bool, true, false, ◌||◌, ◌&&◌}
use mathlib.Core.List.{List, [], ◌∷◌}
use text.Mathlib.Text.{◌==◌ as str_eq}
use serein.Base.Tests.{leb, ◌==◌, if◌then◌else◌}

-- `unicode.IsSpace`: White_Space of Unicode.
pub is_space : ℕ → Bool
is_space c =
    (leb 9 c && leb c 13)
    || c == 32
    || c == 0x85
    || c == 0xA0
    || c == 0x1680
    || (leb 0x2000 c && leb c 0x200A)
    || c == 0x2028
    || c == 0x2029
    || c == 0x202F
    || c == 0x205F
    || c == 0x3000

trim_left : String → String
trim_left String.[] = String.[]
trim_left (String.◌∷◌ c s) =
    let rest = trim_left s in if is_space (code c) then rest else String.◌∷◌ c s

is_empty : String → Bool
is_empty String.[] = true
is_empty (String.◌∷◌ c s) = false

trim_right : String → String
trim_right String.[] = String.[]
trim_right (String.◌∷◌ c s) =
    let rest = trim_right s in
    if is_space (code c) && is_empty rest then String.[] else String.◌∷◌ c rest

-- `strings.TrimSpace`.
unfoldable pub trim_space : String → String
unfolding trim_left trim_right is_space is_empty
trim_space s = trim_right (trim_left s)

-- `unicode.ToLower`, on the letters that it takes to an ASCII letter: the Latin capitals, the
-- Kelvin sign and the dotted capital I.
lower : ℕ → ℕ
lower c =
    if leb b'A' c && leb c b'Z'
    then c + 32
    else if c == 0x212A
    then b'k'
    else if c == 0x130
    then b'i'
    else c

-- The code points of a text in lower case, as far as a comparison with an ASCII text sees it.
lower_codes : String → List ℕ
unfolding lower
lower_codes String.[] = []
lower_codes (String.◌∷◌ c s) = lower (code c) ∷ lower_codes s

codes_eq : List ℕ → List ℕ → Bool
codes_eq [] [] = true
codes_eq (a ∷ x) (b ∷ y) = a == b && codes_eq x y
codes_eq _ _ = false

-- `strings.EqualFold(s, t)` and `strings.ToLower(s) == t`, for an ASCII constant `t` in lower case
-- (the first also without `i`, `k` and `s`, where case folding and lower case differ).
unfoldable pub equal_fold : String → String → Bool
unfolding lower_codes codes_eq
equal_fold s t = codes_eq (lower_codes s) (lower_codes t)

-- The loop of `contains` and `containsCapability`.
unfoldable pub contains : List String → String → Bool
contains [] v = false
contains (x ∷ xs) v = str_eq x v || contains xs v

-- `strings.HasPrefix(s, prefix)`
unfoldable pub has_prefix : String → String → Bool
has_prefix String.[] s = true
has_prefix (String.◌∷◌ c prefix) String.[] = false
has_prefix (String.◌∷◌ c prefix) (String.◌∷◌ d s) = code c == code d && has_prefix prefix s

-- `strings.Contains(s, part)`
unfoldable pub has_substring : String → String → Bool
unfolding has_prefix
has_substring String.[] part = has_prefix part String.[]
has_substring (String.◌∷◌ c s) part =
    let rest = has_substring s part in has_prefix part (String.◌∷◌ c s) || rest
