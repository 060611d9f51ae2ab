-- ===== src/Remote/Tickets/Format.antt =====
-- The text of a ticket, `strings.Split(token, ".")` into two parts, and the comparisons of a
-- ticket's role and revision with those that a caller presents.
use Prim.Native.Char.{Char, code}
use serein.Base.{
  ℕ, Bool, true, false, Option, none, some, String, List, [], ◌∷◌, str_eq, ◌==◌, if◌then◌else◌, ℤ,
  pos, negsuc,
}
use serein.Remote.Model.{Role, controller, host, other}

abbrev pub role_eq : Role → Role → Bool
role_eq controller controller = true
role_eq host host = true
role_eq (other a) (other b) = str_eq a b
role_eq _ _ = false

-- A stored revision and an `int64` of the caller.
abbrev pub revision_eq : ℕ → ℤ → Bool
revision_eq r (pos n) = r == n
revision_eq r (negsuc n) = false

abbrev pub onto_first : Char → List String → List String
onto_first c [] = String.◌∷◌ c String.[] ∷ []
onto_first c (part ∷ parts) = String.◌∷◌ c part ∷ parts

unfoldable pub split_dot : String → List String
split_dot String.[] = String.[] ∷ []
split_dot (String.◌∷◌ c s) =
    let parts = split_dot s in if code c == b'.' then String.[] ∷ parts else onto_first c parts

abbrev exactly_two : List String → Option (String × String)
exactly_two (a ∷ b ∷ []) = some (a, b)
exactly_two _ = none

unfoldable pub two_parts : String → Option (String × String)
unfolding split_dot
two_parts token = exactly_two (split_dot token)
