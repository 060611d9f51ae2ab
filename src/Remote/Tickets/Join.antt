-- ===== src/Remote/Tickets/Join.antt =====
-- Two texts without a dot, joined by one, and split again (`strings.Split` in ValidateAndConsume).
use Prim.Native.Char.{Char, char, code}
use text.Mathlib.TextLemmas.{nil-append, cons-append}
use serein.Base.{
  ◌≡◌, refl, ◌∙◌, ap, Bool, true, not, ◌&&◌, ◌==◌, some, String, [], ◌∷◌, arith, ◌^^◌,
  if◌then◌else◌,
}
use serein.Remote.Tickets.{two_parts, split_dot, onto_first}

-- A text without a dot.
abbrev pub has_no_dot : String → Bool
has_no_dot String.[] = true
has_no_dot (String.◌∷◌ c s) = not (code c == b'.') && has_no_dot s

split_none : (s : String) → has_no_dot s ≡ true → split_dot s ≡ s ∷ []
unfolding split_dot
split_none String.[] h = refl
split_none (String.◌∷◌ c s) h = ground (arith, split_none s)

split_dot-cons :
    (c : Char) (s : String)
    → split_dot (String.◌∷◌ c s)
      ≡ (if code c == b'.' then String.[] ∷ split_dot s else onto_first c (split_dot s))
unfolding split_dot
split_dot-cons c s = refl

abbrev dot : Char
dot = char b'.' tt

dot-append : (b : String) → "." ^^ b ≡ String.◌∷◌ dot b
dot-append b = cons-append dot String.[] b ∙ ap (λ t. String.◌∷◌ dot t) (nil-append b)

split_two :
    (a b : String)
    → has_no_dot a ≡ true
    → has_no_dot b ≡ true
    → split_dot (a ^^ ("." ^^ b)) ≡ a ∷ b ∷ []
split_two String.[] b h k =
    ap split_dot (nil-append ("." ^^ b) ∙ dot-append b)
    ∙ split_dot-cons dot b
    ∙ ap (λ ps. String.[] ∷ ps) (split_none b k)
split_two (String.◌∷◌ c s) b h k =
    ap split_dot (cons-append c s ("." ^^ b))
    ∙ split_dot-cons c (s ^^ ("." ^^ b))
    ∙ ground (arith, split_two s b)

pub two_parts-join :
    (a b : String)
    → has_no_dot a ≡ true
    → has_no_dot b ≡ true
    → two_parts (a ^^ ("." ^^ b)) ≡ some (a, b)
unfolding two_parts
two_parts-join a b h k = rw (split_two a b h k) refl
