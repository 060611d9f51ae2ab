-- ===== src/Remote/Capability/Requests.antt =====
-- What a phone may ask for (`normalizeRequestedCapabilities`), by counting.
use serein.Base.{
  ℕ, ◌+◌, ◌≤◌, ◌≡◌, refl, ap, suc, sym, ◌∙◌, subst, Bool, true, false, not, ◌&&◌, ◌||◌, ◌==◌, leb,
  Option, none, some, String, List, [], ◌∷◌, arith, if◌then◌else◌, str_eq, eq_iff, trim_space,
  length, keep_if, Bool-cases, inl, inr,
}
use serein.Remote.World.{ok, err, invalid_capability}
use serein.Remote.Capability.{
  normalize_requested_capabilities, capability_view, capability_input, collect, canonical, Seen,
  already, mark,
}

-- How often a capability is named, spaces around it aside.
abbrev pub times : String → List String → ℕ
times c xs = length (keep_if (λ x. str_eq (trim_space x) c) xs)

view-ne-input : (v : String) → str_eq v capability_view ≡ true → str_eq v capability_input ≡ false
view-ne-input v h =
    let same : v ≡ capability_view = ground (arith, eq_iff v capability_view) in
    subst (λ u. str_eq u capability_input ≡ false) (sym same) refl

abbrev bit : Bool → ℕ
bit true = 1
bit false = 0

-- What `collect` gives for lists of a length, with so many views and inputs.
abbrev counted : ℕ → ℕ → ℕ → Seen → Option Seen
counted n views inputs seen =
    if n == views + inputs && leb (bit seen.view + views) 1 && leb (bit seen.input + inputs) 1
    then some (record { view = seen.view || views == 1; input = seen.input || inputs == 1 })
    else none

view_more :
    (n a b : ℕ) (seen : Seen)
    → counted (suc n) (suc a) b seen
      ≡ (if seen.view then none else counted n a b (record seen { view = true }))
view_more n a b seen = ground arith

input_more :
    (n a b : ℕ) (seen : Seen)
    → counted (suc n) a (suc b) seen
      ≡ (if seen.input then none else counted n a b (record seen { input = true }))
input_more n a b seen = ground arith

other_more : (n a b : ℕ) (seen : Seen) → a + b ≤ n → counted (suc n) a b seen ≡ none
other_more n a b seen h = ground arith

times_both : (xs : List String) → times capability_view xs + times capability_input xs ≤ length xs
times_both [] = omega arith
times_both (x ∷ xs) = ground (arith, times_both xs, view-ne-input (trim_space x))

collect-cons :
    (x : String) (xs : List String) (seen : Seen)
    → let v = trim_space x in
      collect (x ∷ xs) seen ≡ (
        if not (str_eq v capability_view || str_eq v capability_input) || already v seen
        then none
        else collect xs (mark v seen))
unfolding collect
collect-cons x xs seen = refl

collect_lem :
    (xs : List String) (seen : Seen)
    → collect xs seen
      ≡ counted (length xs) (times capability_view xs) (times capability_input xs) seen
unfolding collect
collect_lem [] seen = ground arith
collect_lem (x ∷ xs) seen =
    let v = trim_space x in
    elim (Bool-cases (str_eq v capability_view)) [
      | inl h ↦
          let k = view-ne-input v h in
          rw (collect-cons x xs seen, h, k)
            (sym (
              view_more (length xs) (times capability_view xs) (times capability_input xs) seen
              ∙ ap (λ o. if seen.view then none else o)
                  (sym (collect_lem xs (record seen { view = true })))))
      | inr h ↦ elim (Bool-cases (str_eq v capability_input)) [
        | inl k ↦
            rw (collect-cons x xs seen, h, k)
              (sym (
                input_more (length xs) (times capability_view xs) (times capability_input xs) seen
                ∙ ap (λ o. if seen.input then none else o)
                    (sym (collect_lem xs (record seen { input = true })))))
        | inr k ↦
            rw (collect-cons x xs seen, h, k)
              (sym (
                other_more (length xs) (times capability_view xs) (times capability_input xs) seen
                  (times_both xs)))
      ]
    ]

-- What is asked for, in one formula: nothing stands for the view; otherwise the view has to be named
-- once, the input once at most, and nothing else; and the result has the view first.
pub normalize_requested_capabilities_lem :
    (xs : List String)
    → normalize_requested_capabilities xs ≡ (
        if length xs == 0
        then ok (capability_view ∷ [])
        else if times capability_view xs == 1
            && leb (times capability_input xs) 1
            && length xs == times capability_view xs + times capability_input xs
        then ok (
            capability_view
            ∷ (if times capability_input xs == 1 then capability_input ∷ [] else []))
        else err invalid_capability)
unfolding normalize_requested_capabilities canonical
normalize_requested_capabilities_lem [] = refl
normalize_requested_capabilities_lem (x ∷ xs) =
    ground (arith, collect_lem (x ∷ xs) (record { view = false; input = false }))
