-- ===== src/Relay/Output/Depth.antt =====
-- How deep the output is that `sanitizeOutput` of backend/internal/api/agent_relay.go gives, and when it
-- only filters.
use serein.Base.{
  ℕ, suc, ◌+◌, ◌≤◌, ◌<◌, ◌≡◌, refl, ap, true, false, leb, arith, if◌then◌else◌, Bool-cases, inl,
  inr, some, subst,
}
use serein.Risk.Patterns.{Regexp}
use serein.Relay.Json.{Json, null, nil_map, bool, number, text, array, object, Fields, end, field}
use mathlib.Core.Option.{some-injective}
use serein.Relay.Output.{
  sanitize_output, max_sanitize_depth, is_allowed, keeps, clean_fields, clean_value,
}

-- The maps within maps; what an array holds is not looked into.
unfoldable mutual
  pub map_depth : Fields → ℕ
  map_depth end = 0
  map_depth (field k v fs) =
      let a = value_depth v in let b = map_depth fs in if leb a b then b else a

  pub value_depth : Json → ℕ
  value_depth null = 0
  value_depth nil_map = 1
  value_depth (bool b) = 0
  value_depth (number n d) = 0
  value_depth (text s) = 0
  value_depth (array vs) = 0
  value_depth (object fs) = suc (map_depth fs)

module _ (compile : Regexp) where
  mutual
    unfolding clean_fields map_depth

    clean_fields-le :
        (d : ℕ) (fs : Fields)
        → d < max_sanitize_depth
        → map_depth (clean_fields compile d fs) + d ≤ max_sanitize_depth
    clean_fields-le d end h = omega arith
    clean_fields-le d (field k v fs) h = elim (Bool-cases (keeps compile d k v)) [
      | inl kept ↦ rw kept (ground (arith, clean_value-le d v h, clean_fields-le d fs h))
      | inr dropped ↦ rw dropped (clean_fields-le d fs h)
    ]

    clean_value-le :
        (d : ℕ) (v : Json)
        → d < max_sanitize_depth
        → value_depth (clean_value compile d v) + d ≤ max_sanitize_depth
    clean_value-le d null h = omega arith
    clean_value-le d nil_map h = omega arith
    clean_value-le d (bool b) h = omega arith
    clean_value-le d (number n m) h = omega arith
    clean_value-le d (text s) h = omega arith
    clean_value-le d (array vs) h = omega arith
    clean_value-le d (object fs) h = elim (Bool-cases (leb max_sanitize_depth (suc d))) [
      | inl deep ↦ rw deep (omega arith)
      | inr shallow ↦ rw shallow (ground (arith, clean_fields-le (suc d) fs))
    ]

  -- The fields that pass at the top.
  abbrev pub allowed_fields : Fields → Fields
  allowed_fields end = end
  allowed_fields (field k v fs) =
      let rest = allowed_fields fs in if is_allowed compile k v then field k v rest else rest

  mutual
    unfolding clean_fields map_depth keeps

    same_fields :
        (d : ℕ) (fs : Fields)
        → map_depth fs + suc d < max_sanitize_depth
        → clean_fields compile (suc d) fs ≡ fs
    same_fields d end h = refl
    same_fields d (field k v fs) h =
        let kept : keeps compile (suc d) k v ≡ true = ground arith in
        rw (kept, same_value (suc d) v (ground arith), same_fields d fs (ground arith)) refl

    same_value :
        (d : ℕ) (v : Json) → value_depth v + d < max_sanitize_depth → clean_value compile d v ≡ v
    same_value d null h = refl
    same_value d nil_map h = refl
    same_value d (bool b) h = refl
    same_value d (number n m) h = refl
    same_value d (text s) h = refl
    same_value d (array vs) h = refl
    same_value d (object fs) h =
        let shallow : leb max_sanitize_depth (suc d) ≡ false = ground arith in
        rw (shallow, same_fields d fs (omega arith)) refl

  -- Maps are nested at most ten deep in an output that was sanitized, arrays aside.
  pub sanitize_output-le :
      (output cleaned : Fields)
      → sanitize_output compile (some output) ≡ some cleaned
      → map_depth cleaned ≤ max_sanitize_depth
  unfolding sanitize_output
  sanitize_output-le output cleaned h =
      subst (λ fs. map_depth fs ≤ max_sanitize_depth) (some-injective _ _ h)
        (omega (arith, clean_fields-le 0 output (omega arith)))

  shallow_fields :
      (fs : Fields)
      → map_depth fs < max_sanitize_depth
      → clean_fields compile 0 fs ≡ allowed_fields fs
  unfolding clean_fields keeps map_depth
  shallow_fields end h = refl
  shallow_fields (field k v fs) h =
      rw (same_value 0 v (ground arith), shallow_fields fs (ground arith)) refl

  -- An output whose maps are nested less than ten deep, arrays aside, is only filtered: the fields with a
  -- key that is allowed and a value of the kind that the key asks for are kept, unchanged and in their
  -- order, and the others are dropped.
  pub sanitize_output_lem :
      (output : Fields)
      → map_depth output < max_sanitize_depth
      → sanitize_output compile (some output) ≡ some (allowed_fields output)
  unfolding sanitize_output
  sanitize_output_lem output h = ap some (shallow_fields output h)
