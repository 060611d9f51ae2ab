-- ===== src/Remote/Capability/Reasons.antt =====
-- The text of an end reason (`normalizeEndReason`).
use serein.Base.{◌≤◌, ◌≡◌, ◌⊎◌, true, String, arith, if◌then◌else◌, len, str_eq, trim_space}
use serein.Remote.Capability.{normalize_end_reason, is_reason, cut_reason}

cut_lem :
    (value fallback : String)
    → (is_reason (cut_reason value fallback) ≡ true) × (len (cut_reason value fallback) ≤ 64)
      ⊎ (cut_reason value fallback ≡ fallback)
cut_lem value fallback = ground arith

-- Whatever text a client gives as the reason, what is stored and sent on has only letters, digits,
-- `_`, `-` and `.`, and 64 bytes at most; or it is the fallback that the code names.
pub normalize_end_reason_lem :
    (value fallback : String)
    → ((is_reason (normalize_end_reason value fallback) ≡ true)
        × (len (normalize_end_reason value fallback) ≤ 64))
      ⊎ (normalize_end_reason value fallback ≡ fallback)
unfolding normalize_end_reason
normalize_end_reason_lem value fallback =
    cut_lem (if str_eq (trim_space value) "" then fallback else trim_space value) fallback
