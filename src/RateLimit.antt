-- ===== src/RateLimit.antt =====
-- backend/internal/api/ratelimit.go: how many requests one IP address may make in a window of time. The
-- requests come one by one (the code holds a mutex); a time is in nanoseconds.
pub mod Window
mod Tests
use serein.Base.{
  ℕ, ◌+◌, Bool, true, false, Option, none, some, String, List, [], ◌∷◌, ◌++◌, length, ltb, leb,
  if◌then◌else◌,
}
use serein.Base.Table.{find_key, upsert_key}

-- An entry of the map `hits`.
pub record Hits : Type 0 where
  pub ip : String
  pub slots : List ℕ

abbrev pub ip_key : Hits → String
ip_key h = h.ip

abbrev pub slots_of : Option Hits → List ℕ
slots_of none = []
slots_of (some h) = h.slots

-- The loop over `cut`: the times before the window go, up to the first that is in it.
unfoldable pub cut_slots : ℕ → ℕ → List ℕ → List ℕ
cut_slots window now [] = []
cut_slots window now (t ∷ ts) =
    let rest = cut_slots window now ts in if ltb (t + window) now then rest else t ∷ ts

-- `hits[ip] = slots`, and the clearing of a map that has grown too large.
unfoldable pub put_slots : String → List ℕ → List Hits → List Hits
put_slots ip slots hits =
    let h : Hits = record { ip = ip; slots = slots } in
    let hits' = upsert_key ip_key h (λ _. h) hits in
    if ltb 10000 (length hits') then h ∷ [] else hits'

-- Whether the request is let through, and the map after it.
unfoldable pub rate_limit : ℕ → ℕ → String → ℕ → List Hits → Bool × List Hits
unfolding cut_slots put_slots
rate_limit n window ip now hits =
    let slots = cut_slots window now (slots_of (find_key ip_key ip hits)) in
    if leb n (length slots) then (false, hits) else (true, put_slots ip (slots ++ now ∷ []) hits)

-- The map after requests at their times.
unfoldable pub serve : ℕ → ℕ → List (ℕ × String) → List Hits → List Hits
unfolding rate_limit
serve n window [] hits = hits
serve n window ((now, ip) ∷ requests) hits =
    serve n window requests (rate_limit n window ip now hits).1
