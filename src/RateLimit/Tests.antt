-- ===== src/RateLimit/Tests.antt =====
-- The limiter of two requests in ten nanoseconds.
use serein.Base.{ℕ, ◌+◌, ◌≡◌, String, List, [], ◌∷◌, All, arith, length, keep_if, ltb, leb}
use serein.Base.Table.{find_key}
use serein.RateLimit.{Hits, ip_key, slots_of, rate_limit}
use serein.RateLimit.Window.{IsEntry, rate_limit_lem}

abbrev seen : List Hits
seen = record { ip = "10.0.0.1"; slots = 1 ∷ 8 ∷ [] } ∷ []

seen-IsEntry : All (IsEntry 2 9) seen
seen-IsEntry = (record { ascending = omega arith; bounded = omega arith }, tt)

rate_limit_example :
    (rate_limit 2 10 "10.0.0.1" 12 seen).0
    ≡ ltb (length (keep_if (λ u. leb 12 (u + 10)) (slots_of (find_key ip_key "10.0.0.1" seen)))) 2
rate_limit_example = rate_limit_lem 2 10 9 12 "10.0.0.1" seen seen-IsEntry

abbrev requests : List (ℕ × String)
requests = (12, "10.0.0.1") ∷ (13, "10.0.0.1") ∷ (13, "10.0.0.2") ∷ []
