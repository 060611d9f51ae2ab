-- ===== src/RateLimit/Window.antt =====
-- The limiter counts the requests of the window.
use serein.Base.{
  ℕ, ◌+◌, ◌≤◌, ◌<◌, ◌≡◌, refl, String, List, [], ◌∷◌, ◌++◌, length, ltb, leb, arith, keep_if, All,
  All-map, All-append, length-append, Option-cases, Bool-cases, inl, inr,
}
use serein.Base.Table.{find_key, upsert_key}
use serein.Base.Rows.{All-find_key, All-upsert_key}
use serein.RateLimit.{Hits, ip_key, slots_of, cut_slots, put_slots, rate_limit, serve}

-- Times in ascending order, none after `last`.
abbrev pub IsAscending : ℕ → List ℕ → Type 0
IsAscending last [] = Unit
IsAscending last (t ∷ ts) = (t ≤ last) × All (λ u. t ≤ u) ts × IsAscending last ts

keep_if_rest :
    (window now t : ℕ) (ts : List ℕ)
    → now ≤ t + window
    → All (λ u. t ≤ u) ts
    → keep_if (λ u. leb now (u + window)) ts ≡ ts
keep_if_rest window now t [] h a = refl
keep_if_rest window now t (u ∷ ts) h a = ground (arith, keep_if_rest window now t ts h a.1)

-- Of ascending times, the loop keeps those in the window.
cut_slots_lem :
    (window now last : ℕ) (ts : List ℕ)
    → IsAscending last ts
    → cut_slots window now ts ≡ keep_if (λ u. leb now (u + window)) ts
unfolding cut_slots
cut_slots_lem window now last [] h = refl
cut_slots_lem window now last (t ∷ ts) h = elim (Bool-cases (ltb (t + window) now)) [
  | inl old ↦ ground (arith, old, cut_slots_lem window now last ts h.2)
  | inr new ↦ ground (arith, new, keep_if_rest window now t ts (ground arith) h.1)
]

IsAscending-cut :
    (window now last : ℕ) (ts : List ℕ)
    → IsAscending last ts
    → IsAscending last (cut_slots window now ts)
unfolding cut_slots
IsAscending-cut window now last [] h = tt
IsAscending-cut window now last (t ∷ ts) h = elim (Bool-cases (ltb (t + window) now)) [
  | inl old ↦ rw old (IsAscending-cut window now last ts h.2)
  | inr new ↦ rw new h
]

IsAscending-later :
    (last now : ℕ) (ts : List ℕ) → last ≤ now → IsAscending last ts → IsAscending now ts
IsAscending-later last now [] le h = tt
IsAscending-later last now (t ∷ ts) le h =
    (omega (arith, le, h.0), h.1, IsAscending-later last now ts le h.2)

All-le-snoc :
    (t now : ℕ) (ts : List ℕ) → t ≤ now → All (λ u. t ≤ u) ts → All (λ u. t ≤ u) (ts ++ now ∷ [])
All-le-snoc t now ts le h = All-append (λ u. t ≤ u) ts (now ∷ []) h (le, tt)

IsAscending-snoc :
    (last now : ℕ) (ts : List ℕ)
    → last ≤ now
    → IsAscending last ts
    → IsAscending now (ts ++ now ∷ [])
IsAscending-snoc last now [] le h = (omega arith, tt, tt)
IsAscending-snoc last now (t ∷ ts) le h =
    let early : t ≤ now = omega (arith, le, h.0) in
    (early, All-le-snoc t now ts early h.1, IsAscending-snoc last now ts le h.2)

-- The entries of a limiter of `n` requests, at a time.
pub record IsEntry (n last : ℕ) (h : Hits) : Type 0 where
  pub ascending : IsAscending last h.slots
  pub bounded : length h.slots ≤ n

-- The requests come in the order of their times, the first not before `last`.
abbrev pub IsOrdered : ℕ → List (ℕ × String) → Type 0
IsOrdered last [] = Unit
IsOrdered last ((now, ip) ∷ requests) = (last ≤ now) × IsOrdered now requests

abbrev pub end_of : ℕ → List (ℕ × String) → ℕ
end_of last [] = last
end_of last ((now, ip) ∷ requests) = end_of now requests

module _ (n window : ℕ) where
  found_entry :
      (last : ℕ) (ip : String) (hits : List Hits)
      → All (IsEntry n last) hits
      → IsAscending last (slots_of (find_key ip_key ip hits))
  found_entry last ip hits h = elim (Option-cases (find_key ip_key ip hits)) [
    | inl e ↦ rw e tt
    | inr (r, e) ↦ rw e (All-find_key ip_key (IsEntry n last) ip hits r h e).ascending
  ]

  -- On a map whose entries hold ascending times, `n` at most, a request is let through exactly if
  -- fewer than `n` of the times stored for its address are in the window.
  pub rate_limit_lem :
      (last now : ℕ) (ip : String) (hits : List Hits)
      → All (IsEntry n last) hits
      → (rate_limit n window ip now hits).0
        ≡ ltb (length (keep_if (λ u. leb now (u + window)) (slots_of (find_key ip_key ip hits)))) n
  unfolding rate_limit
  rate_limit_lem last now ip hits h = ground (
    arith,
    cut_slots_lem window now last (slots_of (find_key ip_key ip hits)) (found_entry last ip hits h),
  )

  put_slots-IsEntry :
      (now : ℕ) (ip : String) (slots : List ℕ) (hits : List Hits)
      → IsEntry n now (record { ip = ip; slots = slots })
      → All (IsEntry n now) hits
      → All (IsEntry n now) (put_slots ip slots hits)
  unfolding put_slots
  put_slots-IsEntry now ip slots hits new h =
      let it : Hits = record { ip = ip; slots = slots } in
      elim (Bool-cases (ltb 10000 (length (upsert_key ip_key it (λ _. it) hits)))) [
        | inl large ↦ rw large (new, tt)
        | inr small ↦
            rw small (All-upsert_key ip_key (IsEntry n now) it (λ _. it) hits new (λ a p. new) h)
      ]

  slots-IsEntry :
      (last now : ℕ) (ip : String) (slots : List ℕ)
      → last ≤ now
      → IsAscending last slots
      → length slots < n
      → IsEntry n now (record { ip = ip; slots = slots ++ now ∷ [] })
  slots-IsEntry last now ip slots le asc room = record {
    ascending = IsAscending-snoc last now slots le asc;
    bounded = omega (arith, length-append slots (now ∷ []), room);
  }

  later_entries :
      (last now : ℕ) (hits : List Hits)
      → last ≤ now
      → All (IsEntry n last) hits
      → All (IsEntry n now) hits
  later_entries last now hits le h =
      All-map (IsEntry n last) (IsEntry n now)
        (λ a p. record {
          ascending = IsAscending-later last now a.slots le p.ascending;
          bounded = p.bounded;
        })
        hits h

  rate_limit-IsEntry :
      (last now : ℕ) (ip : String) (hits : List Hits)
      → last ≤ now
      → All (IsEntry n last) hits
      → All (IsEntry n now) (rate_limit n window ip now hits).1
  unfolding rate_limit
  rate_limit-IsEntry last now ip hits le h =
      let found = slots_of (find_key ip_key ip hits) in
      let slots = cut_slots window now found in
      elim (Bool-cases (leb n (length slots))) [
        | inl full ↦ rw full (later_entries last now hits le h)
        | inr room ↦ rw room (
            put_slots-IsEntry now ip (slots ++ now ∷ []) hits
              (slots-IsEntry last now ip slots le
                (IsAscending-cut window now last found (found_entry last ip hits h)) (ground arith))
              (later_entries last now hits le h))
      ]

  -- When the entries of a map hold ascending times, `n` at most, as those of the empty map do, they
  -- do so after any requests in the order of time.
  pub serve-IsEntry :
      (last : ℕ) (requests : List (ℕ × String)) (hits : List Hits)
      → IsOrdered last requests
      → All (IsEntry n last) hits
      → All (IsEntry n (end_of last requests)) (serve n window requests hits)
  unfolding serve
  serve-IsEntry last [] hits o h = h
  serve-IsEntry last ((now, ip) ∷ requests) hits o h =
      serve-IsEntry now requests (rate_limit n window ip now hits).1 o.1
        (rate_limit-IsEntry last now ip hits o.0 h)
