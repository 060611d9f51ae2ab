-- ===== src/Session/Run/Cleanup.antt =====
-- `cleanup` of backend/internal/session/manager.go, as a filter.
use serein.Base.{
  ℕ, ◌≡◌, refl, sym, ◌∙◌, subst, false, not, Option, none, some, String, List, [], ◌∷◌, str_eq,
  eq_iff, eq_refl, arith, if◌then◌else◌, keep_if, map, contains, Bool-cases, Option-cases, inl, inr,
}
use serein.Base.Table.{find_key, key-find_key}
use serein.Session.Manager.{
  Session, Manager, session_key, is_expired, forget, cleanup_one, cleanup_all, cleanup,
}

-- A session, if it is not to be removed.
abbrev pub unexpired : ℕ → Option Session → Option Session
unexpired now none = none
unexpired now (some s) = if is_expired now s then none else some s

pub find_key-without :
    (j id : String) (sessions : List Session)
    → find_key session_key id (keep_if (λ s. not (str_eq s.id j)) sessions)
      ≡ (if str_eq j id then none else find_key session_key id sessions)
unfolding find_key
find_key-without j id [] = ground arith
find_key-without j id (s ∷ sessions) =
    ground (arith, eq_iff s.id j, eq_iff j id, eq_iff s.id id, find_key-without j id sessions)

unexpired_twice : (now : ℕ) (o : Option Session) → unexpired now (unexpired now o) ≡ unexpired now o
unexpired_twice now none = refl
unexpired_twice now (some s) = elim (Bool-cases (is_expired now s)) [
  | inl e ↦ rw e refl
  | inr e ↦ rw (e, e) refl
]

-- One turn of the loop, for the key `j`, seen at `id`.
one_same :
    (now : ℕ) (id : String) (m : Manager)
    → find_key session_key id (cleanup_one now (find_key session_key id m.sessions) m).sessions
      ≡ unexpired now (find_key session_key id m.sessions)
unfolding forget
one_same now id m = elim (Option-cases (find_key session_key id m.sessions)) [
  | inl e ↦ rw e e
  | inr (s, e) ↦
      let key = key-find_key session_key id m.sessions s e in
      elim (Bool-cases (is_expired now s)) [
        | inl x ↦ rw (e, x) (find_key-without s.id id m.sessions ∙ rw (key, eq_refl id) refl)
        | inr x ↦ rw (e, x) e
      ]
]

one_other :
    (now : ℕ) (j id : String) (m : Manager)
    → str_eq j id ≡ false
    → find_key session_key id (cleanup_one now (find_key session_key j m.sessions) m).sessions
      ≡ find_key session_key id m.sessions
unfolding forget
one_other now j id m ne = elim (Option-cases (find_key session_key j m.sessions)) [
  | inl e ↦ rw e refl
  | inr (s, e) ↦
      let key = key-find_key session_key j m.sessions s e in
      elim (Bool-cases (is_expired now s)) [
        | inl x ↦ rw (e, x) (find_key-without s.id id m.sessions ∙ rw (key, ne) refl)
        | inr x ↦ rw (e, x) refl
      ]
]

cleanup_all_lem :
    (now : ℕ) (ids : List String) (id : String) (m : Manager)
    → find_key session_key id (cleanup_all now ids m).sessions ≡ (
        if contains ids id
        then unexpired now (find_key session_key id m.sessions)
        else find_key session_key id m.sessions)
unfolding cleanup_all contains
cleanup_all_lem now [] id m = refl
cleanup_all_lem now (j ∷ ids) id m =
    let m' = cleanup_one now (find_key session_key j m.sessions) m in
    let rest = cleanup_all_lem now ids id m' in
    elim (Bool-cases (str_eq j id)) [
      | inl h ↦
          let p : j ≡ id = ground (arith, eq_iff j id) in
          let here : find_key session_key id m'.sessions
              ≡ unexpired now (find_key session_key id m.sessions) =
            subst
              (λ k.
                find_key session_key id
                  (cleanup_one now (find_key session_key k m.sessions) m).sessions
                ≡ unexpired now (find_key session_key id m.sessions))
              (sym p) (one_same now id m) in
          elim (Bool-cases (contains ids id)) [
            | inl c ↦
                rest ∙ rw (c, h, here) (unexpired_twice now (find_key session_key id m.sessions))
            | inr c ↦ rest ∙ rw (c, h, here) refl
          ]
      | inr h ↦ rest ∙ rw (h, one_other now j id m h) refl
    ]

missing-find_key :
    (id : String) (sessions : List Session)
    → contains (map session_key sessions) id ≡ false
    → find_key session_key id sessions ≡ none
unfolding contains find_key
missing-find_key id [] h = refl
missing-find_key id (s ∷ sessions) h = ground (arith, missing-find_key id sessions)

-- A cleanup, seen at any id: a session that has expired is gone and every other is there unchanged.
pub cleanup_lem :
    (now : ℕ) (id : String) (m : Manager)
    → find_key session_key id (cleanup now m).sessions
      ≡ unexpired now (find_key session_key id m.sessions)
unfolding cleanup
cleanup_lem now id m =
    let all = cleanup_all_lem now (map session_key m.sessions) id m in
    elim (Bool-cases (contains (map session_key m.sessions) id)) [
      | inl c ↦ all ∙ rw c refl
      | inr c ↦ all ∙ rw (c, missing-find_key id m.sessions c) refl
    ]
