-- ===== src/Approval/Run/Final.antt =====
-- A decision is final: the first answer in time wins, and silence is a denial.
use serein.Base.{
  ℕ, ◌≡◌, refl, sym, ◌∙◌, ◌≤◌, true, false, none, some, String, List, arith, if◌then◌else◌,
  Option-cases, inl, inr,
}
use serein.Base.Table.{find_key, find_key-update_self}
use serein.Approval.Model.{Record, record_key, Decision, pending, deny}
use serein.Approval.Service.{
  is_pending, is_overdue, is_undecided, timed_out, decided, status, decide, get, verdict,
}
use serein.Approval.Run.{Call, run, Verdict, allows, denies, decision_of}
use serein.Approval.Run.History.{run-Retains}

module _ (id : String) (now : ℕ) (rows : List Record) (r : Record)
    (stored : find_key record_key id rows ≡ some r) where
  -- What `Status` gives, and writes, of a stored approval.
  pub status_lem :
      let r' = if is_overdue now r then timed_out now r else r in
      ((status id now rows).0 ≡ some (verdict r'.decision r'.decided_by))
      × (find_key record_key id (status id now rows).1 ≡ some r')
  unfolding status get
  status_lem = ground (
    arith,
    find_key-update_self record_key id (is_overdue now) (timed_out now) rows r stored refl,
  )

  pub decide_lem :
      (d : Decision) (by : String)
      → ((decide id d by now rows).0 ≡ is_undecided now r)
        × (find_key record_key id (decide id d by now rows).1
            ≡ some (if is_undecided now r then decided d by now r else r))
  unfolding decide
  decide_lem d by = ground (
    arith,
    stored,
    find_key-update_self record_key id (is_undecided now) (decided d by now) rows r stored refl,
  )

pub decide_missing :
    (id : String) (now : ℕ) (rows : List Record) (d : Decision) (by : String)
    → find_key record_key id rows ≡ none
    → (decide id d by now rows).0 ≡ false
unfolding decide
decide_missing id now rows d by missing = ground (arith, missing)

is_pending_answer :
    (v : Verdict) (by : String) (now : ℕ) (r : Record)
    → is_pending (decided (decision_of v) by now r) ≡ false
is_pending_answer allows by now r = refl
is_pending_answer denies by now r = refl

-- A decided approval, after any calls: its verdict, and that it takes no other.
over_for_good :
    (id : String) (rows : List Record) (r : Record) (wait : ℕ) (calls : List (ℕ × Call)) (later : ℕ)
    (d : Decision) (by : String)
    → find_key record_key id rows ≡ some r
    → is_pending r ≡ false
    → ((status id later (run wait calls rows)).0 ≡ some (verdict r.decision r.decided_by))
      × ((decide id d by later (run wait calls rows)).0 ≡ false)
over_for_good id rows r wait calls later d by stored over =
    let (s, found, k) = run-Retains wait calls rows id r stored in
    ground (
      arith,
      status_lem id later (run wait calls rows) s found,
      decide_lem id later (run wait calls rows) s found d by,
      k.stays_decided over,
      k.same_decider over,
    )

-- The first answer that takes effect is final: after it, and any further calls but the clearing of
-- the history, `Status` gives that answer at any time, and no other decision takes effect.
pub answer_final :
    (id : String) (v : Verdict) (by : String) (now : ℕ) (rows : List Record) (wait : ℕ)
    (calls : List (ℕ × Call)) (later : ℕ) (d : Decision) (by' : String)
    → (decide id (decision_of v) by now rows).0 ≡ true
    → let rows' = run wait calls (decide id (decision_of v) by now rows).1 in
      ((status id later rows').0 ≡ some (verdict (decision_of v) (some by)))
      × ((decide id d by' later rows').0 ≡ false)
answer_final id v by now rows wait calls later d by' won =
    elim (Option-cases (find_key record_key id rows)) [
      | inl missing ↦ absurd (ground (arith, decide_missing id now rows (decision_of v) by missing))
      | inr (r, stored) ↦
          let (said, found) = decide_lem id now rows r stored (decision_of v) by in
          let q : is_undecided now r ≡ true = sym said ∙ won in
          over_for_good id (decide id (decision_of v) by now rows).1
            (decided (decision_of v) by now r) wait calls later d by' (rw q at found)
            (is_pending_answer v by now r)
    ]

-- Silence is a denial: once `Status` is asked of a pending approval at or after its time limit, it
-- answers deny, and so it does after any further calls but the clearing of the history, at any
-- time; and no decision takes effect.
pub silence_denies :
    (id : String) (now : ℕ) (rows : List Record) (r : Record) (wait : ℕ) (calls : List (ℕ × Call))
    (later : ℕ) (d : Decision) (by : String)
    → find_key record_key id rows ≡ some r
    → r.decision ≡ pending
    → r.timeout_at ≤ now
    → let rows' = run wait calls (status id now rows).1 in
      ((status id now rows).0 ≡ some (deny, "approval timeout"))
      × ((status id later rows').0 ≡ some (deny, "approval timeout"))
      × ((decide id d by later rows').0 ≡ false)
silence_denies id now rows r wait calls later d by stored p late =
    let (said, found) = status_lem id now rows r stored in
    let q : is_overdue now r ≡ true = ground arith in
    let rest =
      over_for_good id (status id now rows).1 (timed_out now r) wait calls later d by
        (rw q at found) refl in
    (ground (arith, said), rest.0, rest.1)

-- A verdict that comes at or after the time limit of a stored approval has no effect.
pub late_answer :
    (id : String) (now : ℕ) (rows : List Record) (r : Record) (d : Decision) (by : String)
    → find_key record_key id rows ≡ some r
    → r.timeout_at ≤ now
    → ((decide id d by now rows).0 ≡ false)
      × (find_key record_key id (decide id d by now rows).1 ≡ some r)
late_answer id now rows r d by stored late = ground (arith, decide_lem id now rows r stored d by)
