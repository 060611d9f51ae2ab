-- ===== src/Agent/Run/Marks.antt =====
-- The marks of the command queue: which commands were dequeued and which were reported.
use serein.Base.{
  ℕ, ◌≡◌, refl, ◌∙◌, ap, inl, inr, Bool, true, false, not, ◌&&◌, Option, none, some, String, List,
  ◌∷◌, str_eq, eq_iff, arith, if◌then◌else◌, keep_if, contains, length, ltb, Bool-cases,
}
use serein.Agent.Model.{Command, Output, Result, Queue}
use serein.Agent.Queue.{
  enqueue, receive_result, record_result, mark_reported, remove_cmd, dequeue, receive_command,
  first_new, stop_waiting, is_gone, stored, trimmed, taken, max_stored_commands,
  evict_completed_commands,
}
use serein.Agent.Reports.{take_report, send_result, notify_step}
use serein.Agent.Fifo.{contains_kept}
use serein.Agent.Run.{
  Section, enqueues, takes_result, marks, removes, dequeues, receives, stops, reports, records,
  sends, adds_step, act, clears,
}

-- The marks of the two kinds.
abbrev pub was_dequeued : Queue → String → Bool
was_dequeued q id = contains q.dequeued id

abbrev pub was_reported : Queue → String → Bool
was_reported q id = contains q.reported id

contains-other :
    (id : String) (j : String) (xs : List String)
    → str_eq j id ≡ false
    → contains (keep_if (λ x. not (str_eq x j)) xs) id ≡ contains xs id
contains-other id j xs ne =
    contains_kept (λ x. not (str_eq x j)) id xs (ground (arith, eq_iff id j, eq_iff j id))

pub contains-later :
    (x : String) (xs : List String) (id : String)
    → contains xs id ≡ true
    → contains (x ∷ xs) id ≡ true
unfolding contains
contains-later x xs id h = ground (arith, h)

-- `Dequeue` marks what it hands out, and keeps the marks that are there.
dequeue-marks :
    (ch : ℕ) (q : Queue) (id : String)
    → (was_dequeued q id ≡ true → was_dequeued (dequeue ch q).1 id ≡ true)
      × ((dequeue ch q).1.reported ≡ q.reported)
unfolding dequeue
dequeue-marks ch q id = go (first_new q.dequeued q.pending).0 (first_new q.dequeued q.pending).1
  where
    go :
        (found : Option Command) (rest : List Command)
        → (was_dequeued q id ≡ true → was_dequeued (taken ch found rest q) id ≡ true)
          × ((taken ch found rest q).reported ≡ q.reported)
    go none rest = (λ h. h, refl)
    go (some c) rest = (λ h. contains-later c.id q.dequeued id h, refl)

trimmed-marks :
    (now : ℕ) (q : Queue) (id : String)
    → ltb max_stored_commands (length q.commands) && is_gone now q id ≡ false
    → (was_dequeued (trimmed now q) id ≡ was_dequeued q id)
      × (was_reported (trimmed now q) id ≡ was_reported q id)
unfolding evict_completed_commands
trimmed-marks now q id h = elim (Bool-cases (ltb max_stored_commands (length q.commands))) [
  | inl full ↦
      let stays : not (is_gone now q id) ≡ true = ground (arith, full, h) in
      rw full (
        contains_kept (λ j. not (is_gone now q j)) id q.dequeued stays,
        contains_kept (λ j. not (is_gone now q j)) id q.reported stays,
      )
  | inr small ↦ rw small (refl, refl)
]

-- The sections that mark nothing.
SameMarks : Queue → Queue → Type 0
SameMarks q q' = (q'.dequeued ≡ q.dequeued) × (q'.reported ≡ q.reported)

receive_result-marks : (j : String) (q : Queue) → SameMarks q (receive_result j q).1
unfolding SameMarks receive_result record_result
receive_result-marks j q = ground arith

send_result-marks : (n : Bool) (r : Result) (q : Queue) → SameMarks q (send_result n r q)
unfolding SameMarks send_result
send_result-marks n r q = ground arith

contains-if :
    (j : String) (q : Queue) (id : String)
    → was_reported q id ≡ true
    → contains (if contains q.reported j then q.reported else j ∷ q.reported) id ≡ true
unfolding contains
contains-if j q id h = ground (arith, h)

-- What the others mark.
mark_reported-marks :
    (j : String) (q : Queue)
    → ((mark_reported j q).1.dequeued ≡ q.dequeued)
      × ((mark_reported j q).1.reported
          ≡ (if contains q.reported j then q.reported else j ∷ q.reported))
unfolding mark_reported
mark_reported-marks j q = ground arith

receive_command-marks :
    (ch : ℕ) (q : Queue) (id : String)
    → (was_dequeued q id ≡ true → was_dequeued (receive_command ch q).1 id ≡ true)
      × ((receive_command ch q).1.reported ≡ q.reported)
unfolding receive_command contains
receive_command-marks ch q id = (λ h. ground (arith, h), ground arith)

take_report-marks :
    (j : String) (success : Bool) (output : Output) (q : Queue) (id : String)
    → ((take_report j success output q).1.dequeued ≡ q.dequeued)
      × (was_reported q id ≡ true → was_reported (take_report j success output q).1 id ≡ true)
unfolding take_report contains
take_report-marks j success output q id = (ground arith, λ h. ground (arith, h))

abbrev pub Keeps : Queue → Queue → String → Type 0
Keeps q q' id =
    (was_dequeued q id ≡ true → was_dequeued q' id ≡ true)
    × (was_reported q id ≡ true → was_reported q' id ≡ true)

same-Keeps : (q q' : Queue) (id : String) → SameMarks q q' → Keeps q q' id
unfolding SameMarks
same-Keeps q q' id (d, r) =
    (λ k. ap (λ xs. contains xs id) d ∙ k, λ k. ap (λ xs. contains xs id) r ∙ k)

-- A section that does not clear the marks of a command keeps them.
pub act-Keeps :
    (s : Section) (q : Queue) (id : String) → clears s q id ≡ false → Keeps q (act s q) id
unfolding act enqueue record_result remove_cmd stop_waiting notify_step
act-Keeps (enqueues now cmd) q id h =
    let (d, r) = trimmed-marks now (stored cmd q) id h in (λ e. d ∙ e, λ e. r ∙ e)
act-Keeps (takes_result j) q id h =
    same-Keeps q (receive_result j q).1 id (receive_result-marks j q)
act-Keeps (marks j) q id h =
    let (d, r) = mark_reported-marks j q in
    (λ k. ap (λ xs. contains xs id) d ∙ k, λ k. ap (λ xs. contains xs id) r ∙ contains-if j q id k)
act-Keeps (removes j) q id h =
    (λ k. contains-other id j q.dequeued h ∙ k, λ k. contains-other id j q.reported h ∙ k)
act-Keeps (dequeues ch) q id h =
    let (d, r) = dequeue-marks ch q id in (d, λ k. ap (λ xs. contains xs id) r ∙ k)
act-Keeps (receives ch) q id h =
    let (d, r) = receive_command-marks ch q id in (d, λ k. ap (λ xs. contains xs id) r ∙ k)
act-Keeps (stops ch) q id h = (λ k. k, λ k. k)
act-Keeps (reports j success output) q id h =
    let (d, r) = take_report-marks j success output q id in
    (λ k. ap (λ xs. contains xs id) d ∙ k, r)
act-Keeps (records r) q id h = (λ k. k, λ k. k)
act-Keeps (sends notify r) q id h =
    same-Keeps q (send_result notify r q) id (send_result-marks notify r q)
act-Keeps (adds_step step) q id h = (λ k. k, λ k. k)
