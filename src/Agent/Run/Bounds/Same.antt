-- ===== src/Agent/Run/Bounds/Same.antt =====
-- The sections that enqueue and remove no command keep the queue in order.
use serein.Base.{
  ℕ, ◌-◌, ◌≡◌, sym, ap, subst, inl, inr, Bool, true, Option, none, some, String, List, [], ◌∷◌,
  ◌++◌, arith, contains, All, length, length-drop, Bool-cases, Option-cases,
}
use serein.Agent.Model.{Command, Step, Output, Result, Queue}
use serein.Agent.Queue.{
  receive_result, record_result, mark_reported, dequeue, receive_command, first_new, taken,
}
use serein.Agent.Reports.{take_report, send_result, notify_step}
use serein.Agent.Fifo.{is_listed}
use serein.Agent.Model.{set_mailbox}
use serein.Agent.Run.Bounds.{IsDistinct, AreStored, IsQueue}

-- The sections that leave the lists alone.
pub record IsSame (q q' : Queue) : Type 0 where
  pub history : q'.history ≡ q.history
  pub max_history : q'.max_history ≡ q.max_history
  pub steps : q'.steps ≡ q.steps
  pub max_steps : q'.max_steps ≡ q.max_steps
  pub pending : q'.pending ≡ q.pending
  pub commands : q'.commands ≡ q.commands

pub IsSame-IsQueue : (q q' : Queue) → IsSame q q' → IsQueue q → IsQueue q'
IsSame-IsQueue q q' s h = record {
  few_results = omega (arith, h.few_results, ap (λ l. length l) s.history, s.max_history);
  few_steps = omega (arith, h.few_steps, ap (λ l. length l) s.steps, s.max_steps);
  distinct = subst IsDistinct (sym s.pending) h.distinct;
  are_stored =
      subst (λ cs. AreStored cs q'.pending) (sym s.commands)
        (subst (AreStored q.commands) (sym s.pending) h.are_stored);
}

pub send_result-IsSame : (n : Bool) (r : Result) (q : Queue) → IsSame q (send_result n r q)
unfolding send_result
send_result-IsSame n r q = ground arith

pub mark_reported-IsSame : (j : String) (q : Queue) → IsSame q (mark_reported j q).1
unfolding mark_reported
mark_reported-IsSame j q = ground arith

pub receive_command-IsSame : (ch : ℕ) (q : Queue) → IsSame q (receive_command ch q).1
unfolding receive_command
receive_command-IsSame ch q = ground arith

pub take_report-IsSame :
    (j : String) (success : Bool) (output : Output) (q : Queue)
    → IsSame q (take_report j success output q).1
unfolding take_report
take_report-IsSame j success output q = ground arith

pub record_result-IsQueue : (r : Result) (q : Queue) → IsQueue q → IsQueue (record_result r q)
unfolding record_result
record_result-IsQueue r q h = record {
  few_results =
      ground
        (arith, length-drop (length (q.history ++ r ∷ []) - q.max_history) (q.history ++ r ∷ []));
  few_steps = h.few_steps;
  distinct = h.distinct;
  are_stored = h.are_stored;
}

pub notify_step-IsQueue : (s : Step) (q : Queue) → IsQueue q → IsQueue (notify_step s q)
unfolding notify_step
notify_step-IsQueue s q h = record {
  few_results = h.few_results;
  few_steps =
      ground (arith, length-drop (length (q.steps ++ s ∷ []) - q.max_steps) (q.steps ++ s ∷ []));
  distinct = h.distinct;
  are_stored = h.are_stored;
}

-- `Dequeue` leaves an end of the pending commands.
first_new-All :
    (P : Command → Type 0) (d : List String) (cs : List Command)
    → All P cs
    → All P (first_new d cs).1
unfolding first_new
first_new-All P d [] h = tt
first_new-All P d (c ∷ cs) h = elim (Bool-cases (contains d c.id)) [
  | inl e ↦ rw e (first_new-All P d cs h.1)
  | inr e ↦ rw e h.1
]

first_new-IsDistinct :
    (d : List String) (cs : List Command) → IsDistinct cs → IsDistinct (first_new d cs).1
unfolding first_new
first_new-IsDistinct d [] h = tt
first_new-IsDistinct d (c ∷ cs) h = elim (Bool-cases (contains d c.id)) [
  | inl e ↦ rw e (first_new-IsDistinct d cs h.1)
  | inr e ↦ rw e h.1
]

taken-IsQueue :
    (ch : ℕ) (found : Option Command) (rest : List Command) (q : Queue)
    → IsQueue q
    → IsDistinct rest
    → AreStored q.commands rest
    → IsQueue (taken ch found rest q)
taken-IsQueue ch none rest q h d s = record {
  few_results = h.few_results;
  few_steps = h.few_steps;
  distinct = d;
  are_stored = s;
}
taken-IsQueue ch (some c) rest q h d s = record {
  few_results = h.few_results;
  few_steps = h.few_steps;
  distinct = d;
  are_stored = s;
}

pub dequeue-IsQueue : (ch : ℕ) (q : Queue) → IsQueue q → IsQueue (dequeue ch q).1
unfolding dequeue
dequeue-IsQueue ch q h =
    taken-IsQueue ch (first_new q.dequeued q.pending).0 (first_new q.dequeued q.pending).1 q h
      (first_new-IsDistinct q.dequeued q.pending h.distinct)
      (first_new-All (λ c. is_listed c.id q.commands ≡ true) q.dequeued q.pending h.are_stored)

receive_result-IsSame :
    (j : String) (q : Queue) → q.mailboxes j ≡ none → IsSame q (receive_result j q).1
unfolding receive_result
receive_result-IsSame j q h = ground (arith, h)

emptied-IsQueue :
    (j : String) (q : Queue)
    → IsQueue q
    → IsQueue (record q { mailboxes = set_mailbox q.mailboxes j none })
emptied-IsQueue j q h = record {
  few_results = h.few_results;
  few_steps = h.few_steps;
  distinct = h.distinct;
  are_stored = h.are_stored;
}

received :
    (j : String) (q : Queue) (r : Result)
    → q.mailboxes j ≡ some r
    → (receive_result j q).1
      ≡ record_result r (record q { mailboxes = set_mailbox q.mailboxes j none })
unfolding receive_result
received j q r h = ground (arith, h)

pub receive_result-IsQueue : (j : String) (q : Queue) → IsQueue q → IsQueue (receive_result j q).1
receive_result-IsQueue j q h = elim (Option-cases (q.mailboxes j)) [
  | inl e ↦ IsSame-IsQueue q (receive_result j q).1 (receive_result-IsSame j q e) h
  | inr (r, e) ↦ subst IsQueue (sym (received j q r e)) (
      record_result-IsQueue r (record q { mailboxes = set_mailbox q.mailboxes j none })
        (emptied-IsQueue j q h))
]
