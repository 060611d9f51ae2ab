-- ===== src/Agent/Run/Late.antt =====
-- A report that comes after the caller was told of a timeout.
use serein.Base.{
  ℕ, ◌≡◌, refl, ◌∙◌, ap, inl, inr, Bool, true, false, not, ◌&&◌, Option, none, some, String, List,
  [], ◌∷◌, ◌++◌, str_eq, arith, keep_if, length, ltb, Bool-cases, Option-cases,
}
use serein.Base.Table.{find_key, update_key, find_key-keep_if}
use serein.Base.Rows.{upsert_key_new, upsert_key_old}
use serein.Agent.Model.{Command, Output, Result, Queue, cmd_key}
use serein.Agent.Queue.{
  enqueue, receive_result, record_result, mark_reported, remove_cmd, dequeue, receive_command,
  first_new, handle_timeout_or_cancel, stop_waiting, is_evicted, stored, trimmed, taken,
  evict_completed_commands, max_stored_commands,
}
use serein.Agent.Reports.{take_report, send_result, notify_step, notify_result}
use serein.Agent.Run.{
  Section, enqueues, takes_result, marks, removes, dequeues, receives, stops, reports, records,
  sends, adds_step, act, run,
}

-- No section enqueues a command with the id.
abbrev pub avoids : String → List Section → Bool
avoids id [] = true
avoids id (enqueues now cmd ∷ ss) = not (str_eq cmd.id id) && avoids id ss
avoids id (_ ∷ ss) = avoids id ss

abbrev IsGone : String → Queue → Type 0
IsGone id q = find_key cmd_key id q.commands ≡ none

removed-gone :
    (id : String) (cs : List Command)
    → find_key cmd_key id (keep_if (λ c. not (str_eq c.id id)) cs) ≡ none
unfolding find_key
removed-gone id [] = refl
removed-gone id (c ∷ cs) = ground (arith, removed-gone id cs)

update-gone :
    (cmd : Command) (id : String) (cs : List Command)
    → str_eq cmd.id id ≡ false
    → find_key cmd_key id cs ≡ none
    → find_key cmd_key id (update_key cmd_key cmd.id (λ _. true) (λ _. cmd) cs) ≡ none
unfolding find_key update_key
update-gone cmd id [] ne h = h
update-gone cmd id (c ∷ cs) ne h = ground (arith, ne, h, update-gone cmd id cs)

append-gone :
    (cmd : Command) (id : String) (cs : List Command)
    → str_eq cmd.id id ≡ false
    → find_key cmd_key id cs ≡ none
    → find_key cmd_key id (cs ++ cmd ∷ []) ≡ none
unfolding find_key
append-gone cmd id [] ne h = ground (arith, ne)
append-gone cmd id (c ∷ cs) ne h = ground (arith, ne, h, append-gone cmd id cs)

stored-IsGone :
    (cmd : Command) (id : String) (q : Queue)
    → str_eq cmd.id id ≡ false
    → IsGone id q
    → IsGone id (stored cmd q)
stored-IsGone cmd id q ne h = elim (Option-cases (find_key cmd_key cmd.id q.commands)) [
  | inl e ↦
      ap (find_key cmd_key id) (upsert_key_new cmd_key cmd (λ _. cmd) q.commands e)
      ∙ append-gone cmd id q.commands ne h
  | inr (c, e) ↦
      ap (find_key cmd_key id) (upsert_key_old cmd_key cmd (λ _. cmd) q.commands c e)
      ∙ update-gone cmd id q.commands ne h
]

trimmed-IsGone : (now : ℕ) (id : String) (q : Queue) → IsGone id q → IsGone id (trimmed now q)
unfolding evict_completed_commands
trimmed-IsGone now id q h = elim (Bool-cases (ltb max_stored_commands (length q.commands))) [
  | inl e ↦ rw e (find_key-keep_if cmd_key id (λ c. not (is_evicted now q c)) q.commands h)
  | inr e ↦ rw e h
]

dequeue-commands : (ch : ℕ) (q : Queue) → (dequeue ch q).1.commands ≡ q.commands
unfolding dequeue
dequeue-commands ch q = go (first_new q.dequeued q.pending).0 (first_new q.dequeued q.pending).1
  where
    go :
        (found : Option Command) (rest : List Command)
        → (taken ch found rest q).commands ≡ q.commands
    go none rest = refl
    go (some c) rest = refl

-- The sections that leave the stored commands alone.
receive_result-commands : (j : String) (q : Queue) → (receive_result j q).1.commands ≡ q.commands
unfolding receive_result record_result
receive_result-commands j q = ground arith

mark_reported-commands : (j : String) (q : Queue) → (mark_reported j q).1.commands ≡ q.commands
unfolding mark_reported
mark_reported-commands j q = ground arith

receive_command-commands : (ch : ℕ) (q : Queue) → (receive_command ch q).1.commands ≡ q.commands
unfolding receive_command
receive_command-commands ch q = ground arith

take_report-commands :
    (j : String) (s : Bool) (o : Output) (q : Queue) → (take_report j s o q).1.commands ≡ q.commands
unfolding take_report
take_report-commands j s o q = ground arith

send_result-commands :
    (n : Bool) (r : Result) (q : Queue) → (send_result n r q).commands ≡ q.commands
unfolding send_result
send_result-commands n r q = ground arith

act-IsGone :
    (s : Section) (ss : List Section) (id : String) (q : Queue)
    → avoids id (s ∷ ss) ≡ true
    → IsGone id q
    → IsGone id (act s q)
unfolding act enqueue remove_cmd record_result stop_waiting notify_step
act-IsGone (enqueues now cmd) ss id q a h =
    trimmed-IsGone now id (stored cmd q) (stored-IsGone cmd id q (ground (arith, a)) h)
act-IsGone (takes_result j) ss id q a h = ap (find_key cmd_key id) (receive_result-commands j q) ∙ h
act-IsGone (marks j) ss id q a h = ap (find_key cmd_key id) (mark_reported-commands j q) ∙ h
act-IsGone (removes j) ss id q a h =
    find_key-keep_if cmd_key id (λ c. not (str_eq c.id j)) q.commands h
act-IsGone (dequeues ch) ss id q a h = ap (find_key cmd_key id) (dequeue-commands ch q) ∙ h
act-IsGone (receives ch) ss id q a h = ap (find_key cmd_key id) (receive_command-commands ch q) ∙ h
act-IsGone (stops ch) ss id q a h = h
act-IsGone (reports j s o) ss id q a h = ap (find_key cmd_key id) (take_report-commands j s o q) ∙ h
act-IsGone (records r) ss id q a h = h
act-IsGone (sends n r) ss id q a h = ap (find_key cmd_key id) (send_result-commands n r q) ∙ h
act-IsGone (adds_step st) ss id q a h = h

avoids-rest :
    (s : Section) (ss : List Section) (id : String)
    → avoids id (s ∷ ss) ≡ true
    → avoids id ss ≡ true
avoids-rest (enqueues now cmd) ss id a = ground (arith, a)
avoids-rest (takes_result j) ss id a = a
avoids-rest (marks j) ss id a = a
avoids-rest (removes j) ss id a = a
avoids-rest (dequeues ch) ss id a = a
avoids-rest (receives ch) ss id a = a
avoids-rest (stops ch) ss id a = a
avoids-rest (reports j s o) ss id a = a
avoids-rest (records r) ss id a = a
avoids-rest (sends n r) ss id a = a
avoids-rest (adds_step st) ss id a = a

run-IsGone :
    (ss : List Section) (id : String) (q : Queue)
    → avoids id ss ≡ true
    → IsGone id q
    → IsGone id (run ss q)
run-IsGone [] id q a h = h
run-IsGone (s ∷ ss) id q a h =
    run-IsGone ss id (act s q) (avoids-rest s ss id a) (act-IsGone s ss id q a h)

unknown :
    (id : String) (success : Bool) (output : Output) (q : Queue)
    → IsGone id q
    → notify_result id success output q ≡ q
unfolding notify_result take_report
unknown id success output q h = ground (arith, h)

-- A late report changes nothing: once a call has handled its timeout or its cancellation, and after any
-- sections of any threads that do not enqueue the id again, a report of the command leaves the queue,
-- its history and its channels as they are.
pub late_report :
    (cmd : Command) (message : String) (q : Queue) (ss : List Section) (success : Bool)
    (output : Output)
    → avoids cmd.id ss ≡ true
    → let q' = run ss (handle_timeout_or_cancel cmd message q).1 in
      notify_result cmd.id success output q' ≡ q'
unfolding handle_timeout_or_cancel remove_cmd
late_report cmd message q ss success output a =
    let removed = (handle_timeout_or_cancel cmd message q).1 in
    unknown cmd.id success output (run ss removed)
      (run-IsGone ss cmd.id removed a (removed-gone cmd.id _))
