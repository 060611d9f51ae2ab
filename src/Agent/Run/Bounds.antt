-- ===== src/Agent/Run/Bounds.antt =====
-- What holds of the command queue after any sections: its bounds, and that a pending command is stored.
pub mod Same
pub mod Stored
pub mod Sections
use serein.Base.{
  ℕ, ◌-◌, ◌≤◌, ◌≡◌, refl, sym, ◌∙◌, ap, subst, ◌≢◌, inl, inr, Bool, true, false, not, ◌&&◌, ◌||◌,
  Option, none, some, String, List, [], ◌∷◌, ◌++◌, str_eq, eq_refl, eq_iff, arith, if◌then◌else◌,
  keep_if, any, contains, All, All-map, All-append, All-keep_if, length, drop, length-drop, ltb,
  Bool-cases, Option-cases,
}
use serein.Base.Table.{find_key, update_key, upsert_key}
use serein.Agent.Model.{Command, Step, Output, Result, Queue, cmd_key}
use serein.Agent.Queue.{
  enqueue, receive_result, record_result, mark_reported, remove_cmd, dequeue, receive_command,
  first_new, stop_waiting, is_evicted, stored, trimmed, taken, without_first, max_stored_commands,
  evict_completed_commands,
}
use serein.Agent.Reports.{take_report, accept_report, send_result, notify_step}
use serein.Agent.Fifo.{is_listed, not_evicted, All-listed}
use serein.Agent.Run.{
  Section, enqueues, takes_result, marks, removes, dequeues, receives, stops, reports, records,
  sends, adds_step, act, run,
}

-- The ids of the commands are different.
abbrev pub IsDistinct : List Command → Type 0
IsDistinct [] = Unit
IsDistinct (c ∷ cs) = (is_listed c.id cs ≡ false) × IsDistinct cs

abbrev pub AreStored : List Command → List Command → Type 0
AreStored commands pending = All (λ c. is_listed c.id commands ≡ true) pending

pub record IsQueue (q : Queue) : Type 0 where
  pub few_results : length q.history ≤ q.max_history
  pub few_steps : length q.steps ≤ q.max_steps
  pub distinct : IsDistinct q.pending
  pub are_stored : AreStored q.commands q.pending

-- An enqueued command has a new id.
abbrev pub is_fresh : Section → Queue → Bool
is_fresh (enqueues now cmd) q = not (is_listed cmd.id q.pending)
is_fresh _ q = true

abbrev pub are_fresh : List Section → Queue → Bool
are_fresh [] q = true
are_fresh (s ∷ ss) q = is_fresh s q && are_fresh ss (act s q)
