-- ===== src/Agent/Run/Once.antt =====
-- A command is handed out once, and settled once.
use serein.Base.{
  ℕ, ◌≡◌, sym, subst, ◌≢◌, inl, inr, Bool, true, false, Option, none, some, String, List, [], ◌∷◌,
  eq_refl, arith, contains, All, Bool-cases, Option-cases,
}
use mathlib.Core.Option.{some-injective}
use serein.Base.Table.{find_key, key-find_key}
use serein.Agent.Model.{Command, Output, Queue, cmd_key}
use serein.Agent.Queue.{mark_reported, dequeue, receive_command, first_new, taken}
use serein.Agent.Reports.{take_report}
use serein.Agent.Run.{
  Section, marks, dequeues, receives, reports, act, handed, settled, clears, keeps,
}
use serein.Agent.Run.{all_events, result_id}
use serein.Agent.Run.Marks.{was_dequeued, was_reported, act-Keeps}

-- An event that marks a command, happens to an unmarked one only; and so it happens to none again
-- that is marked, while the marks are kept.
module _ {A : Type 0} (event : Section → Queue → Option A) (name : A → String)
    (marked : Queue → String → Bool)
    (fresh : (s : Section) (q : Queue) (a : A) → event s q ≡ some a → marked q (name a) ≡ false)
    (kept : (s : Section) (q : Queue) (id : String)
      → clears s q id ≡ false
      → marked q id ≡ true
      → marked (act s q) id ≡ true) where
  never_again :
      (id : String) (ss : List Section) (q : Queue)
      → marked q id ≡ true
      → keeps id ss q ≡ true
      → All (λ a. name a ≢ id) (all_events event ss q)
  never_again id [] q m k = tt
  never_again id (s ∷ ss) q m k =
      let rest =
        never_again id ss (act s q) (kept s q id (ground (arith, k)) m) (ground (arith, k)) in
      elim (Option-cases (event s q)) [
        | inl e ↦ rw e rest
        | inr (a, e) ↦ rw e (
          λ same.
              absurd (ground (arith, fresh s q a e, subst (λ t. marked q t ≡ true) (sym same) m)),
          rest,
        )
      ]

first_new-fresh :
    (d : List String) (cs : List Command) (c : Command)
    → (first_new d cs).0 ≡ some c
    → contains d c.id ≡ false
unfolding first_new
first_new-fresh d [] c h = cc
first_new-fresh d (x ∷ cs) c h = elim (Bool-cases (contains d x.id)) [
  | inl old ↦ first_new-fresh d cs c (rw old at h)
  | inr new ↦ subst (λ y. contains d y.id ≡ false) (some-injective x c (rw new at h)) new
]

dequeue-marked :
    (ch : ℕ) (q : Queue) (c : Command)
    → (dequeue ch q).0 ≡ some c
    → was_dequeued (dequeue ch q).1 c.id ≡ true
unfolding dequeue contains
dequeue-marked ch q c h = go (first_new q.dequeued q.pending).0 (first_new q.dequeued q.pending).1 h
  where
    go :
        (found : Option Command) (rest : List Command)
        → found ≡ some c
        → was_dequeued (taken ch found rest q) c.id ≡ true
    go none rest e = cc
    go (some d) rest e = ground (arith, e, eq_refl c.id)

-- What is handed out was not marked, and is then; likewise what is settled.
handed_fresh :
    (s : Section) (q : Queue) (c : Command)
    → handed s q ≡ some c
    → (was_dequeued q c.id ≡ false) × (was_dequeued (act s q) c.id ≡ true)
unfolding act receive_command dequeue contains
handed_fresh (dequeues ch) q c h =
    (first_new-fresh q.dequeued q.pending c h, dequeue-marked ch q c h)
handed_fresh (receives ch) q c h = ground (arith, h, eq_refl c.id)
handed_fresh _ q c h = cc

report_fresh :
    (cmd : Command) (j : String) (success : Bool) (output : Output) (q : Queue) (id : String)
    → find_key cmd_key j q.commands ≡ some cmd
    → cmd.id ≡ j
    → result_id (take_report j success output q).0 ≡ some id
    → (was_reported q id ≡ false) × (was_reported (take_report j success output q).1 id ≡ true)
unfolding take_report contains
report_fresh cmd j success output q id found same h = ground (arith, found, same, h, eq_refl id)

settled_fresh :
    (s : Section) (q : Queue) (id : String)
    → settled s q ≡ some id
    → (was_reported q id ≡ false) × (was_reported (act s q) id ≡ true)
unfolding act take_report mark_reported contains
settled_fresh (reports j success output) q id h =
    elim (Option-cases (find_key cmd_key j q.commands)) [
      | inl missing ↦ absurd (ground (arith, h, missing))
      | inr (cmd, found) ↦
          let same : cmd.id ≡ j = key-find_key cmd_key j q.commands cmd found in
          report_fresh cmd j success output q id found same h
    ]
settled_fresh (marks j) q id h = ground (arith, h, eq_refl id)
settled_fresh _ q id h = cc

-- A command is handed to one agent only: after a section has handed it out, no sections that other
-- threads run, in any order, hand out a command of its id, until it is removed or evicted.
pub handed_once :
    (s : Section) (q : Queue) (c : Command) (ss : List Section)
    → handed s q ≡ some c
    → keeps c.id ss (act s q) ≡ true
    → All (λ d. d.id ≢ c.id) (all_events handed ss (act s q))
handed_once s q c ss h k =
    never_again handed (λ d. d.id) was_dequeued (λ t p d e. (handed_fresh t p d e).0)
      (λ t p id e. (act-Keeps t p id e).0) c.id ss (act s q) (handed_fresh s q c h).1 k

-- A command is settled once: after a section has accepted a report of it or found its time to be over,
-- no sections, in any order, accept another report or find so again, until it is removed or evicted.
pub settled_once :
    (s : Section) (q : Queue) (id : String) (ss : List Section)
    → settled s q ≡ some id
    → keeps id ss (act s q) ≡ true
    → All (λ j. j ≢ id) (all_events settled ss (act s q))
settled_once s q id ss h k =
    never_again settled (λ j. j) was_reported (λ t p j e. (settled_fresh t p j e).0)
      (λ t p j e. (act-Keeps t p j e).1) id ss (act s q) (settled_fresh s q id h).1 k
