-- ===== src/Agent/Fifo.antt =====
-- The queue of backend/internal/agent/relay.go as a plain queue, first in, first out.
use serein.Base.{
  ℕ, ◌≡◌, refl, sym, ◌∙◌, ap, subst, Bool, true, false, not, ◌&&◌, Option, none, some, String, List,
  [], ◌∷◌, ◌++◌, str_eq, eq_refl, eq_iff, arith, keep_if, any, contains, All, All-map, length, ltb,
  Bool-cases, Option-cases, inl, inr,
}
use serein.Agent.Model.{Command, Queue}
use serein.Agent.Queue.{
  first_new, dequeue, receive_command, enqueue, evict_completed_commands, is_evicted, is_gone,
  max_stored_commands, taken, stored, trimmed,
}

-- The plain queue: the commands that wait for an agent, in their order.
abbrev pub is_new : List String → Command → Bool
is_new dequeued c = not (contains dequeued c.id)

abbrev pub waiting : Queue → List Command
waiting q = keep_if (is_new q.dequeued) q.pending

abbrev pub head_of : List Command → Option Command
head_of [] = none
head_of (c ∷ cs) = some c

-- What is left when a command has been handed out.
abbrev pub others : Option Command → List Command → List Command
others none cs = cs
others (some c) cs = keep_if (λ d. not (str_eq c.id d.id)) cs

abbrev marked : Option Command → List String → List String
marked none d = d
marked (some c) d = c.id ∷ d

hides :
    (c : Command) (dequeued : List String) (cs : List Command)
    → keep_if (is_new (c.id ∷ dequeued)) cs
      ≡ keep_if (λ d. not (str_eq c.id d.id)) (keep_if (is_new dequeued) cs)
unfolding contains
hides c dequeued [] = refl
hides c dequeued (d ∷ cs) = ground (arith, hides c dequeued cs)

hides_self :
    (c : Command) (cs : List Command)
    → keep_if (λ d. not (str_eq c.id d.id)) (c ∷ cs) ≡ keep_if (λ d. not (str_eq c.id d.id)) cs
hides_self c cs = ground (arith, eq_refl c.id)

first_new_lem :
    (dequeued : List String) (cs : List Command)
    → let (found, rest) = first_new dequeued cs in
      (found ≡ head_of (keep_if (is_new dequeued) cs))
      × (keep_if (is_new (marked found dequeued)) rest
          ≡ others found (keep_if (is_new dequeued) cs))
unfolding first_new
first_new_lem dequeued [] = (refl, refl)
first_new_lem dequeued (c ∷ cs) = elim (Bool-cases (contains dequeued c.id)) [
  | inl old ↦ rw old (first_new_lem dequeued cs)
  | inr new ↦ rw new (refl, hides c dequeued cs ∙ sym (hides_self c (keep_if (is_new dequeued) cs)))
]

-- `Dequeue` takes the head of the plain queue, and only that; with an empty queue it takes nothing.
pub dequeue_lem :
    (ch : ℕ) (q : Queue)
    → ((dequeue ch q).0 ≡ head_of (waiting q))
      × (waiting (dequeue ch q).1 ≡ others (head_of (waiting q)) (waiting q))
unfolding dequeue
dequeue_lem ch q =
    let (e, r) = first_new_lem q.dequeued q.pending in go (first_new q.dequeued q.pending) e r
  where
    go :
        (fr : Option Command × List Command)
        → fr.0 ≡ head_of (waiting q)
        → keep_if (is_new (marked fr.0 q.dequeued)) fr.1 ≡ others fr.0 (waiting q)
        → (fr.0 ≡ head_of (waiting q))
          × (waiting (taken ch fr.0 fr.1 q) ≡ others (head_of (waiting q)) (waiting q))
    go (none, rest) e r =
        (e, subst (λ o. keep_if (is_new q.dequeued) rest ≡ others o (waiting q)) e r)
    go (some c, rest) e r =
        (e, subst (λ o. keep_if (is_new (c.id ∷ q.dequeued)) rest ≡ others o (waiting q)) e r)

-- A waiter that is handed a command out of turn takes it out of the plain queue.
pub receive_command_lem :
    (ch : ℕ) (q : Queue)
    → waiting (receive_command ch q).1 ≡ others (receive_command ch q).0 (waiting q)
unfolding receive_command
receive_command_lem ch q = elim (Option-cases (q.channels ch)) [
  | inl e ↦ ground (arith, e)
  | inr (c, e) ↦ ground (arith, e, hides c q.dequeued q.pending)
]

unfoldable pub is_listed : String → List Command → Bool
is_listed id cs = any (λ p. str_eq p.id id) cs

pub not_evicted :
    (now : ℕ) (q : Queue) (c : Command)
    → is_listed c.id q.pending ≡ true
    → is_evicted now q c ≡ false
unfolding is_listed is_evicted
not_evicted now q c h = ground arith

not_gone :
    (now : ℕ) (q : Queue) (id : String) (cs : List Command)
    → is_listed id q.pending ≡ true
    → any (λ c. str_eq c.id id && is_evicted now q c) cs ≡ false
not_gone now q id [] h = refl
not_gone now q id (c ∷ cs) h = elim (Bool-cases (str_eq c.id id)) [
  | inl e ↦
      let same : c.id ≡ id = ground (arith, eq_iff c.id id) in
      ground (
        arith,
        not_evicted now q c (subst (λ t. is_listed t q.pending ≡ true) (sym same) h),
        not_gone now q id cs h,
      )
  | inr e ↦ ground (arith, e, not_gone now q id cs h)
]

pub contains_kept :
    (p : String → Bool) (id : String) (xs : List String)
    → p id ≡ true
    → contains (keep_if p xs) id ≡ contains xs id
unfolding contains
contains_kept p id [] h = refl
contains_kept p id (x ∷ xs) h = elim (Bool-cases (str_eq x id)) [
  | inl e ↦
      let same : x ≡ id = ground (arith, eq_iff x id) in
      ground (arith, e, subst (λ t. p t ≡ true) (sym same) h, contains_kept p id xs h)
  | inr e ↦ ground (arith, e, contains_kept p id xs h)
]

pub All-listed : (cs : List Command) → All (λ c. is_listed c.id cs ≡ true) cs
unfolding is_listed
All-listed [] = tt
All-listed (c ∷ cs) = (
  ground (arith, eq_refl c.id),
  All-map (λ d. is_listed d.id cs ≡ true) (λ d. is_listed d.id (c ∷ cs) ≡ true)
      (λ d h. ground (arith, h)) cs (All-listed cs),
)

new_again :
    (d d' : List String) (cs : List Command)
    → All (λ c. contains d' c.id ≡ contains d c.id) cs
    → keep_if (is_new d') cs ≡ keep_if (is_new d) cs
new_again d d' [] h = refl
new_again d d' (c ∷ cs) h = ground (arith, new_again d d' cs h.1)

-- Eviction changes nothing of the plain queue.
pub waiting-evict : (now : ℕ) (q : Queue) → waiting (evict_completed_commands now q) ≡ waiting q
unfolding evict_completed_commands
waiting-evict now q =
    new_again q.dequeued (keep_if (λ id. not (is_gone now q id)) q.dequeued) q.pending (
      All-map (λ c. is_listed c.id q.pending ≡ true)
        (λ c.
          contains (keep_if (λ id. not (is_gone now q id)) q.dequeued) c.id
          ≡ contains q.dequeued c.id)
        (λ c h.
          contains_kept (λ id. not (is_gone now q id)) c.id q.dequeued
            (ap not (not_gone now q c.id q.commands h)))
        q.pending (All-listed q.pending))

waiting-trimmed : (now : ℕ) (q : Queue) → waiting (trimmed now q) ≡ waiting q
waiting-trimmed now q = elim (Bool-cases (ltb max_stored_commands (length q.commands))) [
  | inl h ↦ rw h (waiting-evict now q)
  | inr h ↦ rw h refl
]

keep_if-append :
    (p : Command → Bool) (xs : List Command) (c : Command)
    → p c ≡ true
    → keep_if p (xs ++ c ∷ []) ≡ keep_if p xs ++ c ∷ []
keep_if-append p [] c h = ground (arith, h)
keep_if-append p (x ∷ xs) c h = ground (arith, keep_if-append p xs c h)

-- A command with a new id goes to the end of the plain queue, also when old commands are evicted.
pub enqueue_lem :
    (now : ℕ) (cmd : Command) (q : Queue)
    → contains q.dequeued cmd.id ≡ false
    → waiting (enqueue now cmd q) ≡ waiting q ++ cmd ∷ []
unfolding enqueue
enqueue_lem now cmd q h =
    waiting-trimmed now (stored cmd q) ∙ keep_if-append (is_new q.dequeued) q.pending cmd (ap not h)
