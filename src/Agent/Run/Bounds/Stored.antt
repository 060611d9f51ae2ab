-- ===== src/Agent/Run/Bounds/Stored.antt =====
-- Enqueueing and removing a command keep the queue in order.
use serein.Base.{
  ℕ, ◌≡◌, refl, sym, ◌∙◌, ap, subst, inl, inr, Bool, true, false, not, ◌||◌, some, String, List, [],
  ◌∷◌, ◌++◌, str_eq, eq_refl, eq_iff, arith, keep_if, All, All-map, All-both, All-append, length,
  ltb, Bool-cases, Option-cases,
}
use serein.Base.Rows.{upsert_key_new, upsert_key_old}
use serein.Base.Table.{find_key, update_key, upsert_key}
use serein.Agent.Model.{Command, Queue, cmd_key}
use serein.Agent.Queue.{
  enqueue, remove_cmd, is_evicted, stored, trimmed, without_first, max_stored_commands,
  evict_completed_commands,
}
use serein.Agent.Fifo.{is_listed, not_evicted, All-listed}
use serein.Agent.Run.Bounds.{IsDistinct, IsQueue}

module _ (p : Command → Bool) (id : String) where
  listed-keep_if :
      (cs : List Command)
      → ((c : Command) → str_eq c.id id ≡ true → p c ≡ true)
      → is_listed id cs ≡ true
      → is_listed id (keep_if p cs) ≡ true
  unfolding is_listed
  listed-keep_if [] g h = h
  listed-keep_if (c ∷ cs) g h = elim (Bool-cases (str_eq c.id id)) [
    | inl e ↦ ground (arith, e, g c e)
    | inr e ↦ ground (arith, e, listed-keep_if cs g)
  ]

listed-update :
    (cmd : Command) (id : String) (cs : List Command)
    → is_listed id cs ≡ true
    → is_listed id (update_key cmd_key cmd.id (λ _. true) (λ _. cmd) cs) ≡ true
unfolding is_listed update_key
listed-update cmd id [] h = h
listed-update cmd id (c ∷ cs) h = ground (arith, h, eq_iff c.id cmd.id, listed-update cmd id cs)

listed-append :
    (cmd : Command) (id : String) (cs : List Command)
    → is_listed id (cs ++ cmd ∷ []) ≡ (is_listed id cs || str_eq cmd.id id)
unfolding is_listed
listed-append cmd id [] = ground arith
listed-append cmd id (c ∷ cs) = ground (arith, listed-append cmd id cs)

listed-found :
    (cmd : Command) (id : String) (cs : List Command)
    → find_key cmd_key id cs ≡ some cmd
    → is_listed id cs ≡ true
unfolding is_listed find_key
listed-found cmd id [] h = cc
listed-found cmd id (c ∷ cs) h = ground (arith, h, listed-found cmd id cs)

listed_same :
    (cmd c : Command) (id : String) (cs : List Command)
    → find_key cmd_key cmd.id cs ≡ some c
    → (is_listed id cs || str_eq cmd.id id) ≡ true
    → is_listed id cs ≡ true
listed_same cmd c id cs found h = elim (Bool-cases (str_eq cmd.id id)) [
  | inl e ↦
      subst (λ t. is_listed t cs ≡ true) ((eq_iff cmd.id id).0 e) (listed-found c cmd.id cs found)
  | inr e ↦ ground (arith, h, e)
]

-- The commands after `commands[id] = cmd` list the id, and what they listed before.
listed-stored :
    (cmd : Command) (id : String) (cs : List Command)
    → (is_listed id cs || str_eq cmd.id id) ≡ true
    → is_listed id (upsert_key cmd_key cmd (λ _. cmd) cs) ≡ true
listed-stored cmd id cs h = elim (Option-cases (find_key cmd_key cmd.id cs)) [
  | inl e ↦
      ap (is_listed id) (upsert_key_new cmd_key cmd (λ _. cmd) cs e) ∙ listed-append cmd id cs ∙ h
  | inr (c, e) ↦
      ap (is_listed id) (upsert_key_old cmd_key cmd (λ _. cmd) cs c e)
      ∙ listed-update cmd id cs (listed_same cmd c id cs e h)
]

append-IsDistinct :
    (cmd : Command) (cs : List Command)
    → is_listed cmd.id cs ≡ false
    → IsDistinct cs
    → IsDistinct (cs ++ cmd ∷ [])
unfolding is_listed
append-IsDistinct cmd [] f h = (refl, tt)
append-IsDistinct cmd (c ∷ cs) f h = (
  ground (arith, f, h.0, listed-append cmd c.id cs, eq_iff c.id cmd.id, eq_iff cmd.id c.id),
  append-IsDistinct cmd cs (ground (arith, f)) h.1,
)

stored-IsQueue :
    (cmd : Command) (q : Queue)
    → IsQueue q
    → is_listed cmd.id q.pending ≡ false
    → IsQueue (stored cmd q)
stored-IsQueue cmd q h f = record {
  few_results = h.few_results;
  few_steps = h.few_steps;
  distinct = append-IsDistinct cmd q.pending f h.distinct;
  are_stored =
      All-append (λ c. is_listed c.id (stored cmd q).commands ≡ true) q.pending (cmd ∷ [])
        (All-map (λ c. is_listed c.id q.commands ≡ true)
          (λ c. is_listed c.id (stored cmd q).commands ≡ true)
          (λ c e. listed-stored cmd c.id q.commands (ground (arith, e))) q.pending h.are_stored)
        (listed-stored cmd cmd.id q.commands (ground (arith, eq_refl cmd.id)), tt);
}

pending_stays :
    (now : ℕ) (q : Queue) (c d : Command)
    → str_eq d.id c.id ≡ true
    → is_listed c.id q.pending ≡ true
    → not (is_evicted now q d) ≡ true
pending_stays now q c d e h = ap not (
    not_evicted now q d
      (subst (λ t. is_listed t q.pending ≡ true) (sym ((eq_iff d.id c.id).0 e)) h))

evict-IsQueue : (now : ℕ) (q : Queue) → IsQueue q → IsQueue (evict_completed_commands now q)
unfolding evict_completed_commands
evict-IsQueue now q h = record {
  few_results = h.few_results;
  few_steps = h.few_steps;
  distinct = h.distinct;
  are_stored =
      All-map (λ c. (is_listed c.id q.pending ≡ true) × (is_listed c.id q.commands ≡ true))
        (λ c. is_listed c.id (keep_if (λ d. not (is_evicted now q d)) q.commands) ≡ true)
        (λ c both.
          listed-keep_if (λ d. not (is_evicted now q d)) c.id q.commands
            (λ d e. pending_stays now q c d e both.0) both.1)
        q.pending
        (All-both (λ c. is_listed c.id q.pending ≡ true) (λ c. is_listed c.id q.commands ≡ true)
          q.pending (All-listed q.pending) h.are_stored);
}

trimmed-IsQueue : (now : ℕ) (q : Queue) → IsQueue q → IsQueue (trimmed now q)
trimmed-IsQueue now q h = elim (Bool-cases (ltb max_stored_commands (length q.commands))) [
  | inl e ↦ rw e (evict-IsQueue now q h)
  | inr e ↦ rw e h
]

pub enqueue-IsQueue :
    (now : ℕ) (cmd : Command) (q : Queue)
    → IsQueue q
    → is_listed cmd.id q.pending ≡ false
    → IsQueue (enqueue now cmd q)
unfolding enqueue
enqueue-IsQueue now cmd q h f =
    let t = trimmed-IsQueue now (stored cmd q) (stored-IsQueue cmd q h f) in
    record {
      few_results = t.few_results;
      few_steps = t.few_steps;
      distinct = t.distinct;
      are_stored = t.are_stored;
    }

without_first-All :
    (P : Command → Type 0) (id : String) (cs : List Command)
    → All P cs
    → All P (without_first id cs)
without_first-All P id [] h = tt
without_first-All P id (c ∷ cs) h = elim (Bool-cases (str_eq c.id id)) [
  | inl e ↦ rw e h.1
  | inr e ↦ rw e (h.0, without_first-All P id cs h.1)
]

unlisted :
    (id j : String) (cs : List Command)
    → is_listed j cs ≡ false
    → is_listed j (without_first id cs) ≡ false
unfolding is_listed
unlisted id j [] h = h
unlisted id j (c ∷ cs) h = ground (arith, h, unlisted id j cs)

without_first-IsDistinct :
    (id : String) (cs : List Command) → IsDistinct cs → IsDistinct (without_first id cs)
without_first-IsDistinct id [] h = tt
without_first-IsDistinct id (c ∷ cs) h = elim (Bool-cases (str_eq c.id id)) [
  | inl e ↦ rw e h.1
  | inr e ↦ rw e (unlisted id c.id cs h.0, without_first-IsDistinct id cs h.1)
]

unlisted-All :
    (id : String) (cs : List Command)
    → is_listed id cs ≡ false
    → All (λ c. str_eq c.id id ≡ false) cs
unfolding is_listed
unlisted-All id [] h = tt
unlisted-All id (c ∷ cs) h = (ground (arith, h), unlisted-All id cs (ground (arith, h)))

-- Of commands with different ids, the first with an id is the only one.
others-differ :
    (id : String) (cs : List Command)
    → IsDistinct cs
    → All (λ c. str_eq c.id id ≡ false) (without_first id cs)
others-differ id [] h = tt
others-differ id (c ∷ cs) h = elim (Bool-cases (str_eq c.id id)) [
  | inl e ↦
      rw e (unlisted-All id cs (subst (λ t. is_listed t cs ≡ false) ((eq_iff c.id id).0 e) h.0))
  | inr e ↦ rw e (e, others-differ id cs h.1)
]

pub remove_cmd-IsQueue : (id : String) (q : Queue) → IsQueue q → IsQueue (remove_cmd id q)
unfolding remove_cmd
remove_cmd-IsQueue id q h = record {
  few_results = h.few_results;
  few_steps = h.few_steps;
  distinct = without_first-IsDistinct id q.pending h.distinct;
  are_stored =
      All-map (λ c. (str_eq c.id id ≡ false) × (is_listed c.id q.commands ≡ true))
        (λ c. is_listed c.id (keep_if (λ d. not (str_eq d.id id)) q.commands) ≡ true)
        (λ c both.
          listed-keep_if (λ d. not (str_eq d.id id)) c.id q.commands
            (λ d e. ap not (subst (λ t. str_eq t id ≡ false) (sym ((eq_iff d.id c.id).0 e)) both.0))
            both.1)
        (without_first id q.pending)
        (All-both (λ c. str_eq c.id id ≡ false) (λ c. is_listed c.id q.commands ≡ true)
          (without_first id q.pending) (others-differ id q.pending h.distinct)
          (without_first-All (λ c. is_listed c.id q.commands ≡ true) id q.pending h.are_stored));
}
