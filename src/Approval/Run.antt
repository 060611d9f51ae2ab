-- ===== src/Approval/Run.antt =====
-- The calls on the approvals (backend/internal/approval, and the check of a verdict in `Decide` of
-- backend/internal/api/approval_handler.go), sequences of them, and the life of a row as a diagram.
pub mod Refines
pub mod History
pub mod Final
pub mod Alerts
use serein.Base.{ℕ, ◌≡◌, Bool, true, false, String, List, [], ◌∷◌}
use serein.Base.Table.{Grows, Grows-refl, Grows-trans}
use serein.Approval.Model.{Record, CreateReq, Decision, allow, deny}
use serein.Approval.Service.{
  create, status, decide, created_row, is_pending, is_overdue, is_undecided, timed_out, decided,
  notified,
}
use serein.Approval.Scanner.{scan}

-- The handler lets these two decisions through.
pub data Verdict : Type 0 where
  allows denies : Verdict

abbrev pub decision_of : Verdict → Decision
decision_of allows = allow
decision_of denies = deny

pub data Call : Type 0 where
  creates : String → CreateReq → Call
  asks : String → Call
  answers : String → Verdict → String → Call
  scans : (Record → ℕ × ℕ) → Call

-- The rows after a call at a time, where an approval waits for `timeout`.
unfoldable pub perform : ℕ → Call → ℕ → List Record → List Record
perform timeout (creates id req) now rows = (create timeout id now req rows).1
perform timeout (asks id) now rows = (status id now rows).1
perform timeout (answers id v by) now rows = (decide id (decision_of v) by now rows).1
perform timeout (scans clock) now rows = (scan now clock rows).1

unfoldable pub run : ℕ → List (ℕ × Call) → List Record → List Record
run timeout [] rows = rows
run timeout ((now, c) ∷ calls) rows = run timeout calls (perform timeout c now rows)

-- The changes that a row may go through.
pub data Step (r s : Record) : Type 0 where
  expire : (now : ℕ) → is_overdue now r ≡ true → s ≡ timed_out now r → Step r s
  answer :
      (v : Verdict) (by : String) (now : ℕ)
      → is_undecided now r ≡ true
      → s ≡ decided (decision_of v) by now r
      → Step r s
  notify : (now : ℕ) → is_pending r ≡ false → s ≡ notified now r → Step r s

pub data Evolves (r : Record) : Record → Type 0 where
  here : Evolves r r
  next : {s t : Record} → Evolves r s → Step s t → Evolves r t

pub Evolves_trans : {r s t : Record} → Evolves r s → Evolves s t → Evolves r t
Evolves_trans p here = p
Evolves_trans p (next q st) = next (Evolves_trans p q) st

pub data IsNew (r : Record) : Type 0 where
  created :
      (timeout : ℕ) (id : String) (now : ℕ) (req : CreateReq)
      → Evolves (created_row timeout id now req) r
      → IsNew r

abbrev pub Advances : List Record → List Record → Type 0
Advances = Grows Evolves IsNew

IsNew-Evolves : (r s : Record) → IsNew r → Evolves r s → IsNew s
IsNew-Evolves r s (created timeout id now req p) e = created timeout id now req (Evolves_trans p e)

pub Advances-refl : (xs : List Record) → Advances xs xs
Advances-refl = Grows-refl Evolves IsNew (λ r. here)

pub Advances-trans : (xs ys zs : List Record) → Advances xs ys → Advances ys zs → Advances xs zs
Advances-trans = Grows-trans Evolves IsNew (λ a b c p q. Evolves_trans p q) IsNew-Evolves
