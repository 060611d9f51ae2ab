-- ===== src/Gate/Routes.antt =====
-- The other routes of backend/internal/api/approval_handler.go, and the switch of the mode.
use serein.Base.{ℕ, Bool, ◌&&◌, Option, none, some, String, if◌then◌else◌, ℤ, pos, negsuc, ltb}
use serein.Approval.Model.{Decision}
use serein.Approval.Service.{get, status, list, delete_all_except_pending}
use serein.Risk.Permission.{Mode, is_valid_permission_mode}
use serein.Gate.Handlers.{Server, Reply, not_found, detail, page, deleted}

-- `parsePaging` of router.go, of the two numbers.
abbrev pub paging : ℤ → ℕ
paging (pos n) = n
paging (negsuc n) = 0

-- `History`; the status is `none` for the empty text.
unfoldable pub history_approvals : ℤ → ℤ → Option Decision → String → ℕ → Server → Reply
unfolding list
history_approvals limit offset status project now srv =
    let n = paging limit in
    let (items, total) =
      list (pos (if ltb 1000 n then 1000 else n)) (pos (paging offset)) status project now
        srv.rows in
    page items total

-- `Detail`
unfoldable pub detail_approval : String → Server → Reply
unfolding get
detail_approval id srv = elim (get id srv.rows) [ none ↦ not_found | some r ↦ detail r ]

-- `ClearHistory`
unfoldable pub clear_history : Server → Reply × Server
unfolding delete_all_except_pending
clear_history srv =
    let (n, rows) = delete_all_except_pending srv.rows in (deleted n, record srv { rows = rows })

-- `handleModeSwitch` of ws_handler.go, without its broadcast: a phone may set the hub's mode to one that
-- is valid.
unfoldable pub mode_switch : Bool → Mode → Server → Server
unfolding is_valid_permission_mode
mode_switch from_phone m srv = elim srv.hub [
  | none ↦ srv
  | some _ ↦ if from_phone && is_valid_permission_mode m then record srv { hub = some m } else srv
]
