-- ===== src/Approval/Pages.antt =====
-- The history of approvals in pages, and its clearing.
use serein.Base.{
  ℕ, ◌+◌, ◌-◌, ◌≤◌, ◌≡◌, refl, true, Option, none, some, String, List, ℤ, pos, negsuc, arith,
  if◌then◌else◌, leb, length, drop, keep_if, order_by, All, All-map, All-take, All-drop,
  All-order_by, All-keep_if_self, length-take, length-drop, length-order_by, length-keep_if_same,
  length-keep_if-not,
}
use serein.Approval.Model.{Record, Decision, pending}
use serein.Approval.Service.{
  list, page_limit, page_offset, is_listed, is_counted, is_newer, is_undecided, is_pending,
  delete_all_except_pending,
}

-- The two WHERE clauses agree.
counted_as_listed :
    (status : Option Decision) (project : String) (now : ℕ) (r : Record)
    → is_listed status project now r ≡ is_counted status project now r
unfolding is_listed is_counted
counted_as_listed none project now r = refl
counted_as_listed (some status) project now r = ground arith

page_limit_bounds : (limit : ℤ) → (1 ≤ page_limit limit) × (page_limit limit ≤ 500)
unfolding page_limit
page_limit_bounds (pos n) = ground arith
page_limit_bounds (negsuc n) = ground arith

-- A page of the history, for any limit, offset and filter: the limit that is used is from 1 to 500;
-- the page has that many rows, or what the total leaves after the offset if that is less; and each of
-- its rows passes the filter.
pub list_page :
    (limit offset : ℤ) (status : Option Decision) (project : String) (now : ℕ) (rows : List Record)
    → let (page, total) = list limit offset status project now rows in
      let n = page_limit limit in
      let left = total - page_offset offset in
      (1 ≤ n)
      × (n ≤ 500)
      × (length page ≡ (if leb n left then n else left))
      × All (λ r. is_listed status project now r ≡ true) page
unfolding list
list_page limit offset status project now rows =
    let p = is_listed status project now in
    let kept = keep_if p rows in
    let sorted = order_by is_newer kept in
    let rest = drop (page_offset offset) sorted in
    let IsListed : Record → Type 0 = λ r. p r ≡ true in
    let (low, high) = page_limit_bounds limit in
    (
      low,
      high,
      ground (
        arith,
        length-take (page_limit limit) rest,
        length-drop (page_offset offset) sorted,
        length-order_by is_newer kept,
        length-keep_if_same p (is_counted status project now) (counted_as_listed status project now)
            rows,
      ),
      All-take IsListed (page_limit limit) rest (
          All-drop IsListed (page_offset offset) sorted
            (All-order_by is_newer IsListed kept (All-keep_if_self p rows))),
    )

pending_open :
    (project : String) (now : ℕ) (r : Record)
    → is_listed (some pending) project now r ≡ true
    → is_undecided now r ≡ true
unfolding is_listed
pending_open project now r h = ground arith

-- What is listed as pending can still be decided: the rows whose time limit has passed are left out,
-- whether or not they are marked as timed out already.
pub list_pending :
    (limit offset : ℤ) (project : String) (now : ℕ) (rows : List Record)
    → All (λ r. is_undecided now r ≡ true) (list limit offset (some pending) project now rows).0
list_pending limit offset project now rows =
    let (low, high, size, listed) = list_page limit offset (some pending) project now rows in
    All-map (λ r. is_listed (some pending) project now r ≡ true) (λ r. is_undecided now r ≡ true)
      (pending_open project now) (list limit offset (some pending) project now rows).0 listed

-- Clearing the history leaves pending approvals only, and counts exactly the rows that it removes.
pub delete_all_except_pending_lem :
    (rows : List Record)
    → let (n, rest) = delete_all_except_pending rows in
      All (λ r. is_pending r ≡ true) rest × (n + length rest ≡ length rows)
unfolding delete_all_except_pending
delete_all_except_pending_lem rows =
    (All-keep_if_self is_pending rows, length-keep_if-not is_pending rows)
