-- ===== src/Remote/Scanner/Alerts.antt =====
-- How often the scanner of audit events (backend/internal/remote/audit_scanner.go) alerts.
use serein.Base.{
  ℕ, ◌+◌, ◌<◌, ◌≡◌, refl, sym, ◌∙◌, ap, subst, Bool, true, false, ◌||◌, some, String, List, [], ◌∷◌,
  ◌++◌, ◌^^◌, str_eq, eq_iff, ltb, arith, any, All, Bool-cases, Option-cases, inl, inr,
}
use serein.Base.Table.{find_key, find_key-append, find_key-update_self, key-find_key}
use serein.Base.Rows.{find_key-upsert_ne, upsert_key_new, upsert_key_old}
use serein.Remote.Model.{AuditEvent}
use serein.Remote.Scanner.{
  AuditScanner, Alert, of_type, of_ip, dedup_window, reject_threshold, entry_key, is_recent,
  set_alert, count_events, alert_counts, scan_events,
}

-- The key under which an alert is remembered.
abbrev pub key_of : Alert → String
key_of (of_type k n) = "event:" ^^ k
key_of (of_ip k n) = "ip:" ^^ k

abbrev pub is_of : String → Alert → Bool
is_of key a = str_eq (key_of a) key

-- The key was alerted at `t`.
abbrev pub IsSent : String → ℕ → List (String × ℕ) → Type 0
IsSent key t last = find_key entry_key key last ≡ some (key, t)

set-IsSent :
    (key : String) (now : ℕ) (last : List (String × ℕ)) → IsSent key now (set_alert key now last)
set-IsSent key now last = elim (Option-cases (find_key entry_key key last)) [
  | inl e ↦
      rw (upsert_key_new entry_key (key, now) (λ a. (a.0, now)) last e)
        (find_key-append entry_key key last (key, now) e refl)
  | inr (o, e) ↦ rw (upsert_key_old entry_key (key, now) (λ a. (a.0, now)) last o e) (
      find_key-update_self entry_key key (λ _. true) (λ a. (a.0, now)) last o e refl
      ∙ ap (λ k. some (k, now)) (key-find_key entry_key key last o e))
]

-- The times of the others stay.
set-IsSent_ne :
    (k key : String) (now t : ℕ) (last : List (String × ℕ))
    → str_eq k key ≡ false
    → IsSent key t last
    → IsSent key t (set_alert k now last)
set-IsSent_ne k key now t last ne h =
    find_key-upsert_ne entry_key key (k, now) (λ a. (a.0, now)) last (key, t) (λ _. refl) ne h

recent : (now t : ℕ) (key : String) → now < t + dedup_window → is_recent now (some (key, t)) ≡ true
recent now t key h = ground arith

-- A key whose turn comes is not one that was alerted within the window.
sends_other :
    (k key : String) (count least now t : ℕ) (last : List (String × ℕ))
    → (ltb count least || is_recent now (find_key entry_key k last)) ≡ false
    → now < t + dedup_window
    → IsSent key t last
    → str_eq k key ≡ false
sends_other k key count least now t last sends near h = elim (Bool-cases (str_eq k key)) [
  | inr ne ↦ ne
  | inl e ↦
      let p : k ≡ key = ground (arith, eq_iff k key) in
      let sent : find_key entry_key k last ≡ some (key, t) =
        subst (λ j. find_key entry_key j last ≡ some (key, t)) (sym p) h in
      let late : is_recent now (some (key, t)) ≡ false = ground (arith, sends, sent) in
      absurd (ground (arith, late, recent now t key near))
]

module _ (alert : String → ℕ → Alert) (prefix : String)
    (named : (k : String) (n : ℕ) → key_of (alert k n) ≡ prefix ^^ k) (least : ℕ) where
  -- A key that was alerted within the window is not alerted again.
  alert_counts-quiet :
      (key : String) (t now : ℕ) (counts last : List (String × ℕ))
      → now < t + dedup_window
      → IsSent key t last
      → let out = alert_counts alert prefix least now counts last in
        (any (is_of key) out.0 ≡ false) × IsSent key t out.1
  unfolding alert_counts
  alert_counts-quiet key t now [] last near h = (refl, h)
  alert_counts-quiet key t now ((k, count) ∷ counts) last near h =
      elim (Bool-cases (ltb count least || is_recent now (find_key entry_key (prefix ^^ k) last))) [
        | inl skips ↦ rw skips (alert_counts-quiet key t now counts last near h)
        | inr sends ↦
            let other = sends_other (prefix ^^ k) key count least now t last sends near h in
            let rest =
              alert_counts-quiet key t now counts (set_alert (prefix ^^ k) now last) near
                (set-IsSent_ne (prefix ^^ k) key now t last other h) in
            rw (sends, named k count, other) rest
      ]

  -- An alert is remembered with its time.
  alert_counts-IsSent :
      (key : String) (now : ℕ) (counts last : List (String × ℕ))
      → any (is_of key) (alert_counts alert prefix least now counts last).0 ≡ true
      → IsSent key now (alert_counts alert prefix least now counts last).1
  unfolding alert_counts
  alert_counts-IsSent key now [] last h = absurd (ground (arith, h))
  alert_counts-IsSent key now ((k, count) ∷ counts) last h =
      elim (Bool-cases (ltb count least || is_recent now (find_key entry_key (prefix ^^ k) last))) [
        | inl skips ↦ rw skips (alert_counts-IsSent key now counts last (rw skips at h))
        | inr sends ↦
            let last' = set_alert (prefix ^^ k) now last in
            elim (Bool-cases (str_eq (prefix ^^ k) key)) [
              | inl same ↦
                  let p : (prefix ^^ k) ≡ key = ground (arith, eq_iff (prefix ^^ k) key) in
                  rw sends
                    (alert_counts-quiet key now now counts last' (omega arith)
                      (subst (λ j. IsSent j now last') p (set-IsSent (prefix ^^ k) now last))).1
              | inr other ↦
                  rw sends (
                    alert_counts-IsSent key now counts last'
                      (rw (sends, named k count, other) at h))
            ]
      ]

any-append :
    (key : String) (xs ys : List Alert)
    → any (is_of key) (xs ++ ys) ≡ (any (is_of key) xs || any (is_of key) ys)
any-append key [] ys = refl
any-append key (x ∷ xs) ys = ground (arith, any-append key xs ys)

none-append :
    (key : String) (xs ys : List Alert)
    → any (is_of key) xs ≡ false
    → any (is_of key) ys ≡ false
    → any (is_of key) (xs ++ ys) ≡ false
none-append key xs ys hx hy = ground (arith, any-append key xs ys)

module _ (key : String) (now : ℕ) (events : List AuditEvent) (s : AuditScanner) where
  scan-quiet :
      (t : ℕ)
      → now < t + dedup_window
      → IsSent key t s.last_alert
      → let out = scan_events now events s in
        (any (is_of key) out.0 ≡ false) × IsSent key t out.1.last_alert
  unfolding scan_events
  scan-quiet t near h =
      let (types, ips) = count_events events [] [] in
      let first =
        alert_counts-quiet of_type "event:" (λ _ _. refl) 0 key t now types s.last_alert near h in
      let second =
        alert_counts-quiet of_ip "ip:" (λ _ _. refl) reject_threshold key t now ips
          (alert_counts of_type "event:" 0 now types s.last_alert).1 near first.1 in
      (none-append key _ _ first.0 second.0, second.1)

  scan-IsSent :
      any (is_of key) (scan_events now events s).0 ≡ true
      → IsSent key now (scan_events now events s).1.last_alert
  unfolding scan_events
  scan-IsSent h =
      let (types, ips) = count_events events [] [] in
      let (by_type, last) = alert_counts of_type "event:" 0 now types s.last_alert in
      let by_ip = (alert_counts of_ip "ip:" reject_threshold now ips last).0 in
      elim (Bool-cases (any (is_of key) by_ip)) [
        | inl e ↦ alert_counts-IsSent of_ip "ip:" (λ _ _. refl) reject_threshold key now ips last e
        | inr e ↦
            let first : any (is_of key) by_type ≡ true =
              ground (arith, h, e, any-append key by_type by_ip) in
            (alert_counts-quiet of_ip "ip:" (λ _ _. refl) reject_threshold key now now ips last
              (omega arith)
              (alert_counts-IsSent of_type "event:" (λ _ _. refl) 0 key now types s.last_alert
                first)).1
      ]

-- The alerts of several scans, each at its time and of its events.
unfoldable pub run_scans : List (ℕ × List AuditEvent) → AuditScanner → List Alert
run_scans [] s = []
run_scans ((now, events) ∷ scans) s =
    (scan_events now events s).0 ++ run_scans scans (scan_events now events s).1

quiet_run :
    (key : String) (t : ℕ) (scans : List (ℕ × List AuditEvent)) (s : AuditScanner)
    → All (λ e. e.0 < t + dedup_window) scans
    → IsSent key t s.last_alert
    → any (is_of key) (run_scans scans s) ≡ false
unfolding run_scans
quiet_run key t [] s near h = refl
quiet_run key t ((now, events) ∷ scans) s near h =
    let (quiet, sent) = scan-quiet key now events s t near.0 h in
    none-append key _ _ quiet (quiet_run key t scans (scan_events now events s).1 near.1 sent)

-- No alert is repeated within five minutes: once a scan has alerted a type of events, or an address, no
-- scans less than five minutes later, of any events, alert it.
pub alert_spacing :
    (key : String) (now : ℕ) (events : List AuditEvent) (s : AuditScanner)
    (scans : List (ℕ × List AuditEvent))
    → any (is_of key) (scan_events now events s).0 ≡ true
    → All (λ e. e.0 < now + dedup_window) scans
    → any (is_of key) (run_scans scans (scan_events now events s).1) ≡ false
alert_spacing key now events s scans alerted near =
    quiet_run key now scans (scan_events now events s).1 near (scan-IsSent key now events s alerted)
