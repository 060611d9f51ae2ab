-- ===== src/Remote/Scanner.antt =====
-- backend/internal/remote/audit_scanner.go: the scan of recent audit events for alerts. The order in which
-- Go walks a map does not matter here; the text of an alert and its publication are left out.
pub mod Alerts
use serein.Base.{
  ℕ, suc, ◌+◌, Bool, true, false, not, ◌&&◌, ◌||◌, Option, none, some, String, List, [], ◌∷◌, ◌++◌,
  str_eq, ltb, ◌^^◌, if◌then◌else◌, contains, has_substring, pos,
}
use serein.Base.Table.{find_key, upsert_key}
use serein.Remote.Model.{AuditEvent}
use serein.Remote.World.{Action, pure, ◌>>=◌, ◌>>◌}
use serein.Remote.Audit.{list_recent_audit_events}

pub record AuditScanner : Type 0 where
  pub last_scan : ℕ
  pub last_alert : List (String × ℕ)

pub data Alert : Type 0 where
  of_type of_ip : String → ℕ → Alert

abbrev pub alert_event_types : List String
alert_event_types =
    "remote.host.credential_expired" ∷ "remote.host.credential_revoked" ∷ "remote.session.failed"
    ∷ []

abbrev pub dedup_window : ℕ
dedup_window = 300_000_000_000

abbrev pub reject_threshold : ℕ
reject_threshold = 5

abbrev pub entry_key : String × ℕ → String
entry_key e = e.0

-- `counts[key]++`
abbrev pub bump : String → List (String × ℕ) → List (String × ℕ)
bump k counts = upsert_key entry_key (k, 1) (λ e. (e.0, suc e.1)) counts

abbrev pub is_rejection : AuditEvent → Bool
is_rejection event =
    (has_substring event.event_type "rejected" || has_substring event.event_type "auth")
    && not (str_eq event.client_ip "")

-- The counts by type, of the types that alert, and by address, of rejections.
unfoldable pub count_events :
    List AuditEvent → List (String × ℕ) → List (String × ℕ) → List (String × ℕ) × List (String × ℕ)
unfolding contains has_substring
count_events [] types ips = (types, ips)
count_events (event ∷ events) types ips =
    count_events events
      (if contains alert_event_types event.event_type then bump event.event_type types else types)
      (if is_rejection event then bump event.client_ip ips else ips)

abbrev pub is_recent : ℕ → Option (String × ℕ) → Bool
is_recent now none = false
is_recent now (some (k, last)) = ltb now (last + dedup_window)

abbrev pub set_alert : String → ℕ → List (String × ℕ) → List (String × ℕ)
set_alert k now last = upsert_key entry_key (k, now) (λ e. (e.0, now)) last

-- A loop over counts: alerts from `least` on that were not sent within the window.
unfoldable pub alert_counts :
    (String → ℕ → Alert)
    → String
    → ℕ
    → ℕ
    → List (String × ℕ)
    → List (String × ℕ)
    → List Alert × List (String × ℕ)
alert_counts alert prefix least now [] last = ([], last)
alert_counts alert prefix least now ((k, count) ∷ counts) last =
    let skips = ltb count least || is_recent now (find_key entry_key (prefix ^^ k) last) in
    let (alerts, last') =
      alert_counts alert prefix least now counts
        (if skips then last else set_alert (prefix ^^ k) now last) in
    (if skips then alerts else alert k count ∷ alerts, last')

unfoldable pub scan_events : ℕ → List AuditEvent → AuditScanner → List Alert × AuditScanner
unfolding count_events alert_counts
scan_events now events s =
    let (types, ips) = count_events events [] [] in
    let (by_type, last) = alert_counts of_type "event:" 0 now types s.last_alert in
    let (by_ip, last') = alert_counts of_ip "ip:" reject_threshold now ips last in
    (by_type ++ by_ip, record { last_scan = now; last_alert = last' })

-- `scan`
unfoldable pub scan : ℕ → AuditScanner → Action (List Alert × AuditScanner)
unfolding list_recent_audit_events scan_events
scan now s = do
  events ← list_recent_audit_events s.last_scan (pos 200)
  pure (scan_events now events s)
