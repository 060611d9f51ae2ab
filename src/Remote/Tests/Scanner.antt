-- ===== src/Remote/Tests/Scanner.antt =====
-- The theorem on the scanner of audit events at concrete events.
use serein.Base.{◌≡◌, refl, false, some, [], ◌∷◌, any, contains, has_substring, arith}
use serein.Base.Table.{find_key}
use serein.Remote.Model.{AuditEvent}
use serein.Remote.Scanner.{AuditScanner, scan_events}
use serein.Remote.Scanner.Alerts.{is_of, run_scans, alert_spacing}

abbrev failed : AuditEvent
failed = record {
  id = "e1";
  session_id = some "s1";
  actor_type = "system";
  actor_id = "remote-timeout";
  event_type = "remote.session.failed";
  safe_metadata = [];
  client_ip = "";
  created_at = 40;
}

abbrev scanner : AuditScanner
scanner = record { last_scan = 0; last_alert = [] }

alert_spacing_example :
    any (is_of "event:remote.session.failed") (
      run_scans
        ((60_000_000_050, failed ∷ []) ∷ (120_000_000_050, failed ∷ []) ∷ [])
        (scan_events 50 (failed ∷ []) scanner).1)
    ≡ false
unfolding scan_events contains has_substring find_key
alert_spacing_example =
    alert_spacing "event:remote.session.failed" 50 (failed ∷ []) scanner
      ((60_000_000_050, failed ∷ []) ∷ (120_000_000_050, failed ∷ []) ∷ []) refl
      (omega arith, (omega arith, tt))
