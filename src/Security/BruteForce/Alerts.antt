-- ===== src/Security/BruteForce/Alerts.antt =====
-- When process_record of src/tlsocket/security/brute_force_detection.py raises an alert.
use tlsocket.Prelude.{
  ℕ, ◌+◌, ◌*◌, ◌≡◌, ◌||◌, not, List, [], ◌∷◌, ◌++◌, append-nil, if◌then◌else◌, leb, keep, length,
  arith, get_or, ◌==◌, text_eq,
}
use tlsocket.Dict.{lookup}
use tlsocket.Text.{codes, is_empty}
use tlsocket.Security.BruteForce.{
  Alert, Detector, LogRecord, second, process_record, count_attempt, note_attempt, block,
  save_state, is_ignored,
}

-- the failed log-ins of the record's address in its window, the record included
abbrev pub recent_attempts : Detector → LogRecord → ℕ
recent_attempts d r = length (
    keep (λ t. leb r.timestamp (t + d.window_seconds * second))
      (get_or (lookup r.ip d.failed_attempts_history) [] ++ r.timestamp ∷ []))

-- A failed log-in from an address raises an alert if it makes the attempts as many as the limit.
abbrev pub raised : Detector → LogRecord → List Alert
raised d r =
    if not (r.event_type == codes "LOGIN_FAILED") || is_empty r.ip || r.ip == codes "N/A"
    then []
    else if leb d.max_attempts (recent_attempts d r)
    then record {
      ip = r.ip;
      failed_attempts = recent_attempts d r;
      window_seconds = d.window_seconds;
    }
      ∷ []
    else []

pub alerts-process_record :
    (d : Detector) (r : LogRecord) → (process_record d r).alerts ≡ d.alerts ++ raised d r
unfolding process_record is_ignored count_attempt note_attempt block save_state
alerts-process_record d r = ground (arith, append-nil d.alerts)
