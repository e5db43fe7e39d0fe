-- ===== src/Server/Events.antt =====
-- src/tlsocket/server_side/logs_management/record_logs.py
pub mod Routing
use tlsocket.Prelude.{
  ℕ, ◌+◌, Bool, true, false, ◌||◌, not, Option, none, some, List, [], ◌∷◌, ◌++◌, if◌then◌else◌,
  ◌==◌, text_eq, contains, length, skip,
}
use tlsocket.Text.{Text, codes, is_empty}
use tlsocket.Security.BruteForce.{Alert, LogRecord, process_record, not_available}
use tlsocket.Server.State.{
  Server, LogLine, Logger, server, security, test, alert, Level, info, warning, Metrics,
}

abbrev pub server_only : List Text
server_only = codes "USER_CONNECTED" ∷ codes "USER_DISCONNECTED" ∷ codes "CONNECTION_ERROR" ∷ []

abbrev pub server_and_security : List Text
server_and_security = codes "LOGIN_SUCCESS" ∷ codes "REGISTER_SUCCESS" ∷ []

abbrev pub security_only : List Text
security_only = codes "SET" ∷ codes "KICK" ∷ codes "BAN" ∷ codes "UNBAN" ∷ []

abbrev pub warning_events : List Text
warning_events =
    codes "LOGIN_FAILED"
    ∷ codes "REGISTER_FAILED"
    ∷ codes "INVALID_COMMAND"
    ∷ codes "INVALID_FORMAT"
    ∷ codes "RATE_LIMIT_EXCEEDED"
    ∷ codes "CONNECTION_LIMIT_REACHED"
    ∷ []

-- the arguments of `log_event`, with their defaults
pub record Event : Type 0 where
  pub event_type : Text
  pub username : Text
  pub ip : Text
  pub extra_info : Text

abbrev pub event_of : Text → Event
event_of event_type = record {
  event_type = event_type;
  username = codes "unknown";
  ip = not_available;
  extra_info = [];
}

unfoldable pub line_of : Logger → Event → LogLine
line_of logger e = record {
  logger = logger;
  level = if contains warning_events e.event_type then warning else info;
  event = e.event_type;
  username = some e.username;
  ip = if e.ip == not_available then none else some e.ip;
  extra_info = if is_empty e.extra_info then none else some e.extra_info;
  counts = none;
}

unfoldable pub emit : Logger → Event → Server → Server
emit logger e s = record s { log = s.log ++ line_of logger e ∷ [] }

-- `log_alert` of src/tlsocket/security/logger.py, which the detector calls for a block
unfoldable pub alert_line : Logger → Alert → LogLine
alert_line logger a = record {
  logger = logger;
  level = warning;
  event = codes "BRUTE_FORCE_ATTEMPT";
  username = none;
  ip = some a.ip;
  extra_info = none;
  counts = some (a.failed_attempts, a.window_seconds);
}

unfoldable pub alert_lines : List Alert → List LogLine
alert_lines [] = []
alert_lines (a ∷ alerts) = alert_line security a ∷ alert_line alert a ∷ alert_lines alerts

-- the record that the detector is given
unfoldable pub fed_record : Event → ℕ → LogRecord
fed_record e now = record {
  timestamp = now;
  level = if contains warning_events e.event_type then codes "WARNING" else codes "INFO";
  event_type = e.event_type;
  username = e.username;
  ip = e.ip;
  extra_info = e.extra_info;
}

-- with the lines of the alerts that are new
unfoldable pub feed_detector : Event → Server → Server
feed_detector e s =
    let d = process_record s.detector (fed_record e s.clock) in
    record s { detector = d; log = s.log ++ alert_lines (skip (length s.detector.alerts) d.alerts) }

unfoldable pub route : Event → Server → Server
route e s =
    if contains server_only e.event_type
    then emit server e s
    else if contains server_and_security e.event_type
    then emit security e (emit server e s)
    else if contains security_only e.event_type || contains warning_events e.event_type
    then emit security e s
    else s

unfoldable pub count_event : Text → Metrics → Metrics
count_event event m =
    if event == codes "LOGIN_SUCCESS"
    then record m { logins_success = m.logins_success + 1 }
    else if event == codes "LOGIN_FAILED"
    then record m { logins_failed = m.logins_failed + 1 }
    else if event == codes "REGISTER_SUCCESS"
    then record m { registrations_success = m.registrations_success + 1 }
    else if event == codes "REGISTER_FAILED"
    then record m { registrations_failed = m.registrations_failed + 1 }
    else if event == codes "USER_CONNECTED"
    then record m { connections_total = m.connections_total + 1 }
    else m

unfoldable pub count : Text → Server → Server
count event s = record s { metrics = count_event event s.metrics }

unfoldable pub log_event : Event → Server → Server
log_event e s = count e.event_type (feed_detector e (route e s))

unfoldable pub log_test_event : Event → Server → Server
log_test_event e s = feed_detector e (emit test e s)
