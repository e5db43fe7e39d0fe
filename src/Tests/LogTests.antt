-- ===== src/Tests/LogTests.antt =====
-- The log parser.
use tlsocket.Prelude.{
  ℕ, ◌≡◌, ◌<◌, ◌≤◌, ◌*◌, true, refl, none, some, List, [], ◌∷◌, ◌++◌, length, map, every, arith,
  text_eq, nat_eq, ltb, contains, keep,
}
use tlsocket.Text.{Text, codes, not_break}
use tlsocket.Security.BruteForce
use tlsocket.Security.BruteForce.{Detector, LogRecord, process_all, not_available}
use tlsocket.Server.Events.{Event, event_of, line_of}
use tlsocket.LogParser.Analyzer.{analyze}
use tlsocket.LogParser.Analyzer.Counts.{analyze_numbers, how_many, is_event, is_warning}
use tlsocket.LogParser.Analyzer.{is_brute_force, is_ddos}
use tlsocket.LogParser.Attacks.{peak_attack_hours}
use tlsocket.LogParser.Attacks.Leading.{Leads, attacks_in, peak_attack_hours-Leads}
use tlsocket.LogParser.Failures.{FailureBucket, failure_rate_over_time}
use tlsocket.LogParser.Failures.Buckets.{
  bucket_spec, starts, is_rising, in_bucket, is_fraction, failure_rate_over_time_lem,
}
use tlsocket.LogParser.Parser.{iter_record}
use tlsocket.LogParser.Parser.Written.{Stamped, record_of, file_of, iter_record-file_of}
use tlsocket.LogParser.Parser.Said.{is_security, is_attempt, untimed, of_event, of_alert}
use tlsocket.LogParser.Parser.SecurityLog.{
  LogCall, logs, asks, run_log, secured, security_log_read_back,
}
use tlsocket.LogParser.Parser.Growth.{
  Line, line_added, line_turn, follow, ticks_of, text_of, yields, added, follow_whole_lines,
}
use tlsocket.LogParser.Report.{Report}
use tlsocket.LogParser.Report.Totals.{sum}
use tlsocket.Tests.Fixtures.{bob}
use tlsocket.Prelude.{◌+◌, ◌-◌, ◌*◌, ◌/◌, ◌≤◌, leb, if◌then◌else◌, ◌&&◌}
use tlsocket.Text.{decimal}
use tlsocket.Security.BruteForce.{second}
use tlsocket.LogParser.Filters.{Digits, unit_seconds}
use tlsocket.Server.Registry
use tlsocket.Server.State.{Server, LogLine, security}
use tlsocket.Prelude.{ap, false}
use tlsocket.LogParser.Command.{before_epoch, report_of}
use tlsocket.LogParser.Command.Since.{recent, report_of-since}
use tlsocket.Tests.Fixtures.{ascii_unicode, server_of}
use tlsocket.Tests.Formats.{plain_json, plain_formatter}

-- two failed log-ins of bob in one minute, and a log-in two hours later
abbrev failed_record : ℕ → LogRecord
failed_record t = record {
  timestamp = t;
  level = codes "WARNING";
  event_type = codes "LOGIN_FAILED";
  username = bob;
  ip = codes "10.0.0.1";
  extra_info = [];
}

abbrev some_records : List LogRecord
some_records =
    failed_record 60_000_000
    ∷ failed_record 61_000_000
    ∷ (record (failed_record 7_200_000_000) {
      level = codes "INFO";
      event_type = codes "LOGIN_SUCCESS";
    })
    ∷ []

abbrev some_events : List (ℕ × Event)
some_events =
    (60_000_000, record (event_of (codes "LOGIN_FAILED")) { username = bob; ip = codes "10.0.0.1" })
    ∷ (61_000_000, record (event_of (codes "USER_CONNECTED")) { ip = codes "10.0.0.1" })
    ∷ (
      62_000_000,
      record (event_of (codes "LOGIN_FAILED")) { username = bob; ip = codes "10.0.0.1" },
    )
    ∷ []

analyze_numbers_example :
    ((analyze some_records).total_requests ≡ length some_records)
    × ((analyze some_records).error_count
        ≡ how_many (is_event (codes "CONNECTION_ERROR")) some_records)
    × ((analyze some_records).warning ≡ how_many is_warning some_records)
    × ((analyze some_records).failed_logins
        ≡ how_many (is_event (codes "LOGIN_FAILED")) some_records)
    × ((analyze some_records).successful_logins
        ≡ how_many (is_event (codes "LOGIN_SUCCESS")) some_records)
    × ((analyze some_records).banned_users ≡ how_many (is_event (codes "BAN")) some_records)
    × ((analyze some_records).kicked_users ≡ how_many (is_event (codes "KICK")) some_records)
    × ((analyze some_records).brute_force_alert ≡ ltb 0 (how_many is_brute_force some_records))
    × ((analyze some_records).ddos_alert ≡ ltb 0 (how_many is_ddos some_records))
    × ((analyze some_records).error_rate ≡ (
        if ltb 0 (length some_records)
        then (how_many (is_event (codes "CONNECTION_ERROR")) some_records, length some_records)
        else (0, 1)))
analyze_numbers_example = analyze_numbers some_records

peak_attack_hours-Leads_example :
    Leads 1 (λ hour. attacks_in hour some_records) (peak_attack_hours some_records 1)
peak_attack_hours-Leads_example = peak_attack_hours-Leads some_records 1

one_positive : 0 < 1
one_positive = omega arith

failure_rate_over_time_lem_example :
    (bs : List FailureBucket) × (failure_rate_over_time some_records 1 ≡ some bs)
    × (bs ≡ map (bucket_spec (1 * 60) some_records) (starts bs))
    × (is_rising (starts bs) ≡ true)
    × ((b : ℕ) → contains (starts bs) b ≡ ltb 0 (length (keep (in_bucket (1 * 60) b) some_records)))
    × (every is_fraction bs ≡ true)
failure_rate_over_time_lem_example = failure_rate_over_time_lem some_records 1 one_positive

-- the detector raises an alert at the first failed log-in
abbrev one_fail : Server
one_fail = server_of (Registry.init 5 100) (BruteForce.init 1 60 300 none)

abbrev stamp : List LogLine → List Stamped
stamp lines = map (λ l. (1, l)) lines

unstamp : (lines : List LogLine) → map (λ p. p.1) (stamp lines) ≡ lines
unstamp [] = refl
unstamp (l ∷ lines) = ap (◌∷◌ l) (unstamp lines)

abbrev log_calls : List LogCall
log_calls =
    logs 60_000_000
      (record (event_of (codes "LOGIN_FAILED")) { username = bob; ip = codes "10.0.0.1" })
    ∷ asks 61_000_000 (codes "10.0.0.1")
    ∷ logs 62_000_000 (event_of (codes "USER_CONNECTED"))
    ∷ []

abbrev log_lines : List LogLine
log_lines = keep is_security (run_log log_calls one_fail).log

security_log_read_back_example :
    (rs : List LogRecord) × (iter_record plain_json
        (file_of plain_json plain_formatter (stamp log_lines))
      ≡ some rs)
    × (map (λ r. r.timestamp) rs ≡ map (λ p. p.0) (stamp log_lines))
    × (map untimed (keep (is_attempt false) rs) ≡ map of_event (secured log_calls))
    × (map untimed (keep (is_attempt true) rs)
        ≡ map of_alert (run_log log_calls one_fail).detector.alerts)
security_log_read_back_example =
    security_log_read_back plain_json plain_formatter log_calls one_fail (stamp log_lines) refl
      (unfold BruteForce.init BruteForce.load_state in refl) (unstamp log_lines)

-- a line, a round, two lines and another round
abbrev some_lines : List Line
some_lines =
    line_added (codes "one")
    ∷ line_turn
    ∷ line_added (codes "two")
    ∷ line_added (codes "three")
    ∷ line_turn
    ∷ []

lines_whole : every (every not_break) (added some_lines) ≡ true
unfolding every codes
lines_whole = refl

follow_whole_lines_example :
    (left : List Text) × ((follow plain_json [] (ticks_of some_lines)).1 ≡ text_of left)
    × ((follow plain_json [] (ticks_of some_lines)).0 ++ yields plain_json left
        ≡ yields plain_json (added some_lines))
follow_whole_lines_example = follow_whole_lines plain_json some_lines lines_whole

-- a text of digits, with ASCII digits alone
abbrev ascii_digits : Digits
ascii_digits = record {
  value = λ c. if leb b'0' c && leb c b'9' then some (c - b'0') else none;
  value_ascii = λ c h. refl;
}

abbrev stamped_lines : List Stamped
stamped_lines = map (λ e. (e.0, line_of security e.1)) some_events

abbrev log_text : Text
log_text = file_of plain_json plain_formatter stamped_lines

abbrev logged_records : List LogRecord
logged_records = map record_of stamped_lines

minutes : unit_seconds b'm' ≡ some 60
unfolding unit_seconds
minutes = refl

in_timedelta : 1 * 60 / 86400 ≤ 999_999_999
in_timedelta = omega arith

in_time : 1 * 60 * second ≤ 100_000_000 + before_epoch * second
in_time = omega arith

report_of-since_example :
    (r : Report) × (report_of ascii_unicode ascii_digits plain_json 100_000_000
        (some (decimal 1 ++ b'm' ∷ []))
        log_text
      ≡ some r)
    × (r.analysis.total_requests ≡ length (recent 100_000_000 (1 * 60) logged_records))
    × (sum (λ (b : FailureBucket). b.total) r.failure_rate_over_time
        ≡ length (recent 100_000_000 (1 * 60) logged_records))
report_of-since_example =
    report_of-since ascii_unicode ascii_digits plain_json 100_000_000 1 b'm' 60 log_text
      logged_records minutes in_timedelta in_time
      (iter_record-file_of plain_json plain_formatter stamped_lines)
