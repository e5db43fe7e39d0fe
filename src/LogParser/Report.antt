-- ===== src/LogParser/Report.antt =====
-- src/tlsocket/log_parser/report.py, and `_ALIASES`, `_resolve_path` and `_print_live` of src/tlsocket/log_parser/main.py. The rates
-- are two numbers each; how a rate is printed is a parameter, and so is the formatting of a time. `to_json` is one call.
pub mod Totals
use tlsocket.Prelude.{
  ℕ, zero, suc, ◌+◌, ◌-◌, Bool, true, false, Option, none, some, List, [], ◌∷◌, ◌++◌, map,
  if◌then◌else◌, ◌==◌, text_eq, contains, length, get_or, String,
}
use tlsocket.Dict.{lookup}
use tlsocket.Text.{Text, codes, decimal}
use tlsocket.Security.BruteForce.{LogRecord}
use tlsocket.LogParser.Analyzer.{Analysis, analyze}
use tlsocket.LogParser.Attacks.{attack_events, peak_attack_hours, top_targeted_users}
use tlsocket.LogParser.Failures.{FailureBucket, failure_rate_over_time}

pub record Report : Type 0 where
  pub analysis : Analysis
  pub peak_attack_hours : List (Text × ℕ)
  pub top_targeted_users : List (Text × ℕ)
  pub failure_rate_over_time : List FailureBucket

-- with the defaults of the three functions; `none` is the ZeroDivisionError of the last
unfoldable pub build_report : List LogRecord → Option Report
build_report records = elim (failure_rate_over_time records 60) [
  | none ↦ none
  | some buckets ↦ some (record {
    analysis = analyze records;
    peak_attack_hours = peak_attack_hours records 3;
    top_targeted_users = top_targeted_users records 5;
    failure_rate_over_time = buckets;
  })
]

-- f"{s:<n}"
unfoldable pub spaces : ℕ → Text
spaces zero = []
spaces (suc n) = b' ' ∷ spaces n

unfoldable pub pad : ℕ → Text → Text
pad n s = s ++ spaces (n - length s)

-- "\n".join(lines)
unfoldable pub join_lines : List Text → Text
join_lines [] = []
join_lines (line ∷ []) = line
join_lines (line ∷ next ∷ lines) = line ++ b'\n' ∷ join_lines (next ∷ lines)

-- [...] or ["  (none)"]
abbrev pub or_none : List Text → List Text
or_none [] = codes "  (none)" ∷ []
or_none (line ∷ lines) = line ∷ lines

unfoldable pub count_line : Text × ℕ → Text
count_line (name, count) = codes "  " ++ (pad 20 name ++ (b' ' ∷ decimal count))

unfoldable pub hour_line : Text × ℕ → Text
hour_line (hour, count) = codes "  " ++ (hour ++ (codes "  " ++ (decimal count ++ codes " events")))

abbrev pub yes_no : Bool → Text
yes_no b = if b then codes "YES" else codes "NO"

abbrev pub field : String → Text → Text
field label value = codes label ++ value

unfoldable pub table_lines : (ℕ × ℕ → Text) → Report → List Text
table_lines percent r =
    let a = r.analysis in
    (field "Total requests:       " (decimal a.total_requests)
      ∷ field "Unique Ips:           " (decimal a.unique_ip_count)
      ∷ field "Successful logins:    " (decimal a.successful_logins)
      ∷ field "Failed logins:        " (decimal a.failed_logins)
      ∷ field "Kicked user:          " (decimal a.kicked_users)
      ∷ field "Banned user:          " (decimal a.banned_users)
      ∷ field "Errors:               "
          (decimal a.error_count ++ (codes " (" ++ (percent a.error_rate ++ codes ")")))
      ∷ field "Warnings:             " (decimal a.warning)
      ∷ []
      ∷ codes "Top 5 IPs:"
      ∷ or_none (map count_line a.top_5_ips))
    ++ (([]
          ∷ codes "Top targeted users (failed logins):"
          ∷ or_none (map count_line r.top_targeted_users))
        ++ (([] ∷ codes "Peak attack hours (UTC):" ∷ or_none (map hour_line r.peak_attack_hours))
            ++ ([]
                ∷ field "Brute-force alert: " (yes_no a.brute_force_alert)
                ∷ field "DDoS alert: " (yes_no a.ddos_alert)
                ∷ [])))

unfoldable pub to_table : (ℕ × ℕ → Text) → Report → Text
to_table percent r = join_lines (table_lines percent r)

-- The three log files of the configuration.
pub record Paths : Type 0 where
  pub security_log : Text
  pub server_log : Text
  pub alert_log : Text

unfoldable pub resolve_path : Paths → Text → Text
resolve_path paths source =
    if source == codes "security"
    then paths.security_log
    else if source == codes "server"
    then paths.server_log
    else if source == codes "alerts"
    then paths.alert_log
    else source

-- the line that is printed, in red for an attack
unfoldable pub live_line : (ℕ → Text) → LogRecord → Text
live_line strftime r =
    let line =
      strftime r.timestamp
      ++ (b' '
          ∷ (pad 7 r.level
              ++ (b' '
                  ∷ (pad 24 r.event_type
                      ++ (codes " user=" ++ (r.username ++ (codes " ip=" ++ r.ip))))))) in
    if contains attack_events r.event_type
    then (0x1B ∷ codes "[91m") ++ (line ++ (0x1B ∷ codes "[0m"))
    else line
