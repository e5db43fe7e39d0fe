-- ===== src/LogParser/Analyzer.antt =====
-- `analyze` of src/tlsocket/log_parser/analyzer.py. The error rate is left as the two numbers that are divided.
pub mod Counts
use tlsocket.Prelude.{
  ℕ, zero, suc, ◌+◌, ◌-◌, ◌*◌, ◌/◌, ◌%◌, Bool, true, false, ◌&&◌, ◌||◌, not, List, [], ◌∷◌, ◌++◌,
  if◌then◌else◌, ◌==◌, text_eq, nat_eq, contains, leb, ltb, length, map, is_some,
}
use tlsocket.Dict.{keys}
use tlsocket.Text.{Text, codes, is_empty, decimal, starts_with}
use tlsocket.Security.BruteForce.{LogRecord, second, not_available}
use tlsocket.LogParser.Counter.{increment, count_of, most_common, top}

-- the variables of `analyze`, in its order; `brute_force` and `ddos` are the two detectors
pub record Tally : Type 0 where
  pub total : ℕ
  pub error_count : ℕ
  pub warning_count : ℕ
  pub failed_logins : ℕ
  pub successful_logins : ℕ
  pub banned_users : ℕ
  pub kicked_users : ℕ
  pub suspicious_ips : List (Text × ℕ)
  pub brute_force : Bool
  pub ddos : Bool
  pub ip_count : List (Text × ℕ)

abbrev pub empty_tally : Tally
empty_tally = record {
  total = 0;
  error_count = 0;
  warning_count = 0;
  failed_logins = 0;
  successful_logins = 0;
  banned_users = 0;
  kicked_users = 0;
  suspicious_ips = [];
  brute_force = false;
  ddos = false;
  ip_count = [];
}

-- r.ip and r.ip != "N/A"
abbrev pub has_ip : LogRecord → Bool
has_ip r = not (is_empty r.ip) && not (r.ip == not_available)

-- n += 1 where the event is the one
abbrev pub count_if : Bool → ℕ → ℕ
count_if b n = if b then n + 1 else n

abbrev pub is_brute_force : LogRecord → Bool
is_brute_force r =
    contains (codes "RATE_LIMIT_EXCEEDED" ∷ codes "BRUTE_FORCE_ATTEMPT" ∷ []) r.event_type

abbrev pub is_ddos : LogRecord → Bool
is_ddos r = contains (codes "CONNECTION_LIMIT_REACHED" ∷ []) r.event_type

-- one address, counted where the test holds
abbrev pub suspect : Bool → LogRecord → List (Text × ℕ) → List (Text × ℕ)
suspect b r ips = if b && has_ip r then increment r.ip ips else ips

unfoldable pub tally_record : Tally → LogRecord → Tally
tally_record t r = record {
  total = t.total + 1;
  error_count = count_if (r.event_type == codes "CONNECTION_ERROR") t.error_count;
  warning_count = count_if (r.level == codes "WARNING") t.warning_count;
  failed_logins = count_if (r.event_type == codes "LOGIN_FAILED") t.failed_logins;
  successful_logins = count_if (r.event_type == codes "LOGIN_SUCCESS") t.successful_logins;
  banned_users = count_if (r.event_type == codes "BAN") t.banned_users;
  kicked_users = count_if (r.event_type == codes "KICK") t.kicked_users;
  suspicious_ips = suspect (is_ddos r) r (suspect (is_brute_force r) r t.suspicious_ips);
  brute_force = is_brute_force r || t.brute_force;
  ddos = is_ddos r || t.ddos;
  ip_count = suspect true r t.ip_count;
}

unfoldable pub tally_all : Tally → List LogRecord → Tally
tally_all t [] = t
tally_all t (r ∷ rs) = tally_all (tally_record t r) rs

-- the dictionary that is returned; the error rate is a pair, (0, 1) for no records
pub record Analysis : Type 0 where
  pub total_requests : ℕ
  pub all_ips : List (Text × ℕ)
  pub unique_ip_count : ℕ
  pub successful_logins : ℕ
  pub failed_logins : ℕ
  pub kicked_users : ℕ
  pub banned_users : ℕ
  pub error_count : ℕ
  pub error_rate : ℕ × ℕ
  pub warning : ℕ
  pub top_5_ips : List (Text × ℕ)
  pub suspicious_ips : List (Text × ℕ)
  pub brute_force_alert : Bool
  pub ddos_alert : Bool

unfoldable pub analysis_of : Tally → Analysis
analysis_of t = record {
  total_requests = t.total;
  all_ips = most_common t.ip_count;
  unique_ip_count = length (most_common t.ip_count);
  successful_logins = t.successful_logins;
  failed_logins = t.failed_logins;
  kicked_users = t.kicked_users;
  banned_users = t.banned_users;
  error_count = t.error_count;
  error_rate = if ltb 0 t.total then (t.error_count, t.total) else (0, 1);
  warning = t.warning_count;
  top_5_ips = top 5 t.ip_count;
  suspicious_ips = t.suspicious_ips;
  brute_force_alert = t.brute_force;
  ddos_alert = t.ddos;
}

unfoldable pub analyze : List LogRecord → Analysis
analyze records = analysis_of (tally_all empty_tally records)
