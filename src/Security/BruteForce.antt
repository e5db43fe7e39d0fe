-- ===== src/Security/BruteForce.antt =====
-- src/tlsocket/security/brute_force_detection.py, with src/tlsocket/security/logger.py. Times are whole microseconds, a
-- reading of the clock is an argument, and the lock is held for the whole of each operation. The file of
-- the state is the value that `json.load` reads back: its times are whole seconds.
pub mod Blocking
pub mod Burst
pub mod Restart
pub mod Alerts
use tlsocket.Prelude.{
  ℕ, ◌+◌, ◌-◌, ◌*◌, ◌/◌, Bool, true, false, ◌||◌, Option, none, some, List, [], ◌∷◌, ◌++◌,
  if◌then◌else◌, ltb, leb, nat_beq, keep, length, get_or, ◌==◌, text_eq, not, map,
}
use tlsocket.Config
use tlsocket.Dict.{lookup, insert, remove}
use tlsocket.Text.{Text, codes, is_empty}

abbrev pub second : ℕ
second = 1_000_000

-- src/tlsocket/log_parser/models.py
pub record LogRecord : Type 0 where
  pub timestamp : ℕ
  pub level : Text
  pub event_type : Text
  pub username : Text
  pub ip : Text
  pub extra_info : Text

pub record StateFile : Type 0 where
  pub violation_count : List (Text × ℕ)
  pub blocked_seconds : List (Text × ℕ)

-- What `log_alert` writes to the security log and to the alert log.
pub record Alert : Type 0 where
  pub ip : Text
  pub failed_attempts : ℕ
  pub window_seconds : ℕ

pub record Detector : Type 0 where
  pub max_attempts : ℕ
  pub window_seconds : ℕ
  pub block_duration : ℕ
  pub failed_attempts_history : List (Text × List ℕ)
  pub violation_count : List (Text × ℕ)
  pub blocked_ips : List (Text × ℕ)
  pub db_file : Option StateFile
  pub alerts : List Alert

-- strftime to the second; every time is taken for UTC, which those of the server are
unfoldable pub to_seconds : List (Text × ℕ) → List (Text × ℕ)
to_seconds [] = []
to_seconds ((ip, t) ∷ d) = (ip, t / second) ∷ to_seconds d

unfoldable pub save_state : Detector → Detector
save_state d = record d {
  db_file =
      some (record {
        violation_count = d.violation_count;
        blocked_seconds = to_seconds d.blocked_ips;
      });
}

-- for ip, count in …: d[ip] = count
unfoldable pub load_counts : List (Text × ℕ) → List (Text × ℕ) → List (Text × ℕ)
load_counts [] d = d
load_counts ((ip, n) ∷ file) d = load_counts file (insert ip n d)

unfoldable pub load_times : List (Text × ℕ) → List (Text × ℕ) → List (Text × ℕ)
load_times [] d = d
load_times ((ip, s) ∷ file) d = load_times file (insert ip (s * second) d)

-- `none` is a file that is missing or is not read; a file with a malformed entry is not modelled
unfoldable pub load_state : Detector → Detector
load_state d = elim d.db_file [
  | none ↦ d
  | some f ↦ record d {
    violation_count = load_counts f.violation_count d.violation_count;
    blocked_ips = load_times f.blocked_seconds d.blocked_ips;
  }
]

-- `BruteForceDetector(...)` over what the file holds
unfoldable pub init : ℕ → ℕ → ℕ → Option StateFile → Detector
init max_attempts window_seconds block_duration file = load_state (record {
  max_attempts = max_attempts;
  window_seconds = window_seconds;
  block_duration = block_duration;
  failed_attempts_history = [];
  violation_count = [];
  blocked_ips = [];
  db_file = file;
  alerts = [];
})

unfoldable pub multiplier : ℕ → ℕ
multiplier count =
    if leb count 1 then 1 else if nat_beq count 2 then 5 else if nat_beq count 3 then 30 else 1440

abbrev pub violations : Detector → Text → ℕ
violations d ip = get_or (lookup ip d.violation_count) 0

-- _get_ban_duration; its caller has stored a count for the address
unfoldable pub get_ban_duration : Detector → Text → ℕ
get_ban_duration d ip = d.block_duration * multiplier (violations d ip)

unfoldable pub is_ip_blocked : Detector → Text → ℕ → Detector × Bool
is_ip_blocked d ip now = elim (lookup ip d.blocked_ips) [
  | none ↦ (d, false)
  | some until ↦
      if ltb until now
      then (save_state (record d { blocked_ips = remove ip d.blocked_ips }), false)
      else (d, true)
]

-- the clock is read in `is_ip_blocked`, and once more
unfoldable pub get_remaining_ban_time : Detector → Text → ℕ → ℕ → Detector × ℕ
get_remaining_ban_time d ip now now' =
    let (d', blocked) = is_ip_blocked d ip now in
    if blocked then (d', (get_or (lookup ip d'.blocked_ips) 0 - now') / second) else (d', 0)

abbrev pub history : Detector → Text → List ℕ
history d ip = get_or (lookup ip d.failed_attempts_history) []

abbrev pub in_window : Detector → ℕ → ℕ → Bool
in_window d now t = leb now (t + d.window_seconds * second)

-- the failed attempts in the window, with the new one
unfoldable pub note_attempt : Detector → Text → ℕ → List ℕ
note_attempt d ip now = keep (in_window d now) (history d ip ++ now ∷ [])

-- the branch of a block; `d` has the new history
unfoldable pub block : Detector → Text → ℕ → ℕ → Detector
block d ip now attempts =
    let counted = record d {
      violation_count = insert ip (violations d ip + 1) d.violation_count;
    } in
    save_state (record counted {
      blocked_ips = insert ip (now + get_ban_duration counted ip * second) d.blocked_ips;
      alerts =
          d.alerts
          ++ record { ip = ip; failed_attempts = attempts; window_seconds = d.window_seconds } ∷ [];
      failed_attempts_history = insert ip [] d.failed_attempts_history;
    })

abbrev pub login_failed : Text
login_failed = codes "LOGIN_FAILED"

abbrev pub not_available : Text
not_available = codes "N/A"

-- a record that does not count: another event, or no address
unfoldable pub is_ignored : LogRecord → Bool
is_ignored r = not (r.event_type == login_failed) || is_empty r.ip || r.ip == not_available

unfoldable pub count_attempt : Detector → Text → ℕ → Detector
count_attempt d ip now =
    let recent = note_attempt d ip now in
    let noted = record d { failed_attempts_history = insert ip recent d.failed_attempts_history } in
    if leb d.max_attempts (length recent) then block noted ip now (length recent) else noted

unfoldable pub process_record : Detector → LogRecord → Detector
process_record d r = if is_ignored r then d else count_attempt d r.ip r.timestamp

-- the loop of detect_brute_force_stream
unfoldable pub process_all : Detector → List LogRecord → Detector
process_all d [] = d
process_all d (r ∷ rs) = process_all (process_record d r) rs

unfoldable pub detect_brute_force_stream : List LogRecord → ℕ → ℕ → Option StateFile → Detector
detect_brute_force_stream records max_attempts window_seconds file =
    process_all (init max_attempts window_seconds Config.block_duration file) records
