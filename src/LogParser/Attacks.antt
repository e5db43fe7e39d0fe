-- ===== src/LogParser/Attacks.antt =====
-- `peak_attack_hours` and `top_targeted_users` of src/tlsocket/log_parser/analyzer.py. An instant is its microseconds
-- since 1970.
pub mod Leading
use tlsocket.Prelude.{
  ℕ, zero, suc, ◌+◌, ◌-◌, ◌*◌, ◌/◌, ◌%◌, Bool, true, false, ◌&&◌, ◌||◌, not, List, [], ◌∷◌, ◌++◌,
  if◌then◌else◌, ◌==◌, text_eq, nat_eq, contains, leb, ltb, length, map, is_some,
}
use tlsocket.Dict.{keys}
use tlsocket.Text.{Text, codes, is_empty, decimal, starts_with}
use tlsocket.Security.BruteForce.{LogRecord, second, not_available}
use tlsocket.LogParser.Counter.{increment, count_of, most_common, top}

abbrev pub attack_events : List Text
attack_events =
    codes "LOGIN_FAILED"
    ∷ codes "RATE_LIMIT_EXCEEDED"
    ∷ codes "CONNECTION_LIMIT_REACHED"
    ∷ codes "BRUTE_FORCE_ATTEMPT"
    ∷ []

-- the year, the month and the day of a day since 1970, by the count of days from the first of March of year 0
unfoldable pub civil : ℕ → ℕ × ℕ × ℕ
civil days =
    let z = days + 719468 in
    let day_of_era = z % 146097 in
    let year_of_era =
      (day_of_era + day_of_era / 36524 - day_of_era / 1460 - day_of_era / 146096) / 365 in
    let day_of_year = day_of_era + year_of_era / 100 - (365 * year_of_era + year_of_era / 4) in
    let month = (5 * day_of_year + 2) / 153 in
    let year = year_of_era + z / 146097 * 400 in
    let day = day_of_year - (153 * month + 2) / 5 + 1 in
    if ltb month 10 then (year, month + 3, day) else (year + 1, month - 9, day)

-- %Y, %m, %d, %H: at least two digits, for years after 999 at least four
abbrev pub two_digits : ℕ → Text
two_digits n = if ltb n 10 then b'0' ∷ decimal n else decimal n

-- strftime("%Y-%m-%d %H:00") in UTC
unfoldable pub hour_label : ℕ → Text
hour_label t =
    let hours = t / (3600 * second) in
    let (year, month, day) = civil (hours / 24) in
    decimal year
    ++ (b'-' ∷ two_digits month
        ++ (b'-' ∷ two_digits day ++ (b' ' ∷ two_digits (hours % 24) ++ codes ":00")))

unfoldable pub count_hours : List LogRecord → List (Text × ℕ) → List (Text × ℕ)
count_hours [] counts = counts
count_hours (r ∷ rs) counts = count_hours rs (
    if contains attack_events r.event_type
    then increment (hour_label r.timestamp) counts
    else counts)

unfoldable pub peak_attack_hours : List LogRecord → ℕ → List (Text × ℕ)
peak_attack_hours records top_n = top top_n (count_hours records [])

-- part in s
unfoldable pub has_part : Text → Text → Bool
has_part part [] = is_empty part
has_part part (c ∷ s) = starts_with part (c ∷ s) || has_part part s

abbrev pub is_targeted : LogRecord → Bool
is_targeted r =
    r.event_type == codes "LOGIN_FAILED"
    && not (contains (codes "N/A" ∷ codes "Unknown" ∷ []) r.username)
    && not (has_part (codes "ALREADY_LOGGED_IN") r.extra_info)

unfoldable pub count_users : List LogRecord → List (Text × ℕ) → List (Text × ℕ)
count_users [] counts = counts
count_users (r ∷ rs) counts =
    count_users rs (if is_targeted r then increment r.username counts else counts)

unfoldable pub top_targeted_users : List LogRecord → ℕ → List (Text × ℕ)
top_targeted_users records top_n = top top_n (count_users records [])
