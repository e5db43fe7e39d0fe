-- ===== src/LogParser/Filters.antt =====
-- src/tlsocket/log_parser/filters.py. `none` of a duration is an exception: the ValueError of the text, or the
-- OverflowError of `timedelta`.
pub mod Durations
use tlsocket.Prelude.{
  ℕ, zero, suc, ◌+◌, ◌-◌, ◌*◌, ◌/◌, ◌≡◌, Bool, true, false, ◌&&◌, ◌||◌, not, Option, none, some,
  List, [], ◌∷◌, if◌then◌else◌, nat_beq, leb, ltb, keep,
}
use tlsocket.Text.{Text, Unicode, strip, normalise, is_ascii}
use tlsocket.Security.BruteForce.{LogRecord}

-- What `\d` matches, with the value that `int` takes it for.
pub record Digits : Type 0 where
  pub value : ℕ → Option ℕ
  pub value_ascii :
      (c : ℕ)
      → is_ascii c ≡ true
      → value c ≡ (if leb b'0' c && leb c b'9' then some (c - b'0') else none)

-- _UNITS
unfoldable pub unit_seconds : ℕ → Option ℕ
unit_seconds c =
    if nat_beq c b's'
    then some 1
    else if nat_beq c b'm'
    then some 60
    else if nat_beq c b'h'
    then some 3600
    else if nat_beq c b'd'
    then some 86400
    else none

-- the largest timedelta is 999999999 days and the rest of a day
abbrev pub timedelta : ℕ → Option ℕ
timedelta seconds = if leb (seconds / 86400) 999_999_999 then some seconds else none

abbrev pub in_units : ℕ → Option ℕ → Option ℕ
in_units n none = none
in_units n (some factor) = timedelta (n * factor)

-- the match of the expression, with the number of the digits so far and whether there is one
unfoldable pub scan : Digits → ℕ → Bool → Text → Option ℕ
scan d n seen [] = none
scan d n seen (c ∷ []) = if seen then in_units n (unit_seconds c) else none
scan d n seen (c ∷ x ∷ s) = elim (d.value c) [
  | none ↦ none
  | some v ↦ scan d (n * 10 + v) true (x ∷ s)
]

unfoldable pub parse_duration : Unicode → Digits → Text → Option ℕ
parse_duration u d text = scan d 0 false (normalise u text)

-- `since` in the microseconds of the records
unfoldable pub filter_since : List LogRecord → ℕ → List LogRecord
filter_since records since = keep (λ r. leb since r.timestamp) records
