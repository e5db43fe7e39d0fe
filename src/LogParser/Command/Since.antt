-- ===== src/LogParser/Command/Since.antt =====
-- A report since a time.
use tlsocket.Prelude.{
  ℕ, ◌+◌, ◌-◌, ◌*◌, ◌/◌, ◌≤◌, ◌≡◌, refl, false, some, List, [], ◌∷◌, ◌++◌, leb, keep, length, arith,
}
use tlsocket.Text.{Text, Unicode, decimal, is_empty}
use tlsocket.Security.BruteForce.{LogRecord, second}
use tlsocket.LogParser.Failures.{FailureBucket}
use tlsocket.LogParser.Filters.{Digits, unit_seconds, filter_since}
use tlsocket.LogParser.Filters.Durations.{parse_duration-decimal}
use tlsocket.LogParser.Parser.{Json, iter_record}
use tlsocket.LogParser.Report.{Report}
use tlsocket.LogParser.Report.Totals.{sum, build_report-adds_up}
use tlsocket.LogParser.Command.{before_epoch, cutoff_of, cutoff_for, select, report_of}

-- the records of the last so many seconds
abbrev pub recent : ℕ → ℕ → List LogRecord → List LogRecord
recent now seconds rs = keep (λ (r : LogRecord). leb (now - seconds * second) r.timestamp) rs

is_empty-unit : (t : Text) (c : ℕ) → is_empty (t ++ c ∷ []) ≡ false
unfolding is_empty
is_empty-unit [] c = refl
is_empty-unit (x ∷ t) c = refl

select-recent :
    (u : Unicode) (d : Digits) (now n c factor : ℕ) (rs : List LogRecord)
    → unit_seconds c ≡ some factor
    → n * factor / 86400 ≤ 999_999_999
    → n * factor * second ≤ now + before_epoch * second
    → select u d now (some (decimal n ++ c ∷ [])) rs ≡ some (recent now (n * factor) rs)
unfolding select cutoff_for cutoff_of filter_since
select-recent u d now n c factor rs unit most past =
    rw
      (
        select,
        is_empty-unit (decimal n) c,
        cutoff_for,
        parse_duration-decimal u d n c factor unit most,
      )
      (ground (arith, past))

-- If the lines of the log are records, and the duration is a number and one of the four units and reaches back neither beyond the
-- largest timedelta nor beyond the first year, a report is made. It counts the records that are no older than the duration,
-- and the totals of its timeline add up to their number.
pub report_of-since :
    (u : Unicode) (d : Digits) (j : Json) (now n c factor : ℕ) (content : Text)
    (rs : List LogRecord)
    → unit_seconds c ≡ some factor
    → n * factor / 86400 ≤ 999_999_999
    → n * factor * second ≤ now + before_epoch * second
    → iter_record j content ≡ some rs
    → (r : Report) × (report_of u d j now (some (decimal n ++ c ∷ [])) content ≡ some r)
      × (r.analysis.total_requests ≡ length (recent now (n * factor) rs))
      × (sum (λ (b : FailureBucket). b.total) r.failure_rate_over_time
          ≡ length (recent now (n * factor) rs))
unfolding report_of
report_of-since u d j now n c factor content rs unit most past lines =
    let (r, made, total, totals) = build_report-adds_up (recent now (n * factor) rs) in
    (
      r,
      rw (report_of, lines, select-recent u d now n c factor rs unit most past) made,
      total,
      totals,
    )
