-- ===== src/LogParser/Parser/Written.antt =====
-- A log file of written lines, read back by src/tlsocket/log_parser/parser.py.
use tlsocket.Prelude.{ℕ, true, ◌≡◌, refl, some, List, [], ◌∷◌, ◌++◌, map, every}
use tlsocket.Text.{Text, is_empty, strip, lstrip, rstrip, not_break}
use tlsocket.Auth.Bans.{file_lines, line_split}
use tlsocket.Auth.Bans.Roundtrip.{line_split-append}
use tlsocket.Security.BruteForce.{LogRecord}
use tlsocket.Server.State.{LogLine}
use tlsocket.LogParser.Parser.{Json, parsed, parse_line, skipped, records_of, iter_record}
use tlsocket.LogParser.Parser.Formatter.{JsonFormatter, record_at, parse_line-format}

-- A line and the time that the logging library gave it, in microseconds.
abbrev pub Stamped : Type 0
Stamped = ℕ × LogLine

abbrev pub record_of : Stamped → LogRecord
record_of (t, l) = record_at t l

module _ (j : Json) (f : JsonFormatter j) where
  abbrev pub file_of : List Stamped → Text
  file_of [] = []
  file_of ((t, l) ∷ rest) = f.format t l ++ b'\n' ∷ file_of rest

  blank : parse_line j [] ≡ skipped
  unfolding parse_line strip lstrip rstrip is_empty
  blank = refl

  records_of-blank : records_of j (file_lines []) ≡ some []
  unfolding records_of file_lines line_split
  records_of-blank = rw (records_of, blank) refl

  file_lines-line :
      (line s : Text)
      → every not_break line ≡ true
      → file_lines (line ++ b'\n' ∷ s) ≡ line ∷ file_lines s
  unfolding file_lines
  file_lines-line line s h = rw (line_split-append line s h) refl

  records_of-line :
      (line : Text) (lines : List Text) (r : LogRecord) (rs : List LogRecord)
      → parse_line j line ≡ parsed r
      → records_of j lines ≡ some rs
      → records_of j (line ∷ lines) ≡ some (r ∷ rs)
  unfolding records_of
  records_of-line line lines r rs h k = rw (records_of, h, k) refl

  -- Every line of the file gives its record, in their order.
  pub iter_record-file_of :
      (lines : List Stamped) → iter_record j (file_of lines) ≡ some (map record_of lines)
  unfolding iter_record
  iter_record-file_of [] = records_of-blank
  iter_record-file_of ((t, l) ∷ rest) =
      rw (file_lines-line (f.format t l) (file_of rest) (f.line_format t l)) (
        records_of-line (f.format t l) (file_lines (file_of rest)) (record_at t l)
          (map record_of rest) (parse_line-format j f t l) (iter_record-file_of rest))
