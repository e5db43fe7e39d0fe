-- ===== src/LogParser/Command.antt =====
-- `main` of src/tlsocket/log_parser/main.py, for arguments that were parsed. The content of the log file, the clock and json.dumps
-- are arguments; `none` is an exception.
pub mod Since
use tlsocket.Prelude.{
  ℕ, ◌+◌, ◌-◌, ◌*◌, Bool, true, false, Option, none, some, List, [], ◌∷◌, ◌++◌, if◌then◌else◌, ltb,
}
use tlsocket.Text.{Text, Unicode, codes, is_empty}
use tlsocket.Security.BruteForce.{LogRecord, second}
use tlsocket.LogParser.Filters.{Digits, parse_duration, filter_since}
use tlsocket.LogParser.Parser.{Json, iter_record}
use tlsocket.LogParser.Report.{Report, Paths, build_report, to_table, resolve_path}

-- "-o" and "--since" are `none` where they are left out.
pub record Arguments : Type 0 where
  pub source : Text
  pub since : Option Text
  pub follow : Bool
  pub json : Bool
  pub output : Option Text

-- The log is followed, or what is printed and the file that is written.
pub data Outcome : Type 0 where
  following : Text → Outcome
  reported : List Text → Option (Text × Text) → Outcome

-- the seconds from the first year to 1970
abbrev pub before_epoch : ℕ
before_epoch = 62_135_596_800

-- datetime.now(...) - timedelta, in microseconds: an OverflowError before the first year; before 1970 it is as good as 0
unfoldable pub cutoff_of : ℕ → ℕ → Option ℕ
cutoff_of now seconds =
    if ltb (now + before_epoch * second) (seconds * second)
    then none
    else some (now - seconds * second)

unfoldable pub cutoff_for : Unicode → Digits → ℕ → Text → Option ℕ
cutoff_for u d now text = elim (parse_duration u d text) [
  | none ↦ none
  | some seconds ↦ cutoff_of now seconds
]

-- the records that are reported
unfoldable pub select :
    Unicode → Digits → ℕ → Option Text → List LogRecord → Option (List LogRecord)
select u d now none records = some records
select u d now (some text) records =
    if is_empty text then some records else elim (cutoff_for u d now text) [
      | none ↦ none
      | some cutoff ↦ some (filter_since records cutoff)
    ]

unfoldable pub report_of : Unicode → Digits → Json → ℕ → Option Text → Text → Option Report
report_of u d j now since content = elim (iter_record j content) [
  | none ↦ none
  | some records ↦ elim (select u d now since records) [
    | none ↦ none
    | some chosen ↦ build_report chosen
  ]
]

-- what is printed, and what is saved
unfoldable pub publish : (ℕ × ℕ → Text) → (Report → Text) → Arguments → Report → Outcome
publish percent to_json args report =
    let shown = if args.json then to_json report else to_table percent report in
    elim args.output [
      | none ↦ reported (shown ∷ []) none
      | some path ↦
          if is_empty path
          then reported (shown ∷ []) none
          else reported (shown ∷ (codes "[+] Report saved in: " ++ path) ∷ [])
              (some (path, to_json report))
    ]

-- `read` gives the content of a file, `none` for one that is not there
unfoldable pub main :
    Unicode
    → Digits
    → Json
    → Paths
    → (Text → Option Text)
    → (ℕ × ℕ → Text)
    → (Report → Text)
    → ℕ
    → Arguments
    → Option Outcome
main u d j paths read percent to_json now args =
    let path = resolve_path paths args.source in
    if args.follow then some (following path) else elim (read path) [
      | none ↦ none
      | some content ↦ elim (report_of u d j now args.since content) [
        | none ↦ none
        | some report ↦ some (publish percent to_json args report)
      ]
    ]
