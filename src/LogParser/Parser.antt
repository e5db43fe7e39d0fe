-- ===== src/LogParser/Parser.antt =====
-- src/tlsocket/log_parser/parser.py. `json` and `datetime.fromisoformat` are the parameters of `Json`; of a value only
-- the texts are told apart.
pub mod Formatter
pub mod Written
pub mod Said
pub mod SecurityLog
pub mod Growth
use tlsocket.Prelude.{
  ℕ, Bool, true, false, Option, none, some, List, [], ◌∷◌, if◌then◌else◌, get_or, text_eq, ◌≡◌,
}
use tlsocket.Dict.{lookup}
use tlsocket.Text.{Text, codes, is_empty, strip}
use tlsocket.Auth.Bans.{file_lines}
use tlsocket.Security.BruteForce.{LogRecord, not_available}

pub data Value : Type 0 where
  string : Text → Value
  other : Value

abbrev pub Object : Type 0
Object = List (Text × Value)

pub data Document : Type 0 where
  object : Object → Document
  no_object : Document

-- A timestamp with an offset gives the instant; one without gives what its clock shows.
pub data Timestamp : Type 0 where
  aware naive : ℕ → Timestamp

-- `none` is the ValueError of either.
pub record Json : Type 0 where
  pub loads : Text → Option Document
  pub fromisoformat : Text → Option Timestamp

-- What becomes of a line: a record; None; or a record with a field that is no text, against the declared types.
pub data Parsed : Type 0 where
  parsed : LogRecord → Parsed
  skipped untyped : Parsed

-- a naive timestamp is taken for UTC
abbrev pub instant : Timestamp → ℕ
instant (aware t) = t
instant (naive t) = t

-- the constructor, with its fields in order
unfoldable pub make_record : Timestamp → Value → Value → Value → Value → Value → Parsed
make_record t (string level) (string event) (string username) (string ip) (string info) =
    parsed (record {
      timestamp = instant t;
      level = level;
      event_type = event;
      username = username;
      ip = ip;
      extra_info = info;
    })
make_record t level event username ip info = untyped

-- the fields after the timestamp: a KeyError, or the record
unfoldable pub read_fields : Timestamp → Object → Parsed
read_fields t o = elim (lookup (codes "level") o) [
  | none ↦ skipped
  | some level ↦ elim (lookup (codes "event") o) [
    | none ↦ skipped
    | some event ↦
        make_record t level event (get_or (lookup (codes "username") o) (string not_available))
          (get_or (lookup (codes "ip") o) (string not_available))
          (get_or (lookup (codes "extra_info") o) (string []))
  ]
]

-- data["ts"]: a KeyError, a TypeError of `fromisoformat`, or its ValueError
unfoldable pub read_timestamp : Json → Option Value → Option Timestamp
read_timestamp j none = none
read_timestamp j (some other) = none
read_timestamp j (some (string text)) = j.fromisoformat text

unfoldable pub read_object : Json → Object → Parsed
read_object j o = elim (read_timestamp j (lookup (codes "ts") o)) [
  | none ↦ skipped
  | some t ↦ read_fields t o
]

-- the TypeError of a document that is no object is caught
unfoldable pub read_document : Json → Option Document → Parsed
read_document j none = skipped
read_document j (some no_object) = skipped
read_document j (some (object o)) = read_object j o

unfoldable pub parse_line : Json → Text → Parsed
parse_line j line =
    if is_empty (strip line) then skipped else read_document j (j.loads (strip line))

-- the records of the lines; `none` where one is untyped
unfoldable pub records_of : Json → List Text → Option (List LogRecord)
records_of j [] = some []
records_of j (line ∷ lines) =
    let rest = records_of j lines in
    elim (parse_line j line) [
      | skipped ↦ rest
      | untyped ↦ none
      | parsed r ↦ elim rest [ none ↦ none | some rs ↦ some (r ∷ rs) ]
    ]

unfoldable pub iter_record : Json → Text → Option (List LogRecord)
iter_record j content = records_of j (file_lines content)
