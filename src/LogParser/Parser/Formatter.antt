-- ===== src/LogParser/Parser/Formatter.antt =====
-- What `_emit` of src/tlsocket/server_side/logs_management/record_logs.py and `log_alert` of
-- src/tlsocket/security/logger.py have written, and what is read from it: the JSON formatter that
-- src/tlsocket/logging_config.py sets up is a parameter.
use tlsocket.Prelude.{
  ℕ, true, false, ◌≡◌, refl, Option, none, some, [], ◌∷◌, text_eq, text_beq, every, get_or,
}
use tlsocket.Dict.{lookup}
use tlsocket.Text.{Text, codes, is_empty, strip, not_break}
use tlsocket.Security.BruteForce.{LogRecord, not_available}
use tlsocket.Server.State.{LogLine, Level, info, warning}
use tlsocket.LogParser.Parser.{
  Json, string, other, Object, object, aware, parsed, read_fields, make_record, read_object,
  read_timestamp, read_document, parse_line,
}

abbrev pub level_name : Level → Text
level_name info = codes "INFO"
level_name warning = codes "WARNING"

abbrev pub optional : Text → Option Text → Object → Object
optional key none o = o
optional key (some text) o = (key, string text) ∷ o

-- the numbers of an alert are no texts
abbrev pub numbers : Option (ℕ × ℕ) → Object → Object
numbers none o = o
numbers (some n) o = (codes "failed_attempts", other) ∷ (codes "window_seconds", other) ∷ o

abbrev pub stamped_fields :
    Text → Text → Text → Option Text → Option Text → Option Text → Option (ℕ × ℕ) → Object
stamped_fields ts level event username ip extra_info counts =
    (codes "level", string level)
    ∷ (codes "event", string event)
    ∷ optional (codes "username") username (
        optional (codes "ip") ip (
          optional (codes "extra_info") extra_info (numbers counts ((codes "ts", string ts) ∷ []))))

-- "%(levelname)s %(message)s" with its fields renamed, the extra fields of the call, and the timestamp
abbrev pub fields : Text → LogLine → Object
fields ts l = stamped_fields ts (level_name l.level) l.event l.username l.ip l.extra_info l.counts

-- What the formatter writes: one line for each log line, with the fields as JSON and the time in ISO format.
pub record JsonFormatter (j : Json) : Type 0 where
  pub isoformat : ℕ → Text
  pub format : ℕ → LogLine → Text
  pub loads_format :
      (t : ℕ) (l : LogLine) → j.loads (format t l) ≡ some (object (fields (isoformat t) l))
  pub fromisoformat_isoformat : (t : ℕ) → j.fromisoformat (isoformat t) ≡ some (aware t)
  pub strip_format : (t : ℕ) (l : LogLine) → strip (format t l) ≡ format t l
  pub full_format : (t : ℕ) (l : LogLine) → is_empty (format t l) ≡ false
  pub line_format : (t : ℕ) (l : LogLine) → every not_break (format t l) ≡ true

-- What a log line says, to a reader: the record with the time of the line, and a default for a field that is left out.
abbrev pub record_at : ℕ → LogLine → LogRecord
record_at t l = record {
  timestamp = t;
  level = level_name l.level;
  event_type = l.event;
  username = get_or l.username not_available;
  ip = get_or l.ip not_available;
  extra_info = get_or l.extra_info [];
}

lookup_ts :
    (ts level event : Text) (user ip info : Option Text) (n : Option (ℕ × ℕ))
    → lookup (codes "ts") (stamped_fields ts level event user ip info n) ≡ some (string ts)
unfolding lookup codes text_beq
lookup_ts ts level event none none none none = refl
lookup_ts ts level event none none none (some n) = refl
lookup_ts ts level event none none (some c) none = refl
lookup_ts ts level event none none (some c) (some n) = refl
lookup_ts ts level event none (some b) none none = refl
lookup_ts ts level event none (some b) none (some n) = refl
lookup_ts ts level event none (some b) (some c) none = refl
lookup_ts ts level event none (some b) (some c) (some n) = refl
lookup_ts ts level event (some a) none none none = refl
lookup_ts ts level event (some a) none none (some n) = refl
lookup_ts ts level event (some a) none (some c) none = refl
lookup_ts ts level event (some a) none (some c) (some n) = refl
lookup_ts ts level event (some a) (some b) none none = refl
lookup_ts ts level event (some a) (some b) none (some n) = refl
lookup_ts ts level event (some a) (some b) (some c) none = refl
lookup_ts ts level event (some a) (some b) (some c) (some n) = refl

read_stamped :
    (t : ℕ) (ts level event : Text) (user ip info : Option Text) (n : Option (ℕ × ℕ))
    → read_fields (aware t) (stamped_fields ts level event user ip info n)
      ≡ parsed (record {
        timestamp = t;
        level = level;
        event_type = event;
        username = get_or user not_available;
        ip = get_or ip not_available;
        extra_info = get_or info [];
      })
unfolding lookup codes text_beq read_fields make_record
read_stamped t ts level event none none none none = refl
read_stamped t ts level event none none none (some n) = refl
read_stamped t ts level event none none (some c) none = refl
read_stamped t ts level event none none (some c) (some n) = refl
read_stamped t ts level event none (some b) none none = refl
read_stamped t ts level event none (some b) none (some n) = refl
read_stamped t ts level event none (some b) (some c) none = refl
read_stamped t ts level event none (some b) (some c) (some n) = refl
read_stamped t ts level event (some a) none none none = refl
read_stamped t ts level event (some a) none none (some n) = refl
read_stamped t ts level event (some a) none (some c) none = refl
read_stamped t ts level event (some a) none (some c) (some n) = refl
read_stamped t ts level event (some a) (some b) none none = refl
read_stamped t ts level event (some a) (some b) none (some n) = refl
read_stamped t ts level event (some a) (some b) (some c) none = refl
read_stamped t ts level event (some a) (some b) (some c) (some n) = refl

module _ (j : Json) (f : JsonFormatter j) where
  -- A written line is read as what it says.
  pub parse_line-format :
      (t : ℕ) (l : LogLine) → parse_line j (f.format t l) ≡ parsed (record_at t l)
  unfolding parse_line read_document read_object read_timestamp
  parse_line-format t l =
      let ts = f.isoformat t in
      let stamp = lookup_ts ts (level_name l.level) l.event l.username l.ip l.extra_info l.counts in
      rw
        (
          f.strip_format t l,
          f.full_format t l,
          f.loads_format t l,
          read_object,
          stamp,
          read_timestamp,
          f.fromisoformat_isoformat t,
        )
        (read_stamped t ts (level_name l.level) l.event l.username l.ip l.extra_info l.counts)
