-- ===== src/LogParser/Parser/Said.antt =====
-- What the lines of the security log say, of the events that src/tlsocket/server_side/logs_management/record_logs.py logged
-- and of the alerts of src/tlsocket/security/logger.py.
use tlsocket.Prelude.{
  Bool, true, false, not, ◌≡◌, refl, ap, sym, some, List, [], ◌∷◌, ◌++◌, if◌then◌else◌, ◌==◌,
  text_eq, text_beq_iff, arith, map, keep, contains, Bool-cases, inl, inr, text_beq, ◌&&◌, get_or,
  none,
}
use tlsocket.Text.{Text, codes, is_empty}
use tlsocket.Security.BruteForce.{LogRecord, Alert, not_available}
use tlsocket.Server.State.{LogLine, server, security, test, alert, info, warning}
use tlsocket.Server.Events.{
  Event, line_of, alert_line, alert_lines, fed_record, server_and_security, security_only,
  warning_events,
}
use tlsocket.Server.Events.Routing.{to_security, lines_for}
use tlsocket.LogParser.Parser.Formatter.{record_at, level_name}
use tlsocket.LogParser.Parser.Written.{Stamped, record_of}

abbrev pub is_security : LogLine → Bool
is_security l = elim l.logger [ server ↦ false | security ↦ true | test ↦ false | alert ↦ false ]

abbrev pub attempt : Text
attempt = codes "BRUTE_FORCE_ATTEMPT"

-- a record but for its time
abbrev pub untimed : LogRecord → LogRecord
untimed r = record r { timestamp = 0 }

abbrev pub of_event : Event → LogRecord
of_event e = fed_record e 0

abbrev pub of_alert : Alert → LogRecord
of_alert a = record {
  timestamp = 0;
  level = codes "WARNING";
  event_type = attempt;
  username = not_available;
  ip = a.ip;
  extra_info = [];
}

abbrev pub is_attempt : Bool → LogRecord → Bool
is_attempt b r = if r.event_type == attempt then b else not b

-- what the lines of the security log say, of the alerts or of the rest
unfoldable pub said : Bool → List LogLine → List LogRecord
said b [] = []
said b (l ∷ log) =
    let rest = said b log in
    if is_security l && is_attempt b (record_at 0 l) then record_at 0 l ∷ rest else rest

pub said-append : (b : Bool) (x y : List LogLine) → said b (x ++ y) ≡ said b x ++ said b y
unfolding said
said-append b [] y = refl
said-append b (l ∷ x) y = ground (arith, said-append b x y)

pub said-keep :
    (b : Bool) (log : List LogLine)
    → map (record_at 0) (keep (λ l. is_attempt b (record_at 0 l)) (keep is_security log))
      ≡ said b log
unfolding said keep
said-keep b [] = refl
said-keep b (l ∷ log) = ground (arith, said-keep b log)

pub untimed-keep :
    (b : Bool) (lines : List Stamped)
    → map untimed (keep (is_attempt b) (map record_of lines))
      ≡ map (record_at 0) (keep (λ l. is_attempt b (record_at 0 l)) (map (λ p. p.1) lines))
unfolding keep
untimed-keep b [] = refl
untimed-keep b ((t, l) ∷ lines) = ground (arith, untimed-keep b lines)

pub times :
    (lines : List Stamped)
    → map (λ (r : LogRecord). r.timestamp) (map record_of lines) ≡ map (λ p. p.0) lines
times [] = refl
times ((t, l) ∷ lines) = ap (◌∷◌ t) (times lines)

-- a field that is left out is what its default gives
left_out_ip :
    (ip : Text) → get_or (if ip == not_available then none else some ip) not_available ≡ ip
left_out_ip ip = elim (Bool-cases (ip == not_available)) [
  | inl e ↦ rw e (sym ((text_beq_iff ip not_available).0 e))
  | inr e ↦ rw e refl
]

left_out_info : (s : Text) → get_or (if is_empty s then none else some s) [] ≡ s
unfolding is_empty
left_out_info [] = refl
left_out_info (c ∷ s) = refl

level_of :
    (b : Bool)
    → level_name (if b then warning else info) ≡ (if b then codes "WARNING" else codes "INFO")
level_of true = refl
level_of false = refl

record_at-line_of : (e : Event) → record_at 0 (line_of security e) ≡ fed_record e 0
unfolding line_of fed_record
record_at-line_of e =
    rw
      (
        left_out_ip e.ip,
        left_out_info e.extra_info,
        level_of (contains warning_events e.event_type),
      )
      refl

attempts_apart :
    (contains server_and_security attempt ≡ false)
    × (contains security_only attempt ≡ false)
    × (contains warning_events attempt ≡ false)
unfolding codes contains text_beq
attempts_apart = (refl, refl, refl)

-- no event that is routed to the security log is named like an alert
routed_apart : (e : Event) → to_security e.event_type ≡ true → (e.event_type == attempt) ≡ false
routed_apart e routed = elim (Bool-cases (e.event_type == attempt)) [
  | inl same ↦
      let name = (text_beq_iff e.event_type attempt).0 same in
      absurd (ground (arith, routed, ap to_security name, attempts_apart))
  | inr other ↦ other
]

pub said_lines :
    (b : Bool) (e : Event)
    → said b (lines_for e) ≡ (if to_security e.event_type && not b then fed_record e 0 ∷ [] else [])
unfolding said line_of fed_record
said_lines b e = ground (arith, record_at-line_of e, routed_apart e)

pub said_alerts :
    (b : Bool) (alerts : List Alert)
    → said b (alert_lines alerts) ≡ (if b then map of_alert alerts else [])
unfolding said alert_lines alert_line text_beq codes
said_alerts b [] = ground arith
said_alerts true (a ∷ alerts) = ap (◌∷◌ (of_alert a)) (said_alerts true alerts)
said_alerts false (a ∷ alerts) = said_alerts false alerts
