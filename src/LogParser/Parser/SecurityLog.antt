-- ===== src/LogParser/Parser/SecurityLog.antt =====
-- The events that src/tlsocket/server_side/logs_management/record_logs.py logs, and the alerts of its detector, read back from
-- the security log by src/tlsocket/log_parser/parser.py.
use tlsocket.Prelude.{
  ℕ, Bool, true, false, not, ◌≡◌, refl, ◌∙◌, ap, sym, some, List, [], ◌∷◌, ◌++◌, if◌then◌else◌,
  text_eq, arith, map, keep, append_assoc, ◌&&◌, append-nil,
}
use tlsocket.Text.{Text}
use tlsocket.Security.BruteForce.{Detector, LogRecord, Alert, is_ip_blocked, save_state}
use tlsocket.Server.State.{Server}
use tlsocket.Server.Events.{Event, alert_lines, fed_record, log_event}
use tlsocket.Server.Events.Routing.{
  to_security, lines_for, alerts_for, log-log_event, alerts-log_event,
}
use tlsocket.LogParser.Parser.{Json, iter_record}
use tlsocket.LogParser.Parser.Formatter.{JsonFormatter, record_at}
use tlsocket.LogParser.Parser.Written.{Stamped, record_of, file_of, iter_record-file_of}
use tlsocket.LogParser.Parser.Said.{
  is_security, is_attempt, untimed, of_event, of_alert, said, said-append, said-keep, untimed-keep,
  times, said_lines, said_alerts,
}

-- What threads do with the logs and the detector, each call with what the wall clock shows: an event is logged, or it
-- is asked whether an address is blocked.
pub data LogCall : Type 0 where
  logs : ℕ → Event → LogCall
  asks : ℕ → Text → LogCall

unfoldable pub run_log : List LogCall → Server → Server
run_log [] s = s
run_log (logs now e ∷ calls) s = run_log calls (log_event e (record s { clock = now }))
run_log (asks now ip ∷ calls) s =
    run_log calls (record s { detector = (is_ip_blocked s.detector ip now).0 })

-- the events that go to the security log
unfoldable pub secured : List LogCall → List Event
secured [] = []
secured (logs now e ∷ calls) =
    let rest = secured calls in if to_security e.event_type then e ∷ rest else rest
secured (asks now ip ∷ calls) = secured calls

alerts-is_ip_blocked :
    (d : Detector) (ip : Text) (now : ℕ) → (is_ip_blocked d ip now).0.alerts ≡ d.alerts
unfolding is_ip_blocked save_state
alerts-is_ip_blocked d ip now = ground arith

said_step :
    (b : Bool) (e : Event) (s : Server)
    → said b (log_event e s).log
      ≡ said b s.log
        ++ ((if to_security e.event_type && not b then fed_record e 0 ∷ [] else [])
            ++ (if b then map of_alert (alerts_for e s) else []))
said_step b e s =
    ap (said b) (log-log_event e s)
    ∙ said-append b s.log (lines_for e ++ alert_lines (alerts_for e s))
    ∙ ap (λ x. said b s.log ++ x)
        (said-append b (lines_for e) (alert_lines (alerts_for e s))
          ∙ rw (said_lines b e, said_alerts b (alerts_for e s)) refl)

said_events :
    (calls : List LogCall) (s : Server)
    → said false (run_log calls s).log ≡ said false s.log ++ map of_event (secured calls)
unfolding run_log secured
said_events [] s = sym (append-nil (said false s.log))
said_events (asks now ip ∷ calls) s = said_events calls _
said_events (logs now e ∷ calls) s =
    let before = record s { clock = now } in
    said_events calls (log_event e before)
    ∙ ground (
      arith,
      said_step false e before,
      append_assoc (said false s.log) (of_event e ∷ []) (map of_event (secured calls)),
      append-nil (said false s.log),
    )

alerts_append : (x y : List Alert) → map of_alert (x ++ y) ≡ map of_alert x ++ map of_alert y
alerts_append [] y = refl
alerts_append (a ∷ x) y = ap (◌∷◌ (of_alert a)) (alerts_append x y)

said_attempts :
    (calls : List LogCall) (s : Server)
    → said true s.log ≡ map of_alert s.detector.alerts
    → said true (run_log calls s).log ≡ map of_alert (run_log calls s).detector.alerts
unfolding run_log
said_attempts [] s h = h
said_attempts (asks now ip ∷ calls) s h =
    said_attempts calls _ (h ∙ ap (map of_alert) (sym (alerts-is_ip_blocked s.detector ip now)))
said_attempts (logs now e ∷ calls) s h =
    let before = record s { clock = now } in
    said_attempts calls (log_event e before) (
      said_step true e before
      ∙ ground (
        arith,
        h,
        alerts-log_event e before,
        alerts_append s.detector.alerts (alerts_for e before),
      ))

-- Events are logged, with questions whether an address is blocked in between, by a server with no lines and no alerts so
-- far, and the security lines that this makes are written to a file, at any times. Read back, the file gives one record for each line, with the time of the line: but for
-- the times, those that are no attempts are the records that the detector was given of the events that go to the
-- security log, in their order, and the attempts are the alerts that the detector raised, in theirs.
pub security_log_read_back :
    (j : Json) (f : JsonFormatter j) (calls : List LogCall) (s : Server) (lines : List Stamped)
    → s.log ≡ []
    → s.detector.alerts ≡ []
    → map (λ p. p.1) lines ≡ keep is_security (run_log calls s).log
    → (rs : List LogRecord) × (iter_record j (file_of j f lines) ≡ some rs)
      × (map (λ r. r.timestamp) rs ≡ map (λ p. p.0) lines)
      × (map untimed (keep (is_attempt false) rs) ≡ map of_event (secured calls))
      × (map untimed (keep (is_attempt true) rs) ≡ map of_alert (run_log calls s).detector.alerts)
unfolding said
security_log_read_back j f calls s lines no_lines no_alerts written =
    let log = (run_log calls s).log in
    let kind : (b : Bool) → map untimed (keep (is_attempt b) (map record_of lines)) ≡ said b log =
      λ b.
        untimed-keep b lines
        ∙ ap (λ x. map (record_at 0) (keep (λ l. is_attempt b (record_at 0 l)) x)) written
        ∙ said-keep b log in
    (
      map record_of lines,
      iter_record-file_of j f lines,
      times lines,
      kind false ∙ said_events calls s ∙ rw no_lines refl,
      kind true ∙ said_attempts calls s (rw (no_lines, no_alerts) refl),
    )
