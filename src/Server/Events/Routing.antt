-- ===== src/Server/Events/Routing.antt =====
-- Where an event is written.
use tlsocket.Prelude.{
  Bool, true, false, Bool-cases, inl, inr, text_beq_iff, ◌==◌, ◌||◌, ◌≡◌, refl, List, [], ◌∷◌, ◌++◌,
  arith, if◌then◌else◌, text_eq, contains, text_beq, append_assoc, append-nil, every,
  contains-disjoint, disjoint, skip, skip-append, length, ap, ◌∙◌,
}
use tlsocket.Text.{Text, codes}
use tlsocket.Security.BruteForce.{Alert}
use tlsocket.Security.BruteForce.Alerts.{raised, alerts-process_record}
use tlsocket.Server.State.{Server, LogLine, server, security}
use tlsocket.Server.Events.{
  Event, server_only, server_and_security, security_only, warning_events, line_of, emit,
  feed_detector, route, count, log_event, alert_lines, fed_record,
}

abbrev pub to_server : Text → Bool
to_server event = contains server_only event || contains server_and_security event

abbrev pub to_security : Text → Bool
to_security event =
    contains server_and_security event
    || contains security_only event
    || contains warning_events event

abbrev pub lines_for : Event → List LogLine
lines_for e =
    (if to_server e.event_type then line_of server e ∷ [] else [])
    ++ (if to_security e.event_type then line_of security e ∷ [] else [])

sets_apart :
    (disjoint server_only server_and_security ≡ true)
    × (disjoint server_only security_only ≡ true)
    × (disjoint server_only warning_events ≡ true)
unfolding codes contains every text_beq
sets_apart = (refl, refl, refl)

log-route : (e : Event) (s : Server) → (route e s).log ≡ s.log ++ lines_for e
unfolding route emit
log-route e s = ground (
  arith,
  contains-disjoint server_only server_and_security e.event_type sets_apart.0,
  contains-disjoint server_only security_only e.event_type sets_apart.1,
  contains-disjoint server_only warning_events e.event_type sets_apart.2,
  append_assoc s.log (line_of server e ∷ []) (line_of security e ∷ []),
  append-nil s.log,
)

fed-route :
    (e : Event) (s : Server) → ((route e s).detector ≡ s.detector) × ((route e s).clock ≡ s.clock)
unfolding route emit
fed-route e s = (ground arith, ground arith)

-- the alert that the event raises
abbrev pub alerts_for : Event → Server → List Alert
alerts_for e s = raised s.detector (fed_record e s.clock)

log-feed_detector :
    (e : Event) (s : Server) → (feed_detector e s).log ≡ s.log ++ alert_lines (alerts_for e s)
unfolding feed_detector
log-feed_detector e s =
    ap (λ x. s.log ++ alert_lines (skip (length s.detector.alerts) x))
      (alerts-process_record s.detector (fed_record e s.clock))
    ∙ ap (λ x. s.log ++ alert_lines x) (skip-append s.detector.alerts (alerts_for e s))

-- The detector keeps the alerts that it raised.
pub alerts-log_event :
    (e : Event) (s : Server) → (log_event e s).detector.alerts ≡ s.detector.alerts ++ alerts_for e s
unfolding log_event count feed_detector
alerts-log_event e s =
    let (detector, clock) = fed-route e s in
    alerts-process_record (route e s).detector (fed_record e (route e s).clock)
    ∙ rw (detector, clock) refl

-- An event is appended once to each log that its type belongs to, and to no other; one that belongs to none is
-- written nowhere. Behind these lines stand those of the alert, in the security log and in that of the alerts, if the
-- event is a failed log-in that makes the attempts of its address in the window as many as the limit.
pub log-log_event :
    (e : Event) (s : Server)
    → (log_event e s).log ≡ s.log ++ (lines_for e ++ alert_lines (alerts_for e s))
unfolding log_event count
log-log_event e s =
    let (detector, clock) = fed-route e s in
    let same : alerts_for e (route e s) ≡ alerts_for e s = rw (detector, clock) refl in
    log-feed_detector e (route e s)
    ∙ ap (λ x. (route e s).log ++ alert_lines x) same
    ∙ ap (λ x. x ++ alert_lines (alerts_for e s)) (log-route e s)
    ∙ append_assoc s.log (lines_for e) (alert_lines (alerts_for e s))

abbrev pub unrouted : List Text
unrouted = codes "SET_ROLE" ∷ codes "INVALID_MESSAGE" ∷ []

unrouted_apart :
    (disjoint unrouted server_only ≡ true)
    × (disjoint unrouted server_and_security ≡ true)
    × (disjoint unrouted security_only ≡ true)
    × (disjoint unrouted warning_events ≡ true)
unfolding codes contains every text_beq
unrouted_apart = (refl, refl, refl, refl)

failed_not_unrouted : contains unrouted (codes "LOGIN_FAILED") ≡ false
unfolding codes contains text_beq
failed_not_unrouted = refl

-- only a failed log-in raises an alert
pub no_alert :
    (e : Event) (s : Server) → (e.event_type == codes "LOGIN_FAILED") ≡ false → alerts_for e s ≡ []
unfolding fed_record
no_alert e s h = rw h refl

not_failed :
    (e : Event)
    → contains unrouted e.event_type ≡ true
    → (e.event_type == codes "LOGIN_FAILED") ≡ false
not_failed e h = elim (Bool-cases (e.event_type == codes "LOGIN_FAILED")) [
  | inl failed ↦
      let same = (text_beq_iff e.event_type (codes "LOGIN_FAILED")).0 failed in
      absurd (ground (arith, h, ap (contains unrouted) same, failed_not_unrouted))
  | inr isnt ↦ isnt
]

-- The events SET_ROLE, which the handler of messages logs after a change of role, and INVALID_MESSAGE leave
-- every log as it was.
pub unrouted_events :
    (e : Event) (s : Server) → contains unrouted e.event_type ≡ true → (log_event e s).log ≡ s.log
unfolding alert_lines
unrouted_events e s h =
    log-log_event e s
    ∙ rw
        (
          contains-disjoint unrouted server_only e.event_type unrouted_apart.0 h,
          contains-disjoint unrouted server_and_security e.event_type unrouted_apart.1 h,
          contains-disjoint unrouted security_only e.event_type unrouted_apart.2 h,
          contains-disjoint unrouted warning_events e.event_type unrouted_apart.3 h,
          no_alert e s (not_failed e h),
        )
        (append-nil s.log)
