-- ===== src/LogParser/Analyzer/Counts.antt =====
-- The numbers of an analysis against the records.
use tlsocket.Prelude.{
  ℕ, ◌+◌, ◌≡◌, refl, Bool, true, false, ◌&&◌, ◌||◌, List, [], ◌∷◌, arith, if◌then◌else◌, ◌==◌,
  text_eq, text_beq_iff, contains, length, keep, distinct, ltb,
}
use tlsocket.Dict.{lookup, keys}
use tlsocket.Text.{Text, codes}
use tlsocket.Security.BruteForce.{LogRecord}
use tlsocket.LogParser.Counter.{count_of}
use tlsocket.LogParser.Counter.Laws.{count_of-increment, increment-distinct}
use tlsocket.LogParser.Counter.Ranking.{is_falling, most_common-falling, lookup-most_common}
use tlsocket.LogParser.Analyzer.{
  Tally, empty_tally, tally_record, tally_all, has_ip, is_brute_force, is_ddos, suspect,
  analysis_of, analyze,
}

-- The number of records that a test holds of.
abbrev pub how_many : (LogRecord → Bool) → List LogRecord → ℕ
how_many p rs = length (keep p rs)

abbrev pub is_event : Text → LogRecord → Bool
is_event name r = r.event_type == name

abbrev pub is_warning : LogRecord → Bool
is_warning r = r.level == codes "WARNING"

-- The record names an address, which is this one.
abbrev pub names_ip : Text → LogRecord → Bool
names_ip ip r = has_ip r && r.ip == ip

-- It is one of the events that count against an address.
abbrev pub accuses : Text → LogRecord → Bool
accuses ip r = (is_brute_force r || is_ddos r) && names_ip ip r

tally_numbers :
    (t : Tally) (rs : List LogRecord)
    → ((tally_all t rs).total ≡ t.total + length rs)
      × ((tally_all t rs).error_count
          ≡ t.error_count + how_many (is_event (codes "CONNECTION_ERROR")) rs)
      × ((tally_all t rs).warning_count ≡ t.warning_count + how_many is_warning rs)
      × ((tally_all t rs).failed_logins
          ≡ t.failed_logins + how_many (is_event (codes "LOGIN_FAILED")) rs)
      × ((tally_all t rs).successful_logins
          ≡ t.successful_logins + how_many (is_event (codes "LOGIN_SUCCESS")) rs)
      × ((tally_all t rs).banned_users ≡ t.banned_users + how_many (is_event (codes "BAN")) rs)
      × ((tally_all t rs).kicked_users ≡ t.kicked_users + how_many (is_event (codes "KICK")) rs)
unfolding tally_all tally_record keep
tally_numbers t [] = omega arith
tally_numbers t (r ∷ rs) =
    let (a, b, c, d, e, f, g) = tally_numbers (tally_record t r) rs in
    (
      ground arith,
      ground arith,
      ground arith,
      ground arith,
      ground arith,
      ground arith,
      ground arith,
    )

tally_alerts :
    (t : Tally) (rs : List LogRecord)
    → ((tally_all t rs).brute_force ≡ (t.brute_force || ltb 0 (how_many is_brute_force rs)))
      × ((tally_all t rs).ddos ≡ (t.ddos || ltb 0 (how_many is_ddos rs)))
unfolding tally_all tally_record keep
tally_alerts t [] = (ground arith, ground arith)
tally_alerts t (r ∷ rs) =
    let (a, b) = tally_alerts (tally_record t r) rs in (ground arith, ground arith)

count_of-suspect :
    (b : Bool) (r : LogRecord) (ips : List (Text × ℕ)) (ip : Text)
    → count_of ip (suspect b r ips)
      ≡ (if b && names_ip ip r then count_of ip ips + 1 else count_of ip ips)
count_of-suspect b r ips ip = ground (arith, count_of-increment r.ip ip ips)

suspect-distinct :
    (b : Bool) (r : LogRecord) (ips : List (Text × ℕ))
    → distinct (keys ips) ≡ true
    → distinct (keys (suspect b r ips)) ≡ true
suspect-distinct b r ips h = ground (arith, increment-distinct r.ip ips)

-- no event is of both kinds
kinds_apart : (r : LogRecord) → is_brute_force r ≡ true → is_ddos r ≡ false
unfolding contains codes
kinds_apart r h = ground (
  arith,
  text_beq_iff (codes "RATE_LIMIT_EXCEEDED") r.event_type,
  text_beq_iff (codes "BRUTE_FORCE_ATTEMPT") r.event_type,
  text_beq_iff (codes "CONNECTION_LIMIT_REACHED") r.event_type,
)

tally_ips :
    (t : Tally) (rs : List LogRecord) (ip : Text)
    → (count_of ip (tally_all t rs).ip_count ≡ count_of ip t.ip_count + how_many (names_ip ip) rs)
      × (count_of ip (tally_all t rs).suspicious_ips
          ≡ count_of ip t.suspicious_ips + how_many (accuses ip) rs)
unfolding tally_all tally_record keep
tally_ips t [] ip = omega arith
tally_ips t (r ∷ rs) ip =
    let (a, b) = tally_ips (tally_record t r) rs ip in
    let once = suspect (is_brute_force r) r t.suspicious_ips in
    (
      ground (arith, a, count_of-suspect true r t.ip_count ip),
      ground (
        arith,
        b,
        count_of-suspect (is_brute_force r) r t.suspicious_ips ip,
        count_of-suspect (is_ddos r) r once ip,
        kinds_apart r,
      ),
    )

tally_distinct :
    (t : Tally) (rs : List LogRecord)
    → distinct (keys t.ip_count) ≡ true
    → distinct (keys (tally_all t rs).ip_count) ≡ true
unfolding tally_all tally_record
tally_distinct t [] h = h
tally_distinct t (r ∷ rs) h =
    tally_distinct (tally_record t r) rs (suspect-distinct true r t.ip_count h)

-- The numbers of the analysis are the numbers of the records of each kind, the alerts say whether there is a record
-- of their kind, and the error rate is the number of errors by the number of records, 0 by 1 without records.
pub analyze_numbers :
    (rs : List LogRecord)
    → ((analyze rs).total_requests ≡ length rs)
      × ((analyze rs).error_count ≡ how_many (is_event (codes "CONNECTION_ERROR")) rs)
      × ((analyze rs).warning ≡ how_many is_warning rs)
      × ((analyze rs).failed_logins ≡ how_many (is_event (codes "LOGIN_FAILED")) rs)
      × ((analyze rs).successful_logins ≡ how_many (is_event (codes "LOGIN_SUCCESS")) rs)
      × ((analyze rs).banned_users ≡ how_many (is_event (codes "BAN")) rs)
      × ((analyze rs).kicked_users ≡ how_many (is_event (codes "KICK")) rs)
      × ((analyze rs).brute_force_alert ≡ ltb 0 (how_many is_brute_force rs))
      × ((analyze rs).ddos_alert ≡ ltb 0 (how_many is_ddos rs))
      × ((analyze rs).error_rate ≡ (
          if ltb 0 (length rs)
          then (how_many (is_event (codes "CONNECTION_ERROR")) rs, length rs)
          else (0, 1)))
unfolding analyze analysis_of
analyze_numbers rs =
    let (a, b, c, d, e, f, g) = tally_numbers empty_tally rs in
    let (p, q) = tally_alerts empty_tally rs in
    let all : (tally_all empty_tally rs).total ≡ length rs = omega (arith, a) in
    let errors : (tally_all empty_tally rs).error_count
        ≡ how_many (is_event (codes "CONNECTION_ERROR")) rs =
      omega (arith, b) in
    (
      omega (arith, a),
      omega (arith, b),
      omega (arith, c),
      omega (arith, d),
      omega (arith, e),
      omega (arith, f),
      omega (arith, g),
      p,
      q,
      rw (all, errors) refl,
    )

-- The addresses are listed by falling number, each with the number of records that name it, and the suspicious ones
-- with the number of the records that name them in one of the three events that count against an address.
pub analyze_ips :
    (rs : List LogRecord) (ip : Text)
    → (count_of ip (analyze rs).all_ips ≡ how_many (names_ip ip) rs)
      × (is_falling (analyze rs).all_ips ≡ true)
      × (count_of ip (analyze rs).suspicious_ips ≡ how_many (accuses ip) rs)
unfolding analyze analysis_of lookup
analyze_ips rs ip =
    let (a, b) = tally_ips empty_tally rs ip in
    let d = tally_distinct empty_tally rs (unfold distinct in refl) in
    (
      ground (arith, a, lookup-most_common ip (tally_all empty_tally rs).ip_count d),
      most_common-falling (tally_all empty_tally rs).ip_count,
      ground (arith, b),
    )
