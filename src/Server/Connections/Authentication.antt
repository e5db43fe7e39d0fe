-- ===== src/Server/Connections/Authentication.antt =====
-- The authentication of `handle_new_connection` of src/tlsocket/server_side/server.py, line by line.
use tlsocket.Prelude.{
  ℕ, Bool, true, false, Option, none, some, List, [], ◌∷◌, ◌++◌, if◌then◌else◌, ◌==◌, text_eq,
  nat_eq, contains,
}
use tlsocket.Text.{
  Text, Unicode, codes, is_empty, starts_with, drop, strip, cut, normalise, decimal,
}
use tlsocket.Protocol
use tlsocket.Protocol.{
  already_logged_in, wrong_auth, invalid_format, invalid_command, rate_limit_exceeded,
  permission_denied, connection_limit_reached, ErrorCode, error, ok, newline,
}
use tlsocket.Security.RateLimiter.{allow}
use tlsocket.Security.BruteForce.{is_ip_blocked, get_remaining_ban_time}
use tlsocket.Auth.Bans.{get_banned_users}
use tlsocket.Auth.Accounts.{
  Hasher, LoginSession, LoginResult, refused, banned, raised, accepted, login, register,
  default_role,
}
use tlsocket.Server.Registry.{reserve_username, release_reservation}
use tlsocket.Server.State.{Server}
use tlsocket.Server.Events.{event_of, log_event, log_test_event}

abbrev pub test_mode : Bool
test_mode = false

-- The variables of the handler: `reserved` is `reserved_username`.
pub record Connection : Type 0 where
  pub server : Server
  pub real_ip : Text
  pub ip : Text
  pub reserved : Option Text

-- What `read_line` gives, the two clocks, the salt of a new hash, whether a `sendall` goes well, and the text
-- of the exception if one is raised.
pub record Input : Type 0 where
  pub line : Option Text
  pub clock : ℕ
  pub ticks : ℕ
  pub salt : ℕ
  pub sends : Bool
  pub trouble : Text

pub data Next : Type 0 where
  again leave : Next
  enter : LoginSession → Next
  raises : Text → Next

abbrev pub at_time : Input → Connection → Connection
at_time i c = record c { server = record c.server { clock = i.clock; ticks = i.ticks } }

abbrev pub told : ℕ → Text → Connection → Connection
told client text c = record c {
  server = record c.server { written = (client, text) ∷ c.server.written };
}

-- client.sendall, and what comes after it
unfoldable pub say :
    ℕ → Input → Text → (Connection → Connection) → Next → Connection → Connection × Next
say client i text after next c =
    if i.sends then (after (told client text c), next) else (c, raises i.trouble)

unfoldable pub log : Text → Text → Text → Connection → Connection
log event username info c = record c {
  server =
      log_event (record (event_of event) { username = username; ip = c.ip; extra_info = info })
        c.server;
}

unfoldable pub release : Text → Connection → Connection
release name c = record c {
  server = record c.server { registry = release_reservation c.server.registry name };
  reserved = none;
}

unfoldable pub refuse_login : ℕ → Input → Text → ErrorCode → Text → Connection → Connection × Next
refuse_login client i name code info c =
    say client i (error code []) (log (codes "LOGIN_FAILED") name info) again (release name c)

unfoldable pub after_login :
    Unicode → ℕ → Input → Text → LoginResult → Connection → Connection × Next
after_login u client i name (accepted session) c =
    if contains (get_banned_users u c.server.bans) name
    then refuse_login client i name Protocol.banned (codes "reason=BANNED") c
    else (log (codes "LOGIN_SUCCESS") name [] c, enter session)
after_login u client i name banned c =
    refuse_login client i name Protocol.banned (codes "reason=BANNED") c
after_login u client i name refused c = refuse_login client i name wrong_auth [] c
after_login u client i name raised c = (c, raises i.trouble)

-- a name that is online or pending
unfoldable pub clear_reserved : Connection → Connection
clear_reserved c = record c { reserved = none }

unfoldable pub login_reserved :
    Unicode → Hasher → ℕ → Input → Text → Text → Connection → Connection × Next
login_reserved u h client i name password c =
    let (users, result) = login u h i.salt name password c.server.users c.server.bans in
    after_login u client i name result (record c { server = record c.server { users = users } })

unfoldable pub handle_login :
    Unicode → Hasher → ℕ → Input → Text → Text → Connection → Connection × Next
handle_login u h client i username password c =
    let name = normalise u username in
    let (registry, free) = reserve_username c.server.registry name in
    if free
    then login_reserved u h client i name password
        (record c { server = record c.server { registry = registry }; reserved = some name })
    else say client i (error already_logged_in [])
        (λ d. clear_reserved (log (codes "LOGIN_FAILED") name (codes "reason=ALREADY_LOGGED_IN") d))
        again c

unfoldable pub handle_register :
    Unicode → Hasher → ℕ → Input → Text → Text → Connection → Connection × Next
handle_register u h client i username password c =
    let (users, success, msg) = register u h i.salt username password default_role c.server.users in
    let stored = record c { server = record c.server { users = users } } in
    if success
    then say client i (ok msg) (log (codes "REGISTER_SUCCESS") username []) again stored
    else say client i (codes "ERR " ++ (msg ++ newline))
        (log (codes "REGISTER_FAILED") username (codes "reason=" ++ msg)) again stored

-- The second and the third of the parts of line.split(" ", 2), if there are three.
unfoldable pub arguments : Text → Option (Text × Text)
arguments line = elim (cut b' ' line).1 [
  | none ↦ none
  | some rest ↦ elim (cut b' ' rest).1 [
    | none ↦ none
    | some third ↦ some ((cut b' ' rest).0, third)
  ]
]

unfoldable pub login_line : Unicode → Hasher → ℕ → Input → Text → Connection → Connection × Next
login_line u h client i line c = elim (arguments line) [
  | none ↦ say client i (error invalid_format []) (λ d. d) again c
  | some (username, password) ↦ handle_login u h client i username password c
]

unfoldable pub register_parts : Unicode → Hasher → ℕ → Input → Text → Connection → Connection × Next
register_parts u h client i line c = elim (arguments line) [
  | none ↦
      say client i (error invalid_format [])
        (log (codes "REGISTER_FAILED") (codes "Unknown") (codes "reason=INVALID_FORMAT")) again c
  | some (username, password) ↦ handle_register u h client i username password c
]

unfoldable pub register_line : Unicode → Hasher → ℕ → Input → Text → Connection → Connection × Next
register_line u h client i line c =
    let (limiter, allowed) = allow c.server.register_limiter c.ip c.server.ticks in
    let limited = record c { server = record c.server { register_limiter = limiter } } in
    if allowed
    then register_parts u h client i line limited
    else say client i
        (error rate_limit_exceeded (codes "Too many registration attempts. Try again later!"))
        (log (codes "RATE_LIMIT_EXCEEDED") (codes "Unknown") (codes "reason=REGISTER_FLOOD")) again
        limited

unfoldable pub override_ip : Text → Connection → Connection
override_ip line c =
    let ip = strip (drop 10 line) in
    record c {
      ip = ip;
      server =
          log_test_event
            (record (event_of (codes "USER_CONNECTED")) {
              ip = ip;
              extra_info = codes "real_ip=" ++ c.real_ip;
            })
            c.server;
    }

unfoldable pub refuse_blocked : ℕ → Input → Connection → Connection × Next
refuse_blocked client i c =
    let (detector, left) =
      get_remaining_ban_time c.server.detector c.ip c.server.clock c.server.clock in
    say client i
      (error rate_limit_exceeded (
        codes "Blocked due to brute-force attempts. Try again in " ++ (decimal left ++ codes "s.")))
      (log (codes "RATE_LIMIT_EXCEEDED") (codes "Unknown")
        (codes "reason=BRUTE_FORCE_DETECTION remaining_sec=" ++ decimal left))
      leave (record c { server = record c.server { detector = detector } })

-- a line of an address that is not blocked
unfoldable pub admitted_line : Unicode → Hasher → ℕ → Input → Text → Connection → Connection × Next
admitted_line u h client i line c =
    if starts_with (codes "LOGIN ") line
    then login_line u h client i line c
    else if starts_with (codes "REGISTER ") line
    then register_line u h client i line c
    else say client i (error invalid_command [])
        (log (codes "INVALID_COMMAND") (codes "Unknown") (codes "reason=INVALID_COMMAND")) again c

unfoldable pub credential_line :
    Unicode → Hasher → ℕ → Input → Text → Connection → Connection × Next
credential_line u h client i line c =
    let (detector, blocked) = is_ip_blocked c.server.detector c.ip c.server.clock in
    let looked = record c { server = record c.server { detector = detector } } in
    if blocked then refuse_blocked client i looked else admitted_line u h client i line looked

unfoldable pub authenticate_line :
    Unicode → Hasher → ℕ → Input → Text → Connection → Connection × Next
authenticate_line u h client i line c =
    if line == codes "PING"
    then say client i (codes "PONG" ++ newline) (λ d. d) again c
    else if starts_with (codes "CLIENT_IP ") line
    then (if test_mode
        then (override_ip line c, again)
        else say client i (error permission_denied []) (λ d. d) again c)
    else credential_line u h client i line c

-- `if not line: break`
unfoldable pub one_line : Unicode → Hasher → ℕ → Input → Connection → Connection × Next
one_line u h client i c = elim i.line [
  | none ↦ (c, leave)
  | some line ↦ if is_empty line then (c, leave) else authenticate_line u h client i line c
]

abbrev pub goes_on : Next → Bool
goes_on again = true
goes_on _ = false

-- the loop; after the inputs nothing more can be read
unfoldable pub authenticate : Unicode → Hasher → ℕ → List Input → Connection → Connection × Next
authenticate u h client [] c = (c, leave)
authenticate u h client (i ∷ inputs) c =
    let step = one_line u h client i (at_time i c) in
    let rest = authenticate u h client inputs step.0 in if goes_on step.1 then rest else step
