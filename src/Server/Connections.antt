-- ===== src/Server/Connections.antt =====
-- `handle_new_connection` of src/tlsocket/server_side/server.py, from the accepted TLS client on: the lines of the
-- authentication one by one, the entry into the registry, and what the handlers of exceptions and the `finally`
-- do. Nothing of another connection runs in between here; Server/Logins is about that.
mod Authentication
unfoldable pub use Authentication.*
pub mod Blocked
pub mod Reservation
pub mod Releases
pub mod Exits
use tlsocket.Prelude.{
  ℕ, Bool, true, false, not, Option, none, some, List, [], ◌∷◌, ◌++◌, if◌then◌else◌, ◌==◌, text_eq,
  nat_eq, contains,
}
use tlsocket.Text.{
  Text, Unicode, codes, is_empty, starts_with, drop, strip, cut, normalise, decimal,
}
use tlsocket.Protocol
use tlsocket.Protocol.{
  already_logged_in, wrong_auth, invalid_format, invalid_command, rate_limit_exceeded,
  permission_denied, connection_limit_reached, ErrorCode, error, ok, newline,
}
use tlsocket.Security.RateLimiter.{allow}
use tlsocket.Security.BruteForce.{is_ip_blocked, get_remaining_ban_time}
use tlsocket.Auth.Bans.{get_banned_users}
use tlsocket.Auth.Accounts.{
  Hasher, LoginSession, LoginResult, refused, banned, raised, accepted, login, register,
  default_role,
}
use tlsocket.Server.Registry.{
  try_reserve_ip_slot, reserve_username, release_reservation, add, send, remove_client,
}
use tlsocket.Server.State.{Server}
use tlsocket.Server.Events.{event_of, log_event, log_test_event}
use tlsocket.Server.Cleanup.{chat, broadcast, clean_up_client, close}

-- the `finally`
unfoldable pub finally_release : Option Text → Server → Server
finally_release none s = s
finally_release (some name) s = record s { registry = release_reservation s.registry name }

-- the two handlers of exceptions, which do the same
unfoldable pub connection_error : ℕ → Text → Connection → Server
connection_error client trouble c = finally_release c.reserved (
    clean_up_client client (
      log_event
        (record (event_of (codes "CONNECTION_ERROR")) {
          username = codes "Unknown";
          ip = c.real_ip;
          extra_info = codes "error=" ++ trouble;
        })
        c.server))

abbrev pub welcome : LoginSession → Text
welcome session =
    codes "OK Connected as "
    ++ (session.username ++ (codes ", role: " ++ (session.role ++ newline)))

unfoldable pub enter_chat : ℕ → LoginSession → Connection → Server × Bool
enter_chat client session c =
    let r =
      add c.server.registry client (record { username = session.username; role = session.role }) in
    let (r', sent) = send r client (welcome session) in
    if sent
    then (
      broadcast (chat (session.username ++ codes " joined the chat!")) (some client)
          (record c.server { registry = r' }),
      true,
    )
    else (
      connection_error client (codes "Client disconnected during login")
          (record c { server = record c.server { registry = (remove_client r' client).0 } }),
      false,
    )

-- Whether a thread that handles messages was started.
unfoldable pub finish : ℕ → Connection × Next → Server × Bool
finish client (c, enter session) = enter_chat client session c
finish client (c, raises trouble) = (connection_error client trouble c, false)
finish client (c, _) = (finally_release c.reserved (clean_up_client client c.server), false)

unfoldable pub turn_away : ℕ → Text → Bool → Server → Server
turn_away client real_ip sends s = close client (
    log_event
      (record (event_of (codes "CONNECTION_LIMIT_REACHED")) { extra_info = codes "ip=" ++ real_ip })
      (if sends
        then record s { written = (client, error connection_limit_reached []) ∷ s.written }
        else s))

abbrev pub opened : Text → Server → Connection
opened real_ip s = record {
  server = log_event (record (event_of (codes "USER_CONNECTED")) { ip = real_ip }) s;
  real_ip = real_ip;
  ip = real_ip;
  reserved = none;
}

unfoldable pub handle_new_connection :
    Unicode → Hasher → ℕ → Text → Bool → List Input → Server → Server × Bool
handle_new_connection u h client real_ip sends inputs s =
    let (registry, room) = try_reserve_ip_slot s.registry client real_ip in
    let s' = record s { registry = registry } in
    if room
    then finish client (authenticate u h client inputs (opened real_ip s'))
    else (turn_away client real_ip sends s', false)
