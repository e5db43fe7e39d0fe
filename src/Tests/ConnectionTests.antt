-- ===== src/Tests/ConnectionTests.antt =====
-- The handling of a new connection.
use tlsocket.Prelude.{
  ◌≡◌, true, false, refl, Option, none, some, List, [], ◌∷◌, contains, text_eq, nat_eq, text_beq,
  ◌==◌,
}
use tlsocket.Dict.{lookup, insert}
use tlsocket.Text.{
  Text, codes, starts_with, cut, is_empty, normalise, strip, lstrip, rstrip, is_space, ascii_lower,
}
use tlsocket.Security.BruteForce
use tlsocket.Security.BruteForce.{
  is_ip_blocked, block, load_state, process_record, is_ignored, multiplier,
}
use tlsocket.Security.BruteForce.Blocking.{blocked-block}
use tlsocket.Auth.Accounts.{login, load_users}
use tlsocket.Server.Registry.{init, try_reserve_ip_slot, reserve_username}
use tlsocket.Server.State.{Server}
use tlsocket.Server.Events.{fed_record, log_event, count, feed_detector, route, emit}
use tlsocket.Server.Connections.{
  Connection, Input, leave, authenticate_line, handle_new_connection, finish, authenticate,
  one_line, credential_line, admitted_line, login_line, arguments, handle_login, login_reserved,
  after_login, refuse_login, say,
}
use tlsocket.Server.Connections.Blocked.{blocked_line}
use tlsocket.Server.Connections.Releases.{handle_new_connection_releases}
use tlsocket.Server.Connections.Exits.{handle_new_connection_exits}
use tlsocket.Tests.Fixtures.{ascii_unicode, plain_hasher, bob, server_of}

abbrev address : Text
address = codes "10.0.0.7"

abbrev idle : Server
idle = server_of (init 5 100) (BruteForce.init 5 60 10 none)

abbrev line_of : Option Text → Input
line_of line = record {
  line = line;
  clock = 1;
  ticks = 1;
  salt = 3;
  sends = true;
  trouble = codes "broken pipe";
}

abbrev log_in : Text
log_in = codes "LOGIN bob secret"

abbrev inputs : List Input
inputs = line_of (some log_in) ∷ line_of none ∷ []

handle_new_connection_releases_example :
    contains
      (handle_new_connection ascii_unicode plain_hasher 1 address true inputs
        idle).0.registry.pending_logins
      bob
    ≡ contains idle.registry.pending_logins bob
handle_new_connection_releases_example =
    handle_new_connection_releases ascii_unicode plain_hasher 1 address true inputs idle bob

not_started :
    (handle_new_connection ascii_unicode plain_hasher 1 address true inputs idle).1 ≡ false
unfolding handle_new_connection finish authenticate one_line authenticate_line credential_line
    admitted_line login_line arguments handle_login login_reserved after_login refuse_login say
    try_reserve_ip_slot reserve_username login load_users lookup insert contains codes text_beq
    starts_with cut is_empty is_ip_blocked normalise strip lstrip rstrip is_space ascii_lower
    log_event count feed_detector process_record is_ignored route emit BruteForce.init load_state
    fed_record
not_started = refl

handle_new_connection_exits_example :
    (lookup 1
        (handle_new_connection ascii_unicode plain_hasher 1 address true inputs
          idle).0.registry.sessions
      ≡ none)
    × (lookup 1
          (handle_new_connection ascii_unicode plain_hasher 1 address true inputs
            idle).0.registry.client_ips
        ≡ none)
handle_new_connection_exits_example =
    handle_new_connection_exits ascii_unicode plain_hasher 1 address true inputs idle
      (unfold lookup in refl) (unfold lookup in refl) not_started

-- the address has just been blocked
abbrev blocked : Connection
blocked = record {
  server = server_of (init 5 100) (block (BruteForce.init 5 60 10 none) address 0 5);
  real_ip = address;
  ip = address;
  reserved = none;
}

is_blocked : (is_ip_blocked blocked.server.detector address 0).1 ≡ true
unfolding BruteForce.init load_state multiplier lookup
is_blocked = blocked-block (BruteForce.init 5 60 10 none) address 0 5 0

not_ping : (log_in == codes "PING") ≡ false
unfolding codes text_beq
not_ping = refl

no_client_ip : starts_with (codes "CLIENT_IP ") log_in ≡ false
unfolding codes starts_with
no_client_ip = refl

abbrev answered : Connection
answered = (authenticate_line ascii_unicode plain_hasher 1 (line_of none) log_in blocked).0

blocked_line_example :
    ((authenticate_line ascii_unicode plain_hasher 1 (line_of none) log_in blocked).1 ≡ leave)
    × (answered.server.registry ≡ blocked.server.registry)
    × (answered.server.users ≡ blocked.server.users)
    × (answered.server.bans ≡ blocked.server.bans)
blocked_line_example =
    blocked_line ascii_unicode plain_hasher 1 (line_of none) log_in blocked is_blocked not_ping
      no_client_ip
