-- ===== src/Server/Messages.antt =====
-- `handle_messages` of src/tlsocket/server_side/handlers/client_handler.py: the handling of one line, and the loop over
-- the lines that are read. The verdict says whether the loop goes on; an exception leaves it as a `break` does,
-- and the `finally` cleans up after either.
mod Moderation
unfoldable pub use Moderation.*
pub mod Kept
pub mod Keeps
pub mod Files
pub mod Rights
pub mod Ranks
pub mod Invariants
use tlsocket.Prelude.{
  ℕ, ◌+◌, Bool, true, false, ◌||◌, not, Option, none, some, List, [], ◌∷◌, ◌++◌, if◌then◌else◌, ltb,
  length, ◌==◌, text_eq, nat_eq, contains,
}
use tlsocket.Text.{Text, Unicode, codes, is_empty, starts_with, drop, normalise, strip, split_first}
use tlsocket.Protocol.{
  ErrorCode, message_too_long, not_authenticated, permission_denied, invalid_format, invalid_role,
  rate_limit_exceeded, error, error_value, newline,
}
use tlsocket.Security.Validation.{ok_text, parse_and_validate_command, validate_message}
use tlsocket.Security.RateLimiter.{allow}
use tlsocket.Auth.Rbac
use tlsocket.Auth.Rbac.{Permission, has_permission, can_act_on}
use tlsocket.Auth.Bans.{add_ban, remove_ban}
use tlsocket.Auth.Accounts.{set_user_role}
use tlsocket.Server.Registry.{Session, get_session, set_role}
use tlsocket.Server.State.{Server}
use tlsocket.Server.Events.{Event, event_of, log_event}
use tlsocket.Server.Cleanup.{
  chat, broadcast, clean_up_client, send_to, target_role, kick_user, ban_user,
}

abbrev pub rule : Text
rule = codes "--------------------------------------------------"

abbrev pub unlocked : List Text
unlocked =
    codes "[SYSTEM] New commands unlocked:"
    ∷ codes "- Type '/kick' <user_name> to kick a user out of the chat room"
    ∷ codes "- Type '/ban' <user_name> to ban a user from the chat room"
    ∷ codes "- Type '/unban' <user_name> to unban a user"
    ∷ []

abbrev pub unlocked_admin : List Text
unlocked_admin = codes "- Type '/set' <username> <role> to set a new role for a user" ∷ []

unfoldable pub send_lines : ℕ → List Text → Server → Server
send_lines client [] s = s
send_lines client (text ∷ texts) s = send_lines client texts (send_to client (chat text) s)

-- the lines for the user whose role was raised
unfoldable pub tell_commands : Text → Option ℕ → Server → Server
tell_commands new_role none s = s
tell_commands new_role (some target) s =
    if contains (Rbac.moderator ∷ Rbac.admin ∷ []) new_role
    then send_lines target
        ((rule ∷ [])
          ++ (unlocked ++ ((if new_role == Rbac.admin then unlocked_admin else []) ++ (rule ∷ []))))
        s
    else s

unfoldable pub set_allowed : Session → Text → Text → Server → Outcome
set_allowed session target new_role s =
    let told =
      broadcast
        (chat (
          target
          ++ (codes " role has been changed to "
              ++ (new_role ++ (codes " by " ++ session.username)))))
        none s in
    elim (set_role told.registry target new_role) [
      | none ↦ (told, false)
      | some (r, sock) ↦ (
        log_event
            (by (codes "SET_ROLE") target
              (codes "by=" ++ (session.username ++ (codes " new_role=" ++ new_role))))
            (tell_commands new_role sock (record told { registry = r })),
        true,
      )
    ]

unfoldable pub set_invalid : ℕ → Session → Text → Server → Server
set_invalid client session new_role s =
    log_event (invalid session (codes "cmd=SET_INVALID_ROLE new_role=" ++ new_role)) (
      send_to client (error invalid_role (codes "Role '" ++ (new_role ++ codes "' is invalid."))) s)

unfoldable pub set_parts : Unicode → ℕ → Session → List Text → Server → Outcome
set_parts u client session (first ∷ second ∷ []) s =
    let target = normalise u first in
    let new_role = normalise u second in
    let (users, done) = set_user_role u target new_role s.users in
    if done
    then set_allowed session target new_role (record s { users = users })
    else (set_invalid client session new_role s, true)
set_parts u client session _ s =
    (send_to client (error invalid_format (codes "Usage: SET <username> <role>")) s, true)

unfoldable pub handle_set : Unicode → ℕ → Session → Text → Server → Outcome
handle_set u client session line s =
    if not (has_permission session.role Rbac.set)
    then (deny_permission client session (codes "SET") s, true)
    else set_parts u client session (split_first (strip (drop 4 line))) s

unfoldable pub handle_command : Unicode → ℕ → Session → Text → Server → Outcome
handle_command u client session line s =
    let (cmd, args, err) = parse_and_validate_command u line in
    if not (err == ok_text)
    then (
      log_event (invalid session (codes "cmd=" ++ (cmd ++ (codes " " ++ err))))
          (send_to client (codes "ERR " ++ (err ++ newline)) s),
      true,
    )
    else if starts_with (codes "KICK ") line
    then handle_kick u client session line s
    else if starts_with (codes "BAN ") line
    then handle_ban u client session line s
    else if starts_with (codes "UNBAN ") line
    then handle_unban u client session line s
    else handle_set u client session line s

unfoldable pub relay : ℕ → Session → Text → Server → Server
relay client session content s =
    let counted = record s {
      metrics = record s.metrics { messages_total = s.metrics.messages_total + 1 };
    } in
    broadcast (chat (session.username ++ (codes ": " ++ content))) (some client) counted

unfoldable pub handle_chat : ℕ → Session → Text → Server → Server
handle_chat client session line s =
    let (limiter, allowed) = allow s.message_limiter client s.ticks in
    let limited = record s { message_limiter = limiter } in
    let content = drop 4 line in
    let (valid, err) = validate_message content in
    if not allowed
    then log_event
        (record (event_of (codes "RATE_LIMIT_EXCEEDED")) {
          username = session.username;
          extra_info = codes "reason=MESSAGE_FLOOD";
        })
        (send_to client (error rate_limit_exceeded (codes "Typing too fast. Try again later!"))
          limited)
    else if not valid
    then log_event
        (record (event_of (codes "INVALID_MESSAGE")) {
          username = session.username;
          extra_info = codes "msg=" ++ (content ++ (codes " " ++ err));
        })
        (send_to client (codes "ERR " ++ (err ++ newline)) limited)
    else relay client session content limited

abbrev pub is_command : Text → Bool
is_command line =
    starts_with (codes "KICK ") line
    || starts_with (codes "BAN ") line
    || starts_with (codes "UNBAN ") line
    || starts_with (codes "SET ") line

unfoldable pub handle_session : Unicode → ℕ → Session → Text → Server → Outcome
handle_session u client session line s =
    if is_command line
    then handle_command u client session line s
    else if starts_with (codes "MSG ") line
    then (handle_chat client session line s, true)
    else (s, true)

unfoldable pub handle_line : Unicode → ℕ → Text → Server → Outcome
handle_line u client line s =
    if ltb 2000 (length line)
    then (send_to client (error message_too_long []) s, true)
    else elim (get_session s.registry client) [
      | none ↦ (record s { written = (client, error not_authenticated []) ∷ s.written }, false)
      | some session ↦ handle_session u client session line s
    ]

-- What `read_line` returns, with what the wall clock and the monotonic clock show then.
abbrev pub Heard : Type 0
Heard = (ℕ × ℕ) × Option Text

abbrev pub clocked : ℕ × ℕ → Server → Server
clocked (clock, ticks) s = record s { clock = clock; ticks = ticks }

-- the loop
unfoldable pub handle_lines : Unicode → ℕ → List Heard → Server → Server
handle_lines u client [] s = s
handle_lines u client ((now, none) ∷ lines) s = clocked now s
handle_lines u client ((now, some line) ∷ lines) s =
    let (s', on) = handle_line u client line (clocked now s) in
    let rest = handle_lines u client lines s' in if on then rest else s'

unfoldable pub handle_messages : Unicode → ℕ → List Heard → Server → Server
handle_messages u client lines s = clean_up_client client (handle_lines u client lines s)
