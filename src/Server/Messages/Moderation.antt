-- ===== src/Server/Messages/Moderation.antt =====
-- KICK, BAN and UNBAN of `handle_messages` of src/tlsocket/server_side/handlers/client_handler.py.
use tlsocket.Prelude.{
  ℕ, Bool, true, false, not, Option, none, some, ◌++◌, if◌then◌else◌, text_eq, nat_eq,
}
use tlsocket.Text.{Text, Unicode, codes, is_empty, drop, normalise}
use tlsocket.Protocol.{permission_denied, error_value}
use tlsocket.Auth.Rbac
use tlsocket.Auth.Rbac.{Permission, has_permission, can_act_on}
use tlsocket.Auth.Bans.{add_ban, remove_ban}
use tlsocket.Server.Registry.{Session}
use tlsocket.Server.State.{Server}
use tlsocket.Server.Events.{Event, event_of, log_event}
use tlsocket.Server.Cleanup.{chat, broadcast, send_to, target_role, kick_user, ban_user}

abbrev pub Outcome : Type 0
Outcome = Server × Bool

abbrev pub invalid : Session → Text → Event
invalid session info = record (event_of (codes "INVALID_COMMAND")) {
  username = session.username;
  extra_info = info;
}

abbrev pub by : Text → Text → Text → Event
by event target info = record (event_of event) { username = target; extra_info = info }

-- the sender has not the permission of the command, or not the rank
unfoldable pub deny_permission : ℕ → Session → Text → Server → Server
deny_permission client session command s =
    log_event (invalid session (codes "cmd=" ++ (command ++ codes "_PERMISSION_DENIED"))) (
      send_to client
        (chat (
          error_value permission_denied
          ++ (codes ": You do not have " ++ (command ++ codes " permission."))))
        s)

unfoldable pub deny_rank : ℕ → Session → Text → Text → Server → Server
deny_rank client session command target s =
    log_event
      (invalid session (codes "cmd=" ++ (command ++ (codes "_RANK_DENIED target=" ++ target))))
      (send_to client
        (chat (
          error_value permission_denied
          ++ (codes ": cannot " ++ (command ++ codes " a user with an equal or higher role."))))
        s)

-- target_role is not None and not can_act_on(user_role, target_role)
unfoldable pub outranked : Text → Option Text → Bool
outranked role none = false
outranked role (some target) = not (can_act_on role target)

-- what the three commands do once they are allowed
unfoldable pub kick_allowed : Session → Text → Server → Server
kick_allowed session name s =
    let (s', kicked) = kick_user name s in
    if kicked
    then log_event (by (codes "KICK") name (codes "by=" ++ session.username)) (
        broadcast (chat (name ++ (codes " was kicked by " ++ (session.username ++ codes "!")))) none
          s')
    else s'

unfoldable pub ban_allowed : Unicode → Session → Text → Server → Server
ban_allowed u session name s =
    let listed = record s { bans = add_ban u name s.bans } in
    log_event (by (codes "BAN") name (codes "by=" ++ session.username)) (
      broadcast (chat (name ++ (codes " was banned by " ++ (session.username ++ codes "!")))) none
        (ban_user name listed).0)

unfoldable pub unban_allowed : Unicode → Session → Text → Server → Server
unban_allowed u session name s =
    log_event (by (codes "UNBAN") name (codes "by=" ++ session.username)) (
      broadcast (chat (name ++ (codes " was unbanned by " ++ (session.username ++ codes "!")))) none
        (record s { bans = remove_ban u name s.bans }))

-- the test of the rank, around an action; `none` is the KeyError of `_target_role`
unfoldable pub ranked :
    ℕ → Session → Text → Text → Option (Option Text) → (Server → Server) → Server → Outcome
ranked client session command name none action s = (s, false)
ranked client session command name (some target) action s =
    if outranked session.role target
    then (deny_rank client session command name s, true)
    else (action s, true)

unfoldable pub handle_kick : Unicode → ℕ → Session → Text → Server → Outcome
handle_kick u client session line s =
    let name = normalise u (drop 5 line) in
    if not (has_permission session.role Rbac.kick)
    then (deny_permission client session (codes "KICK") s, true)
    else if is_empty name
    then (s, true)
    else ranked client session (codes "KICK") name (target_role u name s)
        (kick_allowed session name) s

unfoldable pub handle_ban : Unicode → ℕ → Session → Text → Server → Outcome
handle_ban u client session line s =
    let name = normalise u (drop 4 line) in
    if not (has_permission session.role Rbac.ban)
    then (deny_permission client session (codes "BAN") s, true)
    else if is_empty name
    then (s, true)
    else ranked client session (codes "BAN") name (target_role u name s)
        (ban_allowed u session name) s

unfoldable pub handle_unban : Unicode → ℕ → Session → Text → Server → Outcome
handle_unban u client session line s =
    let name = normalise u (drop 6 line) in
    if not (has_permission session.role Rbac.unban)
    then (deny_permission client session (codes "UNBAN") s, true)
    else ranked client session (codes "UNBAN") name (target_role u name s)
        (unban_allowed u session name) s
