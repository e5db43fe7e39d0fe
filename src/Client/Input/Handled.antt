-- ===== src/Client/Input/Handled.antt =====
-- A command that is typed at the client, through to what `handle_messages` of
-- src/tlsocket/server_side/handlers/client_handler.py does with its line.
use tlsocket.Prelude.{ℕ, true, not, text_eq, nat_eq, if◌then◌else◌}
use tlsocket.Text.{Text, Unicode, codes}
use tlsocket.Auth.Rbac
use tlsocket.Auth.Rbac.{Permission, has_permission}
use tlsocket.Server.Registry.{Session}
use tlsocket.Server.State.{Server}
use tlsocket.Server.Cleanup.{target_role}
use tlsocket.Server.Messages.{
  Outcome, deny_permission, ranked, kick_allowed, ban_allowed, unban_allowed,
}
use tlsocket.Client.Input.Commands.{Action, kicks, bans, unbans}

-- the permission that an action needs, its word in the lines to the sender, and what it does to the name
abbrev pub needed : Action → Permission
needed kicks = Rbac.kick
needed bans = Rbac.ban
needed unbans = Rbac.unban

abbrev pub shown : Action → Text
shown kicks = codes "KICK"
shown bans = codes "BAN"
shown unbans = codes "UNBAN"

abbrev pub allowed : Unicode → Session → Action → Text → Server → Server
allowed u session kicks name = kick_allowed session name
allowed u session bans name = ban_allowed u session name
allowed u session unbans name = unban_allowed u session name

-- An action on a name: the right to it first, then the ranks.
abbrev pub acts_on : Unicode → ℕ → Session → Action → Text → Server → Outcome
acts_on u client session a name s =
    if not (has_permission session.role (needed a))
    then (deny_permission client session (shown a) s, true)
    else ranked client session (shown a) name (target_role u name s) (allowed u session a name) s
