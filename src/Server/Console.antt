-- ===== src/Server/Console.antt =====
-- `server_console_input` of src/tlsocket/server_side/server.py, line by line. An input of `none` is the end of the input
-- or the interrupt, which ends the loop; so does the KeyError of `set_role`, which nothing here catches. Left out are the exceptions
-- of an `.encode()` (a lone surrogate) and of the account and ban files, which nothing catches either.
pub mod Keeps
pub mod Effects
pub mod Roles
use tlsocket.Prelude.{
  ℕ, Bool, true, false, ◌&&◌, Option, none, some, List, [], ◌∷◌, ◌++◌, if◌then◌else◌, ◌==◌, text_eq,
  contains,
}
use tlsocket.Text.{Text, Unicode, codes, starts_with, drop, strip, words, normalise}
use tlsocket.Auth.Rbac
use tlsocket.Auth.Bans.{add_ban, remove_ban}
use tlsocket.Auth.Accounts.{set_user_role}
use tlsocket.Server.Registry.{send, set_role}
use tlsocket.Server.State.{Server}
use tlsocket.Server.Events.{log_event}
use tlsocket.Server.Cleanup.{chat, broadcast, kick_user}
use tlsocket.Server.Messages.{by, rule, unlocked, unlocked_admin}

-- what a line does: the state, what is printed, and whether the loop goes on
pub record Ran : Type 0 where
  pub server : Server
  pub printed : List Text
  pub on : Bool

abbrev pub ran : Server → List Text → Ran
ran s printed = record { server = s; printed = printed; on = true }

abbrev pub by_admin : Text
by_admin = codes "by=server_admin"

-- ok &= registry.send(...), one after another
unfoldable pub send_all : ℕ → List Text → Server → Server × Bool
send_all client [] s = (s, true)
send_all client (text ∷ texts) s =
    let (s', ok) =
      send_all client texts (record s { registry = (send s.registry client (chat text)).0 }) in
    (s', (send s.registry client (chat text)).1 && ok)

-- the lines for the user whose role was set
unfoldable pub role_lines : Text → List Text
role_lines new_role =
    rule
    ∷ (codes "[SYSTEM] Your role has been updated to '" ++ (new_role ++ codes "' by Server Admin!"))
    ∷ ((if contains (Rbac.moderator ∷ Rbac.admin ∷ []) new_role
          then rule ∷ (unlocked ++ (if new_role == Rbac.admin then unlocked_admin else []))
          else [])
        ++ rule ∷ [])

unfoldable pub tell_role : Text → Text → Option ℕ → Server → Server × List Text
tell_role name new_role none s = (s, [])
tell_role name new_role (some client) s =
    let (s', ok) = send_all client (role_lines new_role) s in
    (
      s',
      if ok
          then []
          else (codes "[SERVER CONSOLE] Error sending role update to '" ++ (name ++ codes "'"))
            ∷ [],
    )

-- the role is in the file; `none` of `set_role` is its KeyError
unfoldable pub console_role : Text → Text → Server → Ran
console_role name new_role s =
    let success =
      codes "[SERVER CONSOLE] Success: User '"
      ++ (name ++ (codes "' is now an '" ++ (new_role ++ codes "'!"))) in
    let told =
      broadcast (chat (name ++ (codes " is now an '" ++ (new_role ++ codes "!")))) none s in
    let logged = log_event (by (codes "SET") name (codes "new_role=" ++ new_role)) told in
    elim (set_role logged.registry name new_role) [
      | none ↦ record { server = logged; printed = success ∷ []; on = false }
      | some (r, sock) ↦
          ran (tell_role name new_role sock (record logged { registry = r })).0
            (success ∷ (tell_role name new_role sock (record logged { registry = r })).1)
    ]

unfoldable pub console_set : Unicode → List Text → Server → Ran
console_set u (first ∷ second ∷ rest) s =
    let name = normalise u first in
    let new_role = normalise u second in
    let (users, done) = set_user_role u name new_role s.users in
    if done
    then console_role name new_role (record s { users = users })
    else ran (record s { users = users })
        ((codes "[SERVER CONSOLE] Failed: User '" ++ (name ++ codes "' not found.")) ∷ [])
console_set u _ s =
    ran s (codes "[SERVER CONSOLE] Usage: /set <username> <role> (e.g. /set alice moderator)" ∷ [])

unfoldable pub console_kick : Text → Server → Ran
console_kick name s =
    let (s', kicked) = kick_user name s in
    if kicked
    then ran
        (log_event (by (codes "KICK") name by_admin)
          (broadcast (chat (name ++ codes " was kicked by server admin!")) none s'))
        ((name ++ codes " was kicked!") ∷ [])
    else ran s' []

unfoldable pub console_ban : Unicode → Text → Server → Ran
console_ban u name s =
    let listed = record s { bans = add_ban u name s.bans } in
    ran
      (log_event (by (codes "BAN") name by_admin) (
        broadcast (chat (name ++ codes " was banned by server admin!")) none
          (kick_user name listed).0))
      ((name ++ codes " was banned!") ∷ [])

unfoldable pub console_unban : Unicode → Text → Server → Ran
console_unban u name s =
    ran
      (log_event (by (codes "UNBAN") name by_admin) (
        broadcast (chat (name ++ codes " was unbanned by server admin!")) none
          (record s { bans = remove_ban u name s.bans })))
      ((name ++ codes " was unbanned!") ∷ [])

unfoldable pub console_line : Unicode → Text → Server → Ran
console_line u input s =
    let cmd = strip input in
    if starts_with (codes "/set ") cmd
    then console_set u (words (strip (drop 5 cmd))) s
    else if starts_with (codes "/kick ") cmd
    then console_kick (normalise u (drop 6 cmd)) s
    else if starts_with (codes "/ban ") cmd
    then console_ban u (normalise u (drop 5 cmd)) s
    else if starts_with (codes "/unban ") cmd
    then console_unban u (normalise u (drop 7 cmd)) s
    else ran s []

unfoldable pub server_console_input : Unicode → List (Option Text) → Server → Server
server_console_input u [] s = s
server_console_input u (none ∷ inputs) s = s
server_console_input u (some input ∷ inputs) s =
    let rest = server_console_input u inputs (console_line u input s).server in
    if (console_line u input s).on then rest else (console_line u input s).server
