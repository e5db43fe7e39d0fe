-- ===== src/Server/Console/Effects.antt =====
-- What the commands of the console bring about.
use tlsocket.Prelude.{
  true, false, ◌≡◌, refl, none, ◌++◌, text_eq, nat_eq, arith, if◌then◌else◌, every, ◌==◌,
}
use tlsocket.Dict.{lookup}
use tlsocket.Text.{Text, Unicode, codes, is_empty, strip, normalise, not_break}
use tlsocket.Text.Strip.{normalise_idem, every-strip}
use tlsocket.Auth.Bans.{add_ban}
use tlsocket.Auth.Bans.Membership.{is_banned, is_banned-add_ban}
use tlsocket.Server.Registry.Names.{IsConsistent}
use tlsocket.Server.State.{Server}
use tlsocket.Server.Events.{log_event}
use tlsocket.Server.Cleanup.{chat, broadcast, kick_user}
use tlsocket.Server.Cleanup.Terminates.{registry-log_event}
use tlsocket.Server.Cleanup.Keeps.{broadcast-keeps}
use tlsocket.Server.Cleanup.Effects.{IsFree, IsFree-IsKept, disconnect_frees}
use tlsocket.Server.Messages.{by}
use tlsocket.Server.Messages.Files.{log_event-HasFiles, broadcast-HasFiles, disconnect-HasFiles}
use tlsocket.Server.Console.{by_admin, console_ban}

-- A ban of a name that is neither blank nor broken into lines puts the name on the list, keeps the names that were on
-- it, adds no other, and leaves nobody online under it.
pub console_ban_bans :
    (u : Unicode) (name other : Text) (s : Server)
    → IsConsistent s.registry
    → every not_break name ≡ true
    → is_empty (normalise u name) ≡ false
    → (is_banned u (console_ban u (normalise u name) s).server.bans other
        ≡ (if normalise u name == other then true else is_banned u s.bans other))
      × (lookup (normalise u name) (console_ban u (normalise u name) s).server.registry.by_name
          ≡ none)
unfolding console_ban kick_user
console_ban_bans u name other s h line full =
    let n = normalise u name in
    let listed = record s { bans = add_ban u n s.bans } in
    let gone = (kick_user n listed).0 in
    let m = chat (n ++ codes " was banned by server admin!") in
    let told = broadcast m none gone in
    let e = by (codes "BAN") n by_admin in
    let bans =
      disconnect-HasFiles listed.bans listed.users (codes "You were kicked!") n listed
        (refl, refl) in
    let bans' = broadcast-HasFiles listed.bans listed.users m none gone bans in
    let bans'' = log_event-HasFiles listed.bans listed.users e told bans' in
    let free = (disconnect_frees (codes "You were kicked!") n listed h).1 in
    let free' : IsFree n told.registry =
      broadcast-keeps (IsFree n) (IsFree-IsKept n) m none gone free in
    let line' : every not_break n ≡ true =
      unfold normalise in u.lower_line (strip name) (every-strip not_break name line) in
    let same : (log_event e told).bans ≡ add_ban u n s.bans = bans''.0 in
    (
      rw same
          (ground (arith, is_banned-add_ban u n line' s.bans other, normalise_idem u name, full)),
      rw (registry-log_event e told) free',
    )
