-- ===== src/Server/Messages/Kept.antt =====
-- KICK, BAN and UNBAN keep a property of the registry.
use tlsocket.Prelude.{ℕ, not, ◌≡◌, Option, none, some, if_both, nat_eq, text_eq}
use tlsocket.Text.{Text, Unicode, codes, is_empty, drop, normalise}
use tlsocket.Auth.Rbac
use tlsocket.Auth.Rbac.{has_permission}
use tlsocket.Auth.Bans.{add_ban}
use tlsocket.Server.Registry.{ClientRegistry, Session, set_role}
use tlsocket.Server.State.{Server}
use tlsocket.Server.Events.{Event, log_event}
use tlsocket.Server.Cleanup.{broadcast, send_to, target_role, kick_user, ban_user}
use tlsocket.Server.Cleanup.Terminates.{registry-log_event}
use tlsocket.Server.Cleanup.Keeps.{IsKept, broadcast-keeps, disconnect-keeps}
use tlsocket.Server.Messages.{
  Outcome, deny_permission, deny_rank, outranked, kick_allowed, ban_allowed, unban_allowed, ranked,
  handle_kick, handle_ban, handle_unban,
}

pub record IsKeptByAll (P : ClientRegistry → Type 0) : Type 0 where
  pub cleaning : IsKept P
  pub on_set_role :
      (r r' : ClientRegistry) (n role : Text) (o : Option ℕ)
      → set_role r n role ≡ some (r', o)
      → P r
      → P r'

module _ (P : ClientRegistry → Type 0) (k : IsKeptByAll P) where
  abbrev pub Holds : Server → Type 0
  Holds s = P s.registry

  abbrev pub HoldsOf : Outcome → Type 0
  HoldsOf o = P o.0.registry

  pub logged : (e : Event) (s : Server) → Holds s → Holds (log_event e s)
  logged e s h = rw (registry-log_event e s) h

  pub sent : (c : ℕ) (m : Text) (s : Server) → Holds s → Holds (send_to c m s)
  unfolding send_to
  sent c m s h = k.cleaning.on_send s.registry c m h

  pub to_all : (m : Text) (o : Option ℕ) (s : Server) → Holds s → Holds (broadcast m o s)
  to_all = broadcast-keeps P k.cleaning

  pub deny_permission-keeps :
      (c : ℕ) (session : Session) (command : Text) (s : Server)
      → Holds s
      → Holds (deny_permission c session command s)
  unfolding deny_permission
  deny_permission-keeps c session command s h = logged _ _ (sent c _ s h)

  pub deny_rank-keeps :
      (c : ℕ) (session : Session) (command target : Text) (s : Server)
      → Holds s
      → Holds (deny_rank c session command target s)
  unfolding deny_rank
  deny_rank-keeps c session command target s h = logged _ _ (sent c _ s h)

  pub kick_allowed-keeps :
      (session : Session) (name : Text) (s : Server) → Holds s → Holds (kick_allowed session name s)
  unfolding kick_allowed kick_user
  kick_allowed-keeps session name s h =
      let gone = disconnect-keeps P k.cleaning (codes "You were kicked!") name s h in
      if_both Holds (kick_user name s).1 (logged _ _ (to_all _ none _ gone)) gone

  pub ban_allowed-keeps :
      (u : Unicode) (session : Session) (name : Text) (s : Server)
      → Holds s
      → Holds (ban_allowed u session name s)
  unfolding ban_allowed ban_user
  ban_allowed-keeps u session name s h = logged _ _ (
      to_all _ none _ (
        disconnect-keeps P k.cleaning (codes "You were banned!") name
          (record s { bans = add_ban u name s.bans }) h))

  pub unban_allowed-keeps :
      (u : Unicode) (session : Session) (name : Text) (s : Server)
      → Holds s
      → Holds (unban_allowed u session name s)
  unfolding unban_allowed
  unban_allowed-keeps u session name s h = logged _ _ (to_all _ none _ h)

  pub ranked-keeps :
      (c : ℕ) (session : Session) (command name : Text) (o : Option (Option Text))
      (action : Server → Server) (s : Server)
      → Holds (action s)
      → Holds s
      → HoldsOf (ranked c session command name o action s)
  unfolding ranked
  ranked-keeps c session command name none action s ha h = h
  ranked-keeps c session command name (some target) action s ha h =
      if_both HoldsOf (outranked session.role target) (deny_rank-keeps c session command name s h)
        ha

  pub handle_kick-keeps :
      (u : Unicode) (c : ℕ) (session : Session) (line : Text) (s : Server)
      → Holds s
      → HoldsOf (handle_kick u c session line s)
  unfolding handle_kick
  handle_kick-keeps u c session line s h =
      let name = normalise u (drop 5 line) in
      if_both HoldsOf (not (has_permission session.role Rbac.kick))
        (deny_permission-keeps c session (codes "KICK") s h)
        (if_both HoldsOf (is_empty name) h (
          ranked-keeps c session (codes "KICK") name (target_role u name s)
            (kick_allowed session name) s (kick_allowed-keeps session name s h) h))

  pub handle_ban-keeps :
      (u : Unicode) (c : ℕ) (session : Session) (line : Text) (s : Server)
      → Holds s
      → HoldsOf (handle_ban u c session line s)
  unfolding handle_ban
  handle_ban-keeps u c session line s h =
      let name = normalise u (drop 4 line) in
      if_both HoldsOf (not (has_permission session.role Rbac.ban))
        (deny_permission-keeps c session (codes "BAN") s h)
        (if_both HoldsOf (is_empty name) h (
          ranked-keeps c session (codes "BAN") name (target_role u name s)
            (ban_allowed u session name) s (ban_allowed-keeps u session name s h) h))

  pub handle_unban-keeps :
      (u : Unicode) (c : ℕ) (session : Session) (line : Text) (s : Server)
      → Holds s
      → HoldsOf (handle_unban u c session line s)
  unfolding handle_unban
  handle_unban-keeps u c session line s h =
      let name = normalise u (drop 6 line) in
      if_both HoldsOf (not (has_permission session.role Rbac.unban))
        (deny_permission-keeps c session (codes "UNBAN") s h)
        (ranked-keeps c session (codes "UNBAN") name (target_role u name s)
          (unban_allowed u session name) s (unban_allowed-keeps u session name s h) h)
