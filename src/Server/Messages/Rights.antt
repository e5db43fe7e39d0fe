-- ===== src/Server/Messages/Rights.antt =====
-- Who may change the ban list and the accounts.
use tlsocket.Prelude.{
  ◌⊎◌, ℕ, false, not, ◌≡◌, refl, ◌∙◌, Option, none, some, List, [], ◌∷◌, ◌++◌, if_both,
  Option-cases, Bool-cases, inl, inr, nat_eq, text_eq, contains, ltb, length, ◌==◌,
}
use tlsocket.Text.{Text, Unicode, codes, starts_with, is_empty, drop, normalise, strip, split_first}
use tlsocket.Security.Validation.{ok_text, parse_and_validate_command, validate_message}
use tlsocket.Security.RateLimiter.{allow}
use tlsocket.Auth.Rbac
use tlsocket.Auth.Rbac.{Permission, has_permission}
use tlsocket.Auth.Accounts.{Users, set_user_role}
use tlsocket.Server.Registry.{Session, get_session, set_role}
use tlsocket.Server.State.{Server}
use tlsocket.Server.Events.{Event, log_event}
use tlsocket.Server.Cleanup.{chat, broadcast, send_to, disconnect, target_role, kick_user, ban_user}
use tlsocket.Server.Messages.{
  Outcome, deny_permission, deny_rank, outranked, kick_allowed, ban_allowed, unban_allowed, ranked,
  handle_kick, handle_ban, handle_unban, send_lines, tell_commands, set_allowed, set_invalid,
  set_parts, handle_set, handle_command, relay, handle_chat, handle_session, handle_line,
  is_command,
}
use tlsocket.Server.Messages.Files.{log_event-HasFiles, broadcast-HasFiles, disconnect-HasFiles}

-- A property of the files alone.
record IsOfFiles (P : Server → Type 0) : Type 0 where
  pub on_same : (s t : Server) → t.bans ≡ s.bans → t.users ≡ s.users → P s → P t

module _ (P : Server → Type 0) (k : IsOfFiles P) where
  abbrev Holds : Outcome → Type 0
  Holds o = P o.0

  logged : (e : Event) (s : Server) → P s → P (log_event e s)
  logged e s h =
      let (bans, users) = log_event-HasFiles s.bans s.users e s (refl, refl) in
      k.on_same s _ bans users h

  sent : (c : ℕ) (m : Text) (s : Server) → P s → P (send_to c m s)
  unfolding send_to
  sent c m s h = k.on_same s _ refl refl h

  to_all : (m : Text) (o : Option ℕ) (s : Server) → P s → P (broadcast m o s)
  to_all m o s h =
      let (bans, users) = broadcast-HasFiles s.bans s.users m o s (refl, refl) in
      k.on_same s _ bans users h

  gone : (text name : Text) (s : Server) → P s → P (disconnect text name s).0
  gone text name s h =
      let (bans, users) = disconnect-HasFiles s.bans s.users text name s (refl, refl) in
      k.on_same s _ bans users h

  denied :
      (c : ℕ) (session : Session) (command : Text) (s : Server)
      → P s
      → P (deny_permission c session command s)
  unfolding deny_permission
  denied c session command s h = logged _ _ (sent c _ s h)

  ranked-Holds :
      (c : ℕ) (session : Session) (command name : Text) (o : Option (Option Text))
      (action : Server → Server) (s : Server)
      → P (action s)
      → P s
      → Holds (ranked c session command name o action s)
  unfolding ranked deny_rank
  ranked-Holds c session command name none action s ha h = h
  ranked-Holds c session command name (some target) action s ha h =
      if_both Holds (outranked session.role target) (logged _ _ (sent c _ s h)) ha

  kick-Holds :
      (u : Unicode) (c : ℕ) (session : Session) (line : Text) (s : Server)
      → P s
      → Holds (handle_kick u c session line s)
  unfolding handle_kick kick_allowed kick_user
  kick-Holds u c session line s h =
      let name = normalise u (drop 5 line) in
      let out = gone (codes "You were kicked!") name s h in
      if_both Holds (not (has_permission session.role Rbac.kick))
        (denied c session (codes "KICK") s h)
        (if_both Holds (is_empty name) h (
          ranked-Holds c session (codes "KICK") name (target_role u name s)
            (kick_allowed session name) s
            (if_both P (kick_user name s).1 (logged _ _ (to_all _ none _ out)) out) h))

  -- without the permission the ban list is left alone
  ban-Holds :
      (u : Unicode) (c : ℕ) (session : Session) (line : Text) (s : Server)
      → (has_permission session.role Rbac.ban ≡ false)
        ⊎ ((bans : Option Text) → P (record s { bans = bans }))
      → P s
      → Holds (handle_ban u c session line s)
  unfolding handle_ban ban_allowed ban_user
  ban-Holds u c session line s (inl lacks) h = rw lacks (denied c session (codes "BAN") s h)
  ban-Holds u c session line s (inr all) h =
      let name = normalise u (drop 4 line) in
      if_both Holds (not (has_permission session.role Rbac.ban))
        (denied c session (codes "BAN") s h)
        (if_both Holds (is_empty name) h (
          ranked-Holds c session (codes "BAN") name (target_role u name s)
            (ban_allowed u session name) s
            (logged _ _ (to_all _ none _ (gone (codes "You were banned!") name _ (all _)))) h))

  unban-Holds :
      (u : Unicode) (c : ℕ) (session : Session) (line : Text) (s : Server)
      → (has_permission session.role Rbac.unban ≡ false)
        ⊎ ((bans : Option Text) → P (record s { bans = bans }))
      → P s
      → Holds (handle_unban u c session line s)
  unfolding handle_unban unban_allowed
  unban-Holds u c session line s (inl lacks) h = rw lacks (denied c session (codes "UNBAN") s h)
  unban-Holds u c session line s (inr all) h =
      let name = normalise u (drop 6 line) in
      if_both Holds (not (has_permission session.role Rbac.unban))
        (denied c session (codes "UNBAN") s h)
        (ranked-Holds c session (codes "UNBAN") name (target_role u name s)
          (unban_allowed u session name) s (logged _ _ (to_all _ none _ (all _))) h)

  lines-Holds : (c : ℕ) (texts : List Text) (s : Server) → P s → P (send_lines c texts s)
  unfolding send_lines
  lines-Holds c [] s h = h
  lines-Holds c (text ∷ texts) s h =
      lines-Holds c texts (send_to c (chat text) s) (sent c (chat text) s h)

  commands-Holds : (role : Text) (o : Option ℕ) (s : Server) → P s → P (tell_commands role o s)
  unfolding tell_commands
  commands-Holds role none s h = h
  commands-Holds role (some target) s h =
      if_both P (contains (Rbac.moderator ∷ Rbac.admin ∷ []) role) (lines-Holds target _ s h) h

  set_allowed-Holds :
      (session : Session) (target role : Text) (s : Server)
      → P s
      → Holds (set_allowed session target role s)
  unfolding set_allowed
  set_allowed-Holds session target role s h =
      let text = chat (
        target
        ++ (codes " role has been changed to " ++ (role ++ (codes " by " ++ session.username)))) in
      let told = broadcast text none s in
      let kept : P told = to_all text none s h in
      elim (Option-cases (set_role told.registry target role)) [
        | inl raises ↦ rw (raises, set_allowed) kept
        | inr ((r, o), changed) ↦
            rw (changed, set_allowed)
              (logged _ _ (
                commands-Holds role o (record told { registry = r })
                  (k.on_same told _ refl refl kept)))
      ]

  set_parts-Holds :
      (u : Unicode) (c : ℕ) (session : Session) (parts : List Text) (s : Server)
      → ((users : Option Users) → P (record s { users = users }))
      → P s
      → Holds (set_parts u c session parts s)
  unfolding set_parts set_invalid
  set_parts-Holds u c session (first ∷ second ∷ []) s all h =
      let target = normalise u first in
      let role = normalise u second in
      let r = set_user_role u target role s.users in
      if_both Holds r.1 (set_allowed-Holds session target role (record s { users = r.0 }) (all r.0))
        (logged _ _ (sent c _ s h))
  set_parts-Holds u c session _ s all h = sent c _ s h

  set-Holds :
      (u : Unicode) (c : ℕ) (session : Session) (line : Text) (s : Server)
      → (has_permission session.role Rbac.set ≡ false)
        ⊎ ((users : Option Users) → P (record s { users = users }))
      → P s
      → Holds (handle_set u c session line s)
  unfolding handle_set
  set-Holds u c session line s (inl lacks) h = rw lacks (denied c session (codes "SET") s h)
  set-Holds u c session line s (inr all) h =
      if_both Holds (not (has_permission session.role Rbac.set))
        (denied c session (codes "SET") s h)
        (set_parts-Holds u c session (split_first (strip (drop 4 line))) s all h)

  chat-Holds :
      (c : ℕ) (session : Session) (line : Text) (s : Server)
      → P s
      → P (handle_chat c session line s)
  unfolding handle_chat relay
  chat-Holds c session line s h =
      let limited =
        k.on_same s (record s { message_limiter = (allow s.message_limiter c s.ticks).0 }) refl refl
          h in
      if_both P (not (allow s.message_limiter c s.ticks).1) (logged _ _ (sent c _ _ limited)) (
        if_both P (not (validate_message (drop 4 line)).0) (logged _ _ (sent c _ _ limited))
          (to_all _ (some c) _ (k.on_same s _ refl refl h)))

  line-Holds :
      (u : Unicode) (c : ℕ) (line : Text) (s : Server) (session : Session)
      → get_session s.registry c ≡ some session
      → (has_permission session.role Rbac.ban ≡ false)
        ⊎ ((bans : Option Text) → P (record s { bans = bans }))
      → (has_permission session.role Rbac.unban ≡ false)
        ⊎ ((bans : Option Text) → P (record s { bans = bans }))
      → (has_permission session.role Rbac.set ≡ false)
        ⊎ ((users : Option Users) → P (record s { users = users }))
      → P s
      → Holds (handle_line u c line s)
  unfolding handle_line handle_session handle_command
  line-Holds u c line s session there may_ban may_unban may_set h =
      elim (Bool-cases (ltb 2000 (length line))) [
        | inl long ↦ rw (long, handle_line) (sent c _ s h)
        | inr short ↦
            rw (short, handle_line, there)
              (if_both Holds (is_command line)
                (if_both Holds (not ((parse_and_validate_command u line).2 == ok_text))
                  (logged _ _ (sent c _ s h))
                  (if_both Holds (starts_with (codes "KICK ") line)
                    (kick-Holds u c session line s h)
                    (if_both Holds (starts_with (codes "BAN ") line)
                      (ban-Holds u c session line s may_ban h)
                      (if_both Holds (starts_with (codes "UNBAN ") line)
                        (unban-Holds u c session line s may_unban h)
                        (set-Holds u c session line s may_set h)))))
                (if_both Holds (starts_with (codes "MSG ") line) (chat-Holds c session line s h) h))
      ]

-- Whatever the line, the ban list stays as it is if the role of the sender's session has neither the permission to
-- ban nor the one to unban.
pub bans_need_permission :
    (u : Unicode) (c : ℕ) (line : Text) (s : Server) (session : Session)
    → get_session s.registry c ≡ some session
    → has_permission session.role Rbac.ban ≡ false
    → has_permission session.role Rbac.unban ≡ false
    → (handle_line u c line s).0.bans ≡ s.bans
bans_need_permission u c line s session there no_ban no_unban =
    line-Holds (λ (t : Server). t.bans ≡ s.bans) (record { on_same = λ a b bans users e. bans ∙ e })
      u c line s session there (inl no_ban) (inl no_unban) (inr (λ users. refl)) refl

-- Whatever the line, the accounts and their roles stay as they are if the role of the sender's session has not the
-- permission to set roles.
pub roles_need_permission :
    (u : Unicode) (c : ℕ) (line : Text) (s : Server) (session : Session)
    → get_session s.registry c ≡ some session
    → has_permission session.role Rbac.set ≡ false
    → (handle_line u c line s).0.users ≡ s.users
roles_need_permission u c line s session there no_set =
    line-Holds (λ (t : Server). t.users ≡ s.users)
      (record { on_same = λ a b bans users e. users ∙ e }) u c line s session there
      (inr (λ bans. refl)) (inr (λ bans. refl)) (inl no_set) refl
