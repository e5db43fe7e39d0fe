-- ===== src/Server/Messages/Keeps.antt =====
-- Properties of the registry through the handling of lines.
use tlsocket.Prelude.{
  ℕ, not, Option, none, some, List, [], ◌∷◌, ◌++◌, if_both, ltb, length, Option-cases, Bool-cases,
  inl, inr, nat_eq, text_eq, contains, ◌==◌,
}
use tlsocket.Text.{Text, Unicode, codes, starts_with, drop, normalise, strip, split_first}
use tlsocket.Security.Validation.{ok_text, parse_and_validate_command, validate_message}
use tlsocket.Security.RateLimiter.{allow}
use tlsocket.Auth.Rbac
use tlsocket.Auth.Rbac.{has_permission}
use tlsocket.Auth.Accounts.{set_user_role}
use tlsocket.Server.Registry.{ClientRegistry, Session, get_session, set_role}
use tlsocket.Server.State.{Server}
use tlsocket.Server.Cleanup.{chat, broadcast, send_to}
use tlsocket.Server.Cleanup.Keeps.{clean_up_client-keeps}
use tlsocket.Server.Messages.{
  send_lines, tell_commands, set_allowed, set_invalid, set_parts, handle_set, handle_command, relay,
  handle_chat, handle_session, handle_line, handle_lines, handle_messages, is_command, Heard,
  clocked,
}
use tlsocket.Server.Messages.Kept.{
  IsKeptByAll, Holds, HoldsOf, logged, sent, to_all, deny_permission-keeps, handle_kick-keeps,
  handle_ban-keeps, handle_unban-keeps,
}

module _ (P : ClientRegistry → Type 0) (k : IsKeptByAll P) where
  send_lines-keeps :
      (c : ℕ) (texts : List Text) (s : Server) → Holds P k s → Holds P k (send_lines c texts s)
  unfolding send_lines
  send_lines-keeps c [] s h = h
  send_lines-keeps c (text ∷ texts) s h =
      send_lines-keeps c texts (send_to c (chat text) s) (sent P k c (chat text) s h)

  tell_commands-keeps :
      (role : Text) (o : Option ℕ) (s : Server) → Holds P k s → Holds P k (tell_commands role o s)
  unfolding tell_commands
  tell_commands-keeps role none s h = h
  tell_commands-keeps role (some target) s h =
      if_both (Holds P k) (contains (Rbac.moderator ∷ Rbac.admin ∷ []) role)
        (send_lines-keeps target _ s h) h

  set_allowed-keeps :
      (session : Session) (target role : Text) (s : Server)
      → Holds P k s
      → HoldsOf P k (set_allowed session target role s)
  unfolding set_allowed
  set_allowed-keeps session target role s h =
      let told =
        broadcast
          (chat (
            target
            ++ (codes " role has been changed to "
                ++ (role ++ (codes " by " ++ session.username)))))
          none s in
      let kept : Holds P k told = to_all P k _ none s h in
      elim (Option-cases (set_role told.registry target role)) [
        | inl raises ↦ rw (raises, set_allowed) kept
        | inr ((r, o), changed) ↦
            rw (changed, set_allowed)
              (logged P k _ _ (
                tell_commands-keeps role o (record told { registry = r })
                  (k.on_set_role told.registry r target role o changed kept)))
      ]

  set_invalid-keeps :
      (c : ℕ) (session : Session) (role : Text) (s : Server)
      → Holds P k s
      → Holds P k (set_invalid c session role s)
  unfolding set_invalid
  set_invalid-keeps c session role s h = logged P k _ _ (sent P k c _ s h)

  set_parts-keeps :
      (u : Unicode) (c : ℕ) (session : Session) (parts : List Text) (s : Server)
      → Holds P k s
      → HoldsOf P k (set_parts u c session parts s)
  unfolding set_parts
  set_parts-keeps u c session (first ∷ second ∷ []) s h =
      let target = normalise u first in
      let role = normalise u second in
      let r = set_user_role u target role s.users in
      if_both (HoldsOf P k) r.1 (set_allowed-keeps session target role (record s { users = r.0 }) h)
        (set_invalid-keeps c session role s h)
  set_parts-keeps u c session _ s h = sent P k c _ s h

  handle_set-keeps :
      (u : Unicode) (c : ℕ) (session : Session) (line : Text) (s : Server)
      → Holds P k s
      → HoldsOf P k (handle_set u c session line s)
  unfolding handle_set
  handle_set-keeps u c session line s h =
      if_both (HoldsOf P k) (not (has_permission session.role Rbac.set))
        (deny_permission-keeps P k c session (codes "SET") s h)
        (set_parts-keeps u c session (split_first (strip (drop 4 line))) s h)

  handle_command-keeps :
      (u : Unicode) (c : ℕ) (session : Session) (line : Text) (s : Server)
      → Holds P k s
      → HoldsOf P k (handle_command u c session line s)
  unfolding handle_command
  handle_command-keeps u c session line s h =
      if_both (HoldsOf P k) (not ((parse_and_validate_command u line).2 == ok_text))
        (logged P k _ _ (sent P k c _ s h))
        (if_both (HoldsOf P k) (starts_with (codes "KICK ") line)
          (handle_kick-keeps P k u c session line s h)
          (if_both (HoldsOf P k) (starts_with (codes "BAN ") line)
            (handle_ban-keeps P k u c session line s h)
            (if_both (HoldsOf P k) (starts_with (codes "UNBAN ") line)
              (handle_unban-keeps P k u c session line s h)
              (handle_set-keeps u c session line s h))))

  handle_chat-keeps :
      (c : ℕ) (session : Session) (line : Text) (s : Server)
      → Holds P k s
      → Holds P k (handle_chat c session line s)
  unfolding handle_chat relay
  handle_chat-keeps c session line s h =
      if_both (Holds P k) (not (allow s.message_limiter c s.ticks).1)
        (logged P k _ _ (sent P k c _ _ h))
        (if_both (Holds P k) (not (validate_message (drop 4 line)).0)
          (logged P k _ _ (sent P k c _ _ h)) (to_all P k _ (some c) _ h))

  handle_session-keeps :
      (u : Unicode) (c : ℕ) (session : Session) (line : Text) (s : Server)
      → Holds P k s
      → HoldsOf P k (handle_session u c session line s)
  unfolding handle_session
  handle_session-keeps u c session line s h =
      if_both (HoldsOf P k) (is_command line) (handle_command-keeps u c session line s h) (
        if_both (HoldsOf P k) (starts_with (codes "MSG ") line)
          (handle_chat-keeps c session line s h) h)

  pub handle_line-keeps :
      (u : Unicode) (c : ℕ) (line : Text) (s : Server)
      → Holds P k s
      → HoldsOf P k (handle_line u c line s)
  unfolding handle_line
  handle_line-keeps u c line s h = elim (Bool-cases (ltb 2000 (length line))) [
    | inl long ↦ rw (long, handle_line) (sent P k c _ s h)
    | inr short ↦ elim (Option-cases (get_session s.registry c)) [
      | inl missing ↦ rw (short, handle_line, missing) h
      | inr (session, there) ↦
          rw (short, handle_line, there) (handle_session-keeps u c session line s h)
    ]
  ]

  handle_lines-keeps :
      (u : Unicode) (c : ℕ) (lines : List Heard) (s : Server)
      → Holds P k s
      → Holds P k (handle_lines u c lines s)
  unfolding handle_lines
  handle_lines-keeps u c [] s h = h
  handle_lines-keeps u c ((now, none) ∷ lines) s h = h
  handle_lines-keeps u c ((now, some line) ∷ lines) s h =
      let kept = handle_line-keeps u c line (clocked now s) h in
      if_both (Holds P k) (handle_line u c line (clocked now s)).1
        (handle_lines-keeps u c lines (handle_line u c line (clocked now s)).0 kept) kept

  pub handle_messages-keeps :
      (u : Unicode) (c : ℕ) (lines : List Heard) (s : Server)
      → Holds P k s
      → Holds P k (handle_messages u c lines s)
  unfolding handle_messages
  handle_messages-keeps u c lines s h =
      clean_up_client-keeps P k.cleaning c (handle_lines u c lines s)
        (handle_lines-keeps u c lines s h)
