-- ===== src/Server/Console/Keeps.antt =====
-- Properties of the registry through the lines of the console.
use tlsocket.Prelude.{
  ℕ, true, ◌≡◌, refl, Option, none, some, List, [], ◌∷◌, ◌++◌, if_both, Option-cases, inl, inr,
  nat_eq, text_eq,
}
use tlsocket.Text.{Text, Unicode, codes, starts_with, drop, strip, words, normalise}
use tlsocket.Auth.Bans.{add_ban}
use tlsocket.Auth.Accounts.{set_user_role}
use tlsocket.Server.Registry.{ClientRegistry, set_role}
use tlsocket.Server.Registry.Names.{IsConsistent, set_role_total}
use tlsocket.Server.Registry.Slots.{IsCounted}
use tlsocket.Server.State.{Server}
use tlsocket.Server.Events.{log_event}
use tlsocket.Server.Cleanup.{chat, broadcast, kick_user}
use tlsocket.Server.Cleanup.Keeps.{disconnect-keeps}
use tlsocket.Server.Messages.{by}
use tlsocket.Server.Messages.Kept.{IsKeptByAll, logged, to_all}
use tlsocket.Server.Messages.Invariants.{IsConsistent-IsKeptByAll, IsCounted-IsKeptByAll}
use tlsocket.Server.Console.{
  Ran, send_all, role_lines, tell_role, console_role, console_set, console_kick, console_ban,
  console_unban, console_line, server_console_input,
}

module _ (P : ClientRegistry → Type 0) (k : IsKeptByAll P) where
  abbrev Holds : Server → Type 0
  Holds s = P s.registry

  abbrev HoldsOf : Ran → Type 0
  HoldsOf o = P o.server.registry

  send_all-keeps : (c : ℕ) (texts : List Text) (s : Server) → Holds s → Holds (send_all c texts s).0
  unfolding send_all
  send_all-keeps c [] s h = h
  send_all-keeps c (text ∷ texts) s h =
      send_all-keeps c texts _ (k.cleaning.on_send s.registry c (chat text) h)

  tell_role-keeps :
      (name role : Text) (o : Option ℕ) (s : Server) → Holds s → Holds (tell_role name role o s).0
  unfolding tell_role
  tell_role-keeps name role none s h = h
  tell_role-keeps name role (some c) s h = send_all-keeps c (role_lines role) s h

  console_role-keeps :
      (name role : Text) (s : Server) → Holds s → HoldsOf (console_role name role s)
  unfolding console_role
  console_role-keeps name role s h =
      let told = broadcast (chat (name ++ (codes " is now an '" ++ (role ++ codes "!")))) none s in
      let noted = log_event (by (codes "SET") name (codes "new_role=" ++ role)) told in
      let kept : Holds noted = logged P k _ told (to_all P k _ none s h) in
      elim (Option-cases (set_role noted.registry name role)) [
        | inl raises ↦ rw (raises, console_role) kept
        | inr ((r, o), changed) ↦
            rw (changed, console_role)
              (tell_role-keeps name role o (record noted { registry = r })
                (k.on_set_role noted.registry r name role o changed kept))
      ]

  console_set-keeps :
      (u : Unicode) (parts : List Text) (s : Server) → Holds s → HoldsOf (console_set u parts s)
  unfolding console_set
  console_set-keeps u (first ∷ second ∷ rest) s h =
      let r = set_user_role u (normalise u first) (normalise u second) s.users in
      if_both HoldsOf r.1
        (console_role-keeps (normalise u first) (normalise u second) (record s { users = r.0 }) h) h
  console_set-keeps u (first ∷ []) s h = h
  console_set-keeps u [] s h = h

  console_kick-keeps : (name : Text) (s : Server) → Holds s → HoldsOf (console_kick name s)
  unfolding console_kick kick_user
  console_kick-keeps name s h =
      let gone = disconnect-keeps P k.cleaning (codes "You were kicked!") name s h in
      if_both HoldsOf (kick_user name s).1 (logged P k _ _ (to_all P k _ none _ gone)) gone

  console_ban-keeps :
      (u : Unicode) (name : Text) (s : Server) → Holds s → HoldsOf (console_ban u name s)
  unfolding console_ban kick_user
  console_ban-keeps u name s h = logged P k _ _ (
      to_all P k _ none _ (
        disconnect-keeps P k.cleaning (codes "You were kicked!") name
          (record s { bans = add_ban u name s.bans }) h))

  console_unban-keeps :
      (u : Unicode) (name : Text) (s : Server) → Holds s → HoldsOf (console_unban u name s)
  unfolding console_unban
  console_unban-keeps u name s h = logged P k _ _ (to_all P k _ none _ h)

  pub console_line-keeps :
      (u : Unicode) (input : Text) (s : Server) → Holds s → HoldsOf (console_line u input s)
  unfolding console_line
  console_line-keeps u input s h =
      let cmd = strip input in
      if_both HoldsOf (starts_with (codes "/set ") cmd)
        (console_set-keeps u (words (strip (drop 5 cmd))) s h)
        (if_both HoldsOf (starts_with (codes "/kick ") cmd)
          (console_kick-keeps (normalise u (drop 6 cmd)) s h)
          (if_both HoldsOf (starts_with (codes "/ban ") cmd)
            (console_ban-keeps u (normalise u (drop 5 cmd)) s h)
            (if_both HoldsOf (starts_with (codes "/unban ") cmd)
              (console_unban-keeps u (normalise u (drop 7 cmd)) s h) h)))

  pub server_console_input-keeps :
      (u : Unicode) (inputs : List (Option Text)) (s : Server)
      → Holds s
      → Holds (server_console_input u inputs s)
  unfolding server_console_input
  server_console_input-keeps u [] s h = h
  server_console_input-keeps u (none ∷ inputs) s h = h
  server_console_input-keeps u (some input ∷ inputs) s h =
      let kept = console_line-keeps u input s h in
      if_both Holds (console_line u input s).on
        (server_console_input-keeps u inputs (console_line u input s).server kept) kept

-- no KeyError of `set_role`
console_role-IsOn :
    (name role : Text) (s : Server) → IsConsistent s.registry → (console_role name role s).on ≡ true
unfolding console_role
console_role-IsOn name role s h =
    let told = broadcast (chat (name ++ (codes " is now an '" ++ (role ++ codes "!")))) none s in
    let noted = log_event (by (codes "SET") name (codes "new_role=" ++ role)) told in
    let kept : IsConsistent noted.registry =
      logged IsConsistent IsConsistent-IsKeptByAll _ told
        (to_all IsConsistent IsConsistent-IsKeptByAll _ none s h) in
    let (r, changed, ok) = set_role_total noted.registry name role kept in
    rw (changed, console_role) refl

abbrev IsOn : Ran → Type 0
IsOn o = o.on ≡ true

console_set-IsOn :
    (u : Unicode) (parts : List Text) (s : Server)
    → IsConsistent s.registry
    → IsOn (console_set u parts s)
unfolding console_set
console_set-IsOn u (first ∷ second ∷ rest) s h =
    let r = set_user_role u (normalise u first) (normalise u second) s.users in
    if_both IsOn r.1
      (console_role-IsOn (normalise u first) (normalise u second) (record s { users = r.0 }) h) refl
console_set-IsOn u (first ∷ []) s h = refl
console_set-IsOn u [] s h = refl

console_line-IsOn :
    (u : Unicode) (input : Text) (s : Server)
    → IsConsistent s.registry
    → (console_line u input s).on ≡ true
unfolding console_line console_set console_kick console_ban console_unban
console_line-IsOn u input s h =
    let cmd = strip input in
    if_both IsOn (starts_with (codes "/set ") cmd)
      (console_set-IsOn u (words (strip (drop 5 cmd))) s h)
      (if_both IsOn (starts_with (codes "/kick ") cmd)
        (if_both IsOn (kick_user (normalise u (drop 6 cmd)) s).1 refl refl)
        (if_both IsOn (starts_with (codes "/ban ") cmd) refl
          (if_both IsOn (starts_with (codes "/unban ") cmd) refl refl)))

-- Where no encoding of a text and no access to a file raises, whatever is typed at the console: the maps of the registry
-- stay consistent and its slots counted, and the next line does not meet the KeyError of `set_role`, so it does not end
-- the console.
pub console_keeps :
    (u : Unicode) (inputs : List (Option Text)) (input : Text) (s : Server)
    → IsConsistent s.registry
    → IsCounted s.registry
    → IsConsistent (server_console_input u inputs s).registry
      × IsCounted (server_console_input u inputs s).registry
      × ((console_line u input (server_console_input u inputs s)).on ≡ true)
console_keeps u inputs input s named counted =
    let kept = server_console_input-keeps IsConsistent IsConsistent-IsKeptByAll u inputs s named in
    (
      kept,
      server_console_input-keeps IsCounted IsCounted-IsKeptByAll u inputs s counted,
      console_line-IsOn u input (server_console_input u inputs s) kept,
    )
