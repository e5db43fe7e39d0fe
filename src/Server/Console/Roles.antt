-- ===== src/Server/Console/Roles.antt =====
-- `/set` of the console: the account and the session.
use tlsocket.Prelude.{
  ℕ, true, ◌≡◌, refl, ◌∙◌, Option, none, some, List, [], ◌∷◌, ◌++◌, text_eq, nat_eq, arith,
  Option-cases, inl, inr,
}
use tlsocket.Dict.{lookup}
use tlsocket.Dict.Laws.{lookup-insert}
use tlsocket.Text.{Text, Unicode, codes, normalise}
use tlsocket.Text.Strip.{normalise_idem}
use tlsocket.Auth.Accounts.{set_user_role, get_user_role}
use tlsocket.Auth.Accounts.Roles.{get_user_role-set_user_role}
use tlsocket.Server.Registry.{ClientRegistry, set_role, send, get_session, find_by_name}
use tlsocket.Server.Registry.Names.{IsConsistent, set_role_total}
use tlsocket.Server.State.{Server}
use tlsocket.Server.Events.{log_event}
use tlsocket.Server.Cleanup.{chat, broadcast, target_role, session_role}
use tlsocket.Server.Cleanup.Terminates.{registry-log_event}
use tlsocket.Server.Cleanup.Keeps.{broadcast-keeps, IsConsistent-IsKept}
use tlsocket.Server.Messages.{by}
use tlsocket.Server.Messages.Files.{log_event-HasFiles, broadcast-HasFiles}
use tlsocket.Server.Console.{send_all, role_lines, tell_role, console_role, console_set}

-- What the roles are read off.
abbrev IsAlike : Server → Server → Type 0
IsAlike s t =
    (t.users ≡ s.users)
    × (t.registry.sessions ≡ s.registry.sessions)
    × (t.registry.by_name ≡ s.registry.by_name)

send_all-IsAlike : (c : ℕ) (texts : List Text) (s : Server) → IsAlike s (send_all c texts s).0
unfolding send_all send
send_all-IsAlike c [] s = (refl, refl, refl)
send_all-IsAlike c (text ∷ texts) s =
    let (a, b, d) =
      send_all-IsAlike c texts (record s { registry = (send s.registry c (chat text)).0 }) in
    (a, b ∙ ground arith, d ∙ ground arith)

tell_role-IsAlike :
    (name role : Text) (o : Option ℕ) (s : Server) → IsAlike s (tell_role name role o s).0
unfolding tell_role
tell_role-IsAlike name role none s = (refl, refl, refl)
tell_role-IsAlike name role (some c) s = send_all-IsAlike c (role_lines role) s

role_of-IsAlike :
    (u : Unicode) (name : Text) (s t : Server)
    → IsAlike s t
    → target_role u name t ≡ target_role u name s
unfolding target_role session_role get_session find_by_name
role_of-IsAlike u name s t (a, b, c) = elim (Option-cases (lookup name s.registry.by_name)) [
  | inl absent ↦ ground (arith, a, c, absent)
  | inr (sock, found) ↦ ground (arith, a, b, c, found)
]

role_after :
    (u : Unicode) (name role : Text) (s : Server) (r : ClientRegistry) (o : Option ℕ)
    → get_user_role u name s.users ≡ some (some role)
    → set_role s.registry name role ≡ some (r, o)
    → target_role u name (record s { registry = r }) ≡ some (some role)
unfolding set_role target_role session_role get_session find_by_name
role_after u name role s r o account changed =
    elim (Option-cases (lookup name s.registry.by_name)) [
      | inl absent ↦ ground (arith, absent, account)
      | inr (sock, found) ↦ elim (Option-cases (lookup sock s.registry.sessions)) [
        | inl missing ↦ absurd (ground (arith, found, missing))
        | inr (session, there) ↦ ground (
          arith,
          found,
          there,
          lookup-insert sock sock (record session { role = role }) s.registry.sessions,
        )
      ]
    ]

-- A change of role at the console that the accounts accept is in force at once, on a consistent registry: the role that
-- is found for the name, in its session if it is online and in its account if not, is the new one.
pub console_set_role :
    (u : Unicode) (name role : Text) (rest : List Text) (s : Server)
    → IsConsistent s.registry
    → (set_user_role u (normalise u name) (normalise u role) s.users).1 ≡ true
    → target_role u (normalise u name) (console_set u (name ∷ role ∷ rest) s).server
      ≡ some (some (normalise u role))
unfolding console_set console_role
console_set_role u name role rest s h done =
    let n = normalise u name in
    let new_role = normalise u role in
    let users = (set_user_role u n new_role s.users).0 in
    let start = record s { users = users } in
    let m = chat (n ++ (codes " is now an '" ++ (new_role ++ codes "!"))) in
    let told = broadcast m none start in
    let e = by (codes "SET") n (codes "new_role=" ++ new_role) in
    let noted = log_event e told in
    let kept : IsConsistent noted.registry =
      rw (registry-log_event e told)
        (broadcast-keeps IsConsistent IsConsistent-IsKept m none start h) in
    let files =
      log_event-HasFiles s.bans users e told
        (broadcast-HasFiles s.bans users m none start (refl, refl)) in
    let account : get_user_role u n users ≡ some (some new_role) =
      get_user_role-set_user_role u n new_role s.users done ∙ rw (normalise_idem u role) refl in
    let (r, changed, ok) = set_role_total noted.registry n new_role kept in
    let found = lookup n noted.registry.by_name in
    rw (done, console_set, changed, console_role)
      (role_of-IsAlike u n (record noted { registry = r }) _ (tell_role-IsAlike n new_role found _)
        ∙ role_after u n new_role noted r found (rw files.1 account) changed)
