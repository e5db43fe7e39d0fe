-- ===== src/Tests/ConsoleTests.antt =====
-- The console of the server.
use tlsocket.Prelude.{
  ◌≡◌, true, false, refl, Option, none, some, List, [], ◌∷◌, text_eq, text_beq, nat_eq, every, ◌==◌,
  if◌then◌else◌, contains,
}
use tlsocket.Dict.{lookup}
use tlsocket.Text.{
  Text, codes, is_empty, strip, lstrip, rstrip, is_space, normalise, not_break, ascii_lower,
}
use tlsocket.Security.BruteForce
use tlsocket.Auth.Bans.Membership.{is_banned}
use tlsocket.Auth.Accounts.{set_user_role, load_users}
use tlsocket.Server.Registry.{ClientRegistry, init, add}
use tlsocket.Server.Registry.Names.{IsConsistent, init-IsConsistent, add-IsConsistent}
use tlsocket.Server.Registry.Slots.{IsCounted, init-IsCounted}
use tlsocket.Server.State.{Server}
use tlsocket.Server.Cleanup.{target_role}
use tlsocket.Server.Console.{console_ban, console_set, console_line, server_console_input}
use tlsocket.Server.Console.Keeps.{console_keeps}
use tlsocket.Server.Console.Effects.{console_ban_bans}
use tlsocket.Server.Console.Roles.{console_set_role}
use tlsocket.Tests.Fixtures.{ascii_unicode, bob, server_of}

abbrev one_session : ClientRegistry
one_session = add (init 5 100) 1 (record { username = bob; role = codes "user" })

one_session-IsConsistent : IsConsistent one_session
one_session-IsConsistent =
    add-IsConsistent (init 5 100) 1 (record { username = bob; role = codes "user" })
      (unfold lookup in refl) (unfold lookup in refl) (init-IsConsistent 5 100)

one_session-IsCounted : IsCounted one_session
unfolding add
one_session-IsCounted = record {
  counted = (init-IsCounted 5 100).counted;
  bounded = (init-IsCounted 5 100).bounded;
  once = (init-IsCounted 5 100).once;
  named = (init-IsCounted 5 100).named;
}

abbrev one_online : Server
one_online = record (server_of one_session (BruteForce.init 5 60 300 none)) {
  users = some ((bob, record { password_hash = codes "x"; role = some (codes "user") }) ∷ []);
}

abbrev inputs : List (Option Text)
inputs = some (codes "/set bob moderator") ∷ some (codes "/kick bob") ∷ none ∷ []

console_keeps_example :
    IsConsistent (server_console_input ascii_unicode inputs one_online).registry
    × IsCounted (server_console_input ascii_unicode inputs one_online).registry
    × ((console_line ascii_unicode
          (codes "/ban bob")
          (server_console_input ascii_unicode inputs one_online)).on
        ≡ true)
console_keeps_example =
    console_keeps ascii_unicode inputs (codes "/ban bob") one_online one_session-IsConsistent
      one_session-IsCounted

bob_one_line : every not_break (codes "Bob") ≡ true
unfolding every codes
bob_one_line = refl

bob_full : is_empty (normalise ascii_unicode (codes "Bob")) ≡ false
unfolding normalise codes strip lstrip rstrip is_space is_empty
bob_full = refl

console_ban_bans_example :
    (is_banned ascii_unicode
        (console_ban ascii_unicode (normalise ascii_unicode (codes "Bob")) one_online).server.bans
        bob
      ≡ (if normalise ascii_unicode (codes "Bob") == bob
          then true
          else is_banned ascii_unicode none bob))
    × (lookup
          (normalise ascii_unicode (codes "Bob"))
          (console_ban ascii_unicode
            (normalise ascii_unicode (codes "Bob"))
            one_online).server.registry.by_name
        ≡ none)
console_ban_bans_example =
    console_ban_bans ascii_unicode (codes "Bob") bob one_online one_session-IsConsistent
      bob_one_line bob_full

role_set :
    (set_user_role ascii_unicode
      (normalise ascii_unicode (codes "Bob"))
      (normalise ascii_unicode (codes "Admin"))
      one_online.users).1
    ≡ true
unfolding set_user_role normalise codes strip lstrip rstrip is_space is_empty ascii_lower lookup
    text_beq load_users contains
role_set = refl

console_set_role_example :
    target_role ascii_unicode
      (normalise ascii_unicode (codes "Bob"))
      (console_set ascii_unicode (codes "Bob" ∷ codes "Admin" ∷ []) one_online).server
    ≡ some (some (normalise ascii_unicode (codes "Admin")))
console_set_role_example =
    console_set_role ascii_unicode (codes "Bob") (codes "Admin") [] one_online
      one_session-IsConsistent role_set
