-- ===== src/Tests/ClientTests.antt =====
-- The client.
use tlsocket.Prelude.{
  ℕ, ◌≡◌, ◌≤◌, ◌<◌, inl, inr, true, false, refl, none, some, [], ◌∷◌, arith, text_eq, nat_eq,
  contains, distinct, if◌then◌else◌, leb, ◌++◌,
}
use tlsocket.Dict.{lookup, keys}
use tlsocket.Text.{Text, codes, starts_with, is_empty, is_space, strip, lstrip, rstrip, drop}
use tlsocket.Auth.Accounts.{LoginSession}
use tlsocket.Server.Registry.{init, new_writer, add}
use tlsocket.Server.State.{Server}
use tlsocket.Security.BruteForce
use tlsocket.Server.Cleanup.{chat}
use tlsocket.Server.Connections.{welcome}
use tlsocket.Client.Dial.{Answer, opened, connected, connect, connect_with_backoff}
use tlsocket.Client.Dial.Backoff.{IsRejected, delays_of, delays_from, connect_with_backoff_lem}
use tlsocket.Server.Registry.{Session}
use tlsocket.Client.Login.{entered, asking, login_answer}
use tlsocket.Client.Login.Welcome.{login_answer-welcome}
use tlsocket.Client.Login.Early.{raced, with_queue, early_message}
use tlsocket.Tests.Fixtures.{bob, server_of}

-- two rejections, then a silent socket
abbrev busy : ℕ → Answer
busy i = if leb i 2 then opened (some (codes "ERR CONNECTION_LIMIT_REACHED")) else opened none

busy_rejects : (i : ℕ) → 0 < i → i ≤ 2 → IsRejected (busy i)
unfolding connect codes starts_with drop
busy_rejects i lo hi = (codes "CONNECTION_LIMIT_REACHED", ground (arith, hi))

busy_accepts : connect (busy 3) ≡ connected
unfolding connect
busy_accepts = refl

small_delay : 1 ≤ 30
small_delay = omega arith

below : 2 < 5
below = omega arith

connect_with_backoff_lem_example :
    (delays_of (connect_with_backoff busy 5 1).0 ≡ delays_from 1 0 2)
    × ((connect_with_backoff busy 5 1).1 ≡ connect (busy 3))
connect_with_backoff_lem_example =
    connect_with_backoff_lem busy 5 1 2 small_delay below busy_rejects (inr (inl busy_accepts))

abbrev ban_bob : Text
ban_bob = codes " /Ban  Bob "

abbrev admin : Session
admin = record { username = codes "root"; role = codes "admin" }

-- bob is online on socket 2
abbrev bob_online : Server
bob_online =
    server_of (add (init 5 100) 2 (record { username = bob; role = codes "user" }))
      (BruteForce.init 5 60 300 none)

abbrev bobs : LoginSession
bobs = record { username = bob; role = codes "moderator" }

name_plain : contains bob b':' ≡ false
unfolding contains codes
name_plain = refl

role_plain : contains (codes "moderator") b':' ≡ false
unfolding contains codes
role_plain = refl

role_stripped : strip (codes "moderator") ≡ codes "moderator"
unfolding codes strip lstrip rstrip is_space is_empty
role_stripped = refl

role_full : is_empty (codes "moderator") ≡ false
unfolding codes is_empty
role_full = refl

login_answer-welcome_example :
    (login_answer (codes "Bob") (strip (welcome bobs))).0
    ≡ entered (codes "Bob") (codes "moderator")
login_answer-welcome_example =
    login_answer-welcome bobs (codes "Bob") name_plain role_plain role_stripped role_full

abbrev hello : Text
hello = codes "alice: hello"

no_sessions : distinct (keys (init 5 100).sessions) ≡ true
unfolding distinct
no_sessions = refl

room : 1 < (init 5 100).send_queue_maxsize
room = omega arith

hello_trimmed : rstrip hello ≡ hello
unfolding codes rstrip is_space is_empty
hello_trimmed = refl

hello_full : is_empty hello ≡ false
unfolding codes is_empty
hello_full = refl

early_message_example :
    (lookup 1 (raced (init 5 100) 1 bobs (chat hello) none).writers
      ≡ some (with_queue (new_writer 1) (some (chat hello) ∷ some (welcome bobs) ∷ [])))
    × (lookup 1 (raced (init 5 100) 1 bobs (chat hello) none).sessions
        ≡ some (record { username = bobs.username; role = bobs.role }))
    × (login_answer bob (strip (chat hello))
        ≡ (asking, (codes ">> Login error: " ++ (codes "MSG " ++ hello)) ∷ []))
early_message_example =
    early_message (init 5 100) 1 bobs hello bob none no_sessions refl room hello_trimmed hello_full
