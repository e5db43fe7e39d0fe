-- ===== src/Server/Cleanup.antt =====
-- `clean_up_client`, `broadcast`, `_target_role`, `kick_user` and `ban_user` of
-- src/tlsocket/server_side/handlers/client_handler.py. A broadcast cleans up the clients that it could not reach, which
-- broadcasts again: the two recur on fuel, of which the handlers give one more than there are sessions. What is
-- only printed is left out.
pub mod Terminates
pub mod Keeps
pub mod Effects
use tlsocket.Prelude.{
  ℕ, zero, suc, Bool, true, false, Option, none, some, List, [], ◌∷◌, ◌++◌, if◌then◌else◌, get_or,
  nat_eq,
}
use tlsocket.Text.{Text, Unicode, codes}
use tlsocket.Protocol.{chat_message}
use tlsocket.Security.RateLimiter.{forget}
use tlsocket.Auth.Accounts.{get_user_role}
use tlsocket.Server.Registry.{
  ClientRegistry, Session, size, remove_client, release_ip_slot, find_by_name, get_session, send,
}
use tlsocket.Server.Registry
use tlsocket.Server.State.{Server}
use tlsocket.Server.Events.{Event, event_of, log_event}

infixl 5 ◌>>=◌
abbrev pub ◌>>=◌ {ℓ κ} : {A : Type ℓ} {B : Type κ} → Option A → (A → Option B) → Option B
none >>= f = none
some a >>= f = f a

-- the texts of the handlers are not empty, so there is no ValueError
unfoldable pub chat : Text → Text
chat text = get_or (chat_message text) []

-- the first half of `clean_up_client`
unfoldable pub forget_client : ℕ → Server → Server × Option Session
forget_client client s = (
  record s {
    registry = release_ip_slot (remove_client s.registry client).0 client;
    message_limiter = forget s.message_limiter client;
  },
  (remove_client s.registry client).1,
)

unfoldable pub close : ℕ → Server → Server
close client s = record s { closed = client ∷ s.closed }

abbrev pub Broadcast : Type 0
Broadcast = Text → Option ℕ → Server → Option Server

abbrev pub left_event : Session → Event
left_event session = record (event_of (codes "USER_DISCONNECTED")) { username = session.username }

-- the second half, by the session that was removed
unfoldable pub announce_left : Broadcast → ℕ → Option Session → Server → Option Server
announce_left to_all client none s = some (close client s)
announce_left to_all client (some session) s = do
  s' ← to_all (chat (session.username ++ codes " left the chat!")) (some client) s
  some (log_event (left_event session) s')

unfoldable pub clean_up_with : Broadcast → ℕ → Server → Option Server
clean_up_with to_all client s =
    announce_left to_all client (forget_client client s).1 (forget_client client s).0

unfoldable pub clean_up_each : Broadcast → List ℕ → Server → Option Server
clean_up_each to_all [] s = some s
clean_up_each to_all (client ∷ clients) s = do
  s' ← clean_up_with to_all client s
  clean_up_each to_all clients s'

unfoldable pub broadcast_fuel : ℕ → Broadcast
broadcast_fuel zero message sender s = none
broadcast_fuel (suc fuel) message sender s =
    clean_up_each (broadcast_fuel fuel) (Registry.broadcast s.registry message sender).1
      (record s { registry = (Registry.broadcast s.registry message sender).0 })

abbrev pub enough : Server → ℕ
enough s = suc (size s.registry)

unfoldable pub broadcast : Text → Option ℕ → Server → Server
broadcast message sender s = get_or (broadcast_fuel (enough s) message sender s) s

unfoldable pub clean_up_client : ℕ → Server → Server
clean_up_client client s = get_or (clean_up_with (broadcast_fuel (enough s)) client s) s

-- registry.send, its verdict not looked at
unfoldable pub send_to : ℕ → Text → Server → Server
send_to client message s = record s { registry = (send s.registry client message).0 }

-- The outer `none` is the KeyError of an account with no role.
unfoldable pub session_role : Server → Option ℕ → Option Text
session_role s none = none
session_role s (some sock) = elim (get_session s.registry sock) [
  | none ↦ none
  | some session ↦ some session.role
]

unfoldable pub target_role : Unicode → Text → Server → Option (Option Text)
target_role u username s = elim (session_role s (find_by_name s.registry username)) [
  | none ↦ get_user_role u username s.users
  | some role ↦ some (some role)
]

-- `kick_user` and `ban_user`, which differ in the text
unfoldable pub disconnect : Text → Text → Server → Server × Bool
disconnect text name s = elim (find_by_name s.registry name) [
  | none ↦ (s, false)
  | some client ↦ (clean_up_client client (send_to client (chat text) s), true)
]

unfoldable pub kick_user : Text → Server → Server × Bool
kick_user = disconnect (codes "You were kicked!")

unfoldable pub ban_user : Text → Server → Server × Bool
ban_user = disconnect (codes "You were banned!")
