-- ===== src/Server/Connections/Exits.antt =====
-- What a connection that does not get into the chat leaves in the registry.
use tlsocket.Prelude.{
  ℕ, Bool, true, false, ◌≡◌, Option, none, some, List, arith, text_eq, nat_eq, Bool-cases, inl, inr,
}
use tlsocket.Dict.{lookup}
use tlsocket.Text.{Text, Unicode}
use tlsocket.Auth.Accounts.{Hasher, LoginSession}
use tlsocket.Server.Registry.{ClientRegistry, try_reserve_ip_slot, release_reservation, add, send}
use tlsocket.Server.State.{Server}
use tlsocket.Server.Cleanup.{close}
use tlsocket.Server.Cleanup.Terminates.{registry-log_event}
use tlsocket.Server.Cleanup.Effects.{clean_up_client-IsOut}
use tlsocket.Server.Connections.{
  Connection, Input, Next, again, leave, enter, raises, finally_release, connection_error,
  enter_chat, finish, turn_away, handle_new_connection, welcome,
}

module _ (client : ℕ) where
  abbrev IsOut : ClientRegistry → Type 0
  IsOut r = (lookup client r.sessions ≡ none) × (lookup client r.client_ips ≡ none)

  finally-IsOut :
      (o : Option Text) (s : Server) → IsOut s.registry → IsOut (finally_release o s).registry
  unfolding finally_release release_reservation
  finally-IsOut none s h = h
  finally-IsOut (some name) s h = h

  error-IsOut :
      (trouble : Text) (c : Connection) → IsOut (connection_error client trouble c).registry
  unfolding connection_error
  error-IsOut trouble c = finally-IsOut c.reserved _ (clean_up_client-IsOut client _)

  enter_chat-IsOut :
      (session : LoginSession) (c : Connection)
      → (enter_chat client session c).1 ≡ false
      → IsOut (enter_chat client session c).0.registry
  unfolding enter_chat
  enter_chat-IsOut session c e =
      let r =
        add c.server.registry client
          (record { username = session.username; role = session.role }) in
      elim (Bool-cases (send r client (welcome session)).1) [
        | inl sent ↦ absurd (ground (arith, sent))
        | inr full ↦ rw full (error-IsOut _ _)
      ]

  finish-IsOut :
      (c : Connection) (next : Next)
      → (finish client (c, next)).1 ≡ false
      → IsOut (finish client (c, next)).0.registry
  unfolding finish
  finish-IsOut c (enter session) e = enter_chat-IsOut session c e
  finish-IsOut c (raises trouble) e = error-IsOut trouble c
  finish-IsOut c leave e = finally-IsOut c.reserved _ (clean_up_client-IsOut client c.server)
  finish-IsOut c again e = finally-IsOut c.reserved _ (clean_up_client-IsOut client c.server)

  turn_away-IsOut :
      (real_ip : Text) (sends : Bool) (s : Server)
      → IsOut s.registry
      → IsOut (turn_away client real_ip sends s).registry
  unfolding turn_away close
  turn_away-IsOut real_ip true s h = rw (registry-log_event _ _) h
  turn_away-IsOut real_ip false s h = rw (registry-log_event _ _) h

full-same :
    (r : ClientRegistry) (client : ℕ) (ip : Text)
    → (try_reserve_ip_slot r client ip).1 ≡ false
    → ((try_reserve_ip_slot r client ip).0.sessions ≡ r.sessions)
      × ((try_reserve_ip_slot r client ip).0.client_ips ≡ r.client_ips)
unfolding try_reserve_ip_slot
full-same r client ip e = (ground arith, ground arith)

-- A connection of a new socket that ends without a thread for its messages leaves no session of the socket and
-- gives back the slot of its address, whether it was refused, ended or broke off.
pub handle_new_connection_exits :
    (u : Unicode) (h : Hasher) (client : ℕ) (real_ip : Text) (sends : Bool) (inputs : List Input)
    (s : Server)
    → lookup client s.registry.sessions ≡ none
    → lookup client s.registry.client_ips ≡ none
    → (handle_new_connection u h client real_ip sends inputs s).1 ≡ false
    → (lookup client (handle_new_connection u h client real_ip sends inputs s).0.registry.sessions
        ≡ none)
      × (lookup client
            (handle_new_connection u h client real_ip sends inputs s).0.registry.client_ips
          ≡ none)
unfolding handle_new_connection
handle_new_connection_exits u h client real_ip sends inputs s no_session no_slot ends =
    elim (Bool-cases (try_reserve_ip_slot s.registry client real_ip).1) [
      | inl room ↦ rw room (finish-IsOut client _ _ (rw room at ends))
      | inr full ↦
          let (sessions, slots) = full-same s.registry client real_ip full in
          rw full
            (turn_away-IsOut client real_ip sends _ (rw sessions no_session, rw slots no_slot))
    ]
