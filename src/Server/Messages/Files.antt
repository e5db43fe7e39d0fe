-- ===== src/Server/Messages/Files.antt =====
-- The ban list and the accounts under broadcasts, cleanings, kicks and events.
use tlsocket.Prelude.{
  ℕ, zero, suc, ◌≡◌, Option, none, some, List, [], ◌∷◌, ◌++◌, arith, Option-cases, inl, inr, subst,
  nat_eq, text_eq,
}
use tlsocket.Text.{Text, codes}
use tlsocket.Auth.Accounts.{Users}
use tlsocket.Server.Registry.{Session, find_by_name, size}
use tlsocket.Server.Registry
use tlsocket.Server.State.{Server}
use tlsocket.Server.Events.{Event, log_event, feed_detector, route, emit, count}
use tlsocket.Server.Cleanup.{
  Broadcast, chat, left_event, announce_left, clean_up_with, clean_up_each, broadcast_fuel,
  broadcast, clean_up_client, forget_client, close, enough, send_to, disconnect,
}
use tlsocket.Server.Cleanup.Terminates.{broadcast_ends, clean_up_client_ends}
use tlsocket.Server.Cleanup.Keeps.{>>=-eq-some}

module _ (bans : Option Text) (users : Option Users) where
  abbrev pub HasFiles : Server → Type 0
  HasFiles s = (s.bans ≡ bans) × (s.users ≡ users)

  pub log_event-HasFiles : (e : Event) (s : Server) → HasFiles s → HasFiles (log_event e s)
  unfolding log_event feed_detector route emit count
  log_event-HasFiles e s h = (ground arith, ground arith)

  pub send_to-HasFiles : (c : ℕ) (m : Text) (s : Server) → HasFiles s → HasFiles (send_to c m s)
  unfolding send_to
  send_to-HasFiles c m s h = h

  abbrev Keeps : Broadcast → Type 0
  Keeps to_all =
      (m : Text) (sender : Option ℕ) (s s' : Server)
      → to_all m sender s ≡ some s'
      → HasFiles s
      → HasFiles s'

  same_result : (s t : Server) → some s ≡ some t → HasFiles s → HasFiles t
  same_result s t e h = let same : s ≡ t = cc in subst HasFiles same h

  announce_left-Keeps :
      (to_all : Broadcast) (c : ℕ) (o : Option Session) (s s' : Server)
      → Keeps to_all
      → announce_left to_all c o s ≡ some s'
      → HasFiles s
      → HasFiles s'
  unfolding announce_left close
  announce_left-Keeps to_all c none s s' all e h = same_result (close c s) s' e h
  announce_left-Keeps to_all c (some session) s s' all e h =
      let (t, e₁, e₂) =
        >>=-eq-some (to_all (chat (session.username ++ codes " left the chat!")) (some c) s)
          (λ x. some (log_event (left_event session) x)) e in
      same_result (log_event (left_event session) t) s' e₂
        (log_event-HasFiles (left_event session) t (all _ (some c) s t e₁ h))

  clean_up_each-Keeps :
      (to_all : Broadcast) (clients : List ℕ) (s s' : Server)
      → Keeps to_all
      → clean_up_each to_all clients s ≡ some s'
      → HasFiles s
      → HasFiles s'
  unfolding clean_up_each clean_up_with forget_client
  clean_up_each-Keeps to_all [] s s' all e h = same_result s s' e h
  clean_up_each-Keeps to_all (c ∷ clients) s s' all e h =
      let (t, e₁, e₂) = >>=-eq-some (clean_up_with to_all c s) (clean_up_each to_all clients) e in
      clean_up_each-Keeps to_all clients t s' all e₂
        (announce_left-Keeps to_all c (forget_client c s).1 (forget_client c s).0 t all e₁ h)

  broadcast_fuel-Keeps : (fuel : ℕ) → Keeps (broadcast_fuel fuel)
  unfolding broadcast_fuel
  broadcast_fuel-Keeps zero m sender s s' e h = cc
  broadcast_fuel-Keeps (suc fuel) m sender s s' e h =
      clean_up_each-Keeps (broadcast_fuel fuel) (Registry.broadcast s.registry m sender).1
        (record s { registry = (Registry.broadcast s.registry m sender).0 }) s'
        (broadcast_fuel-Keeps fuel) e h

  pub broadcast-HasFiles :
      (m : Text) (sender : Option ℕ) (s : Server) → HasFiles s → HasFiles (broadcast m sender s)
  broadcast-HasFiles m sender s h =
      broadcast_fuel-Keeps (enough s) m sender s (broadcast m sender s)
        (broadcast_ends m sender s).0 h

  pub clean_up_client-HasFiles : (c : ℕ) (s : Server) → HasFiles s → HasFiles (clean_up_client c s)
  unfolding forget_client
  clean_up_client-HasFiles c s h =
      announce_left-Keeps (broadcast_fuel (enough s)) c (forget_client c s).1 (forget_client c s).0
        (clean_up_client c s) (broadcast_fuel-Keeps (enough s))
        (unfold clean_up_with in (clean_up_client_ends c s).0) h

  pub disconnect-HasFiles :
      (text name : Text) (s : Server) → HasFiles s → HasFiles (disconnect text name s).0
  unfolding disconnect send_to
  disconnect-HasFiles text name s h = elim (Option-cases (find_by_name s.registry name)) [
    | inl absent ↦ rw (absent, disconnect) h
    | inr (c, found) ↦ rw (found, disconnect) (clean_up_client-HasFiles c _ h)
  ]
