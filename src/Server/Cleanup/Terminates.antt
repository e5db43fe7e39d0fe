-- ===== src/Server/Cleanup/Terminates.antt =====
-- The recursion of broadcasts and cleanings, and its fuel.
use tlsocket.Prelude.{
  ℕ, zero, suc, ◌≤◌, ◌<◌, ◌≡◌, refl, ◌∙◌, Option, some, List, [], ◌∷◌, ◌++◌, arith, if◌then◌else◌,
  length, Option-cases, inl, inr, ap, nat_eq, if_both,
}
use tlsocket.Dict.{lookup, remove}
use tlsocket.Dict.Laws.{length-remove-le, length-remove-lt}
use tlsocket.Text.{Text, codes}
use tlsocket.Server.Registry.{
  ClientRegistry, Session, size, remove_client, release_ip_slot, send, send_each, snapshot,
  is_sender,
}
use tlsocket.Server.Registry
use tlsocket.Server.State.{Server}
use tlsocket.Server.Events.{Event, log_event, route, emit, feed_detector, count}
use tlsocket.Server.Cleanup.{
  Broadcast, forget_client, close, left_event, announce_left, clean_up_with, clean_up_each,
  broadcast_fuel, broadcast, clean_up_client, chat, enough,
}

-- the number of sessions
abbrev pub online : Server → ℕ
online s = size s.registry

pub registry-log_event : (e : Event) (s : Server) → (log_event e s).registry ≡ s.registry
unfolding log_event route emit feed_detector count
registry-log_event e s = ground arith

pub sessions-send : (r : ClientRegistry) (c : ℕ) (m : Text) → (send r c m).0.sessions ≡ r.sessions
unfolding send
sessions-send r c m = ground arith

sessions-send_each :
    (r : ClientRegistry) (m : Text) (sender : Option ℕ) (socks : List ℕ)
    → (send_each r m sender socks).0.sessions ≡ r.sessions
unfolding send_each
sessions-send_each r m sender [] = refl
sessions-send_each r m sender (c ∷ socks) =
    sessions-send_each (if is_sender sender c then r else (send r c m).0) m sender socks
    ∙ if_both (λ (x : ClientRegistry). x.sessions ≡ r.sessions) (is_sender sender c) refl
        (sessions-send r c m)

pub sessions-broadcast :
    (r : ClientRegistry) (m : Text) (sender : Option ℕ)
    → (Registry.broadcast r m sender).0.sessions ≡ r.sessions
unfolding Registry.broadcast
sessions-broadcast r m sender = sessions-send_each r m sender (snapshot r)

pub sessions-release : (r : ClientRegistry) (c : ℕ) → (release_ip_slot r c).sessions ≡ r.sessions
unfolding release_ip_slot
sessions-release r c = ground arith

sessions-forget_client :
    (c : ℕ) (s : Server) → (forget_client c s).0.registry.sessions ≡ remove c s.registry.sessions
unfolding forget_client remove_client
sessions-forget_client c s = sessions-release (remove_client s.registry c).0 c

-- The call ends, with no more sessions than before.
abbrev Ends : Option Server → ℕ → Type 0
Ends o n = (s' : Server) × (o ≡ some s') × (online s' ≤ n)

-- Broadcasts over fewer sessions than `n` end.
abbrev EndsBelow : Broadcast → ℕ → Type 0
EndsBelow to_all n =
    (m : Text) (sender : Option ℕ) (s : Server) → online s < n → Ends (to_all m sender s) (online s)

announce_left-Ends :
    (to_all : Broadcast) (c : ℕ) (session : Session) (s : Server) (n : ℕ)
    → EndsBelow to_all n
    → online s < n
    → Ends (announce_left to_all c (some session) s) (online s)
unfolding announce_left
announce_left-Ends to_all c session s n ends small =
    let (s', e, le) = ends (chat (session.username ++ codes " left the chat!")) (some c) s small in
    (log_event (left_event session) s', rw (e, announce_left) refl, rw registry-log_event le)

-- a removal leaves no more sessions, and fewer where there was one
fewer :
    (c : ℕ) (s : Server) (session : Session)
    → lookup c s.registry.sessions ≡ some session
    → online (forget_client c s).0 < online s
unfolding size
fewer c s session h =
    rw (sessions-forget_client c s) (length-remove-lt c s.registry.sessions {v = session} h)

no_more : (c : ℕ) (s : Server) → online (forget_client c s).0 ≤ online s
unfolding size
no_more c s = rw (sessions-forget_client c s) (length-remove-le c s.registry.sessions)

pub removed_session : (c : ℕ) (s : Server) → (forget_client c s).1 ≡ lookup c s.registry.sessions
unfolding forget_client remove_client
removed_session c s = refl

clean_up_with-Ends :
    (to_all : Broadcast) (c : ℕ) (s : Server) (n : ℕ)
    → EndsBelow to_all n
    → online s ≤ n
    → Ends (clean_up_with to_all c s) (online s)
unfolding clean_up_with
clean_up_with-Ends to_all c s n ends small = elim (Option-cases (lookup c s.registry.sessions)) [
  | inl none_there ↦ (
    close c (forget_client c s).0,
    rw (removed_session c s, none_there) (unfold announce_left in refl),
    unfold close in no_more c s,
  )
  | inr (session, there) ↦
      let few = fewer c s session there in
      let (s', e, le) =
        announce_left-Ends to_all c session (forget_client c s).0 n ends (omega arith) in
      (s', rw (removed_session c s, there) e, omega arith)
]

clean_up_each-Ends :
    (to_all : Broadcast) (clients : List ℕ) (s : Server) (n : ℕ)
    → EndsBelow to_all n
    → online s ≤ n
    → Ends (clean_up_each to_all clients s) (online s)
unfolding clean_up_each
clean_up_each-Ends to_all [] s n ends small = (s, refl, omega arith)
clean_up_each-Ends to_all (c ∷ clients) s n ends small =
    let (s', e, le) = clean_up_with-Ends to_all c s n ends small in
    let (t, e', le') = clean_up_each-Ends to_all clients s' n ends (omega arith) in
    (t, rw e e', omega arith)

-- With more fuel than there are sessions a broadcast ends, and no session was added.
pub broadcast_fuel-Ends : (fuel : ℕ) → EndsBelow (broadcast_fuel fuel) fuel
unfolding broadcast_fuel
broadcast_fuel-Ends zero m sender s small = absurd (omega arith)
broadcast_fuel-Ends (suc fuel) m sender s small =
    let r = Registry.broadcast s.registry m sender in
    let same : online (record s { registry = r.0 }) ≡ online s =
      unfold size in ap length (sessions-broadcast s.registry m sender) in
    let (s', e, le) =
      clean_up_each-Ends (broadcast_fuel fuel) r.1 (record s { registry = r.0 }) fuel
        (broadcast_fuel-Ends fuel) (omega arith) in
    (s', e, omega arith)

-- The broadcast of a message ends, whatever the clients that cannot be reached: with one more round than there
-- are sessions the recursion of broadcasts and cleanings is done, the handlers' call is its result, and no
-- session was added.
pub broadcast_ends :
    (m : Text) (sender : Option ℕ) (s : Server)
    → (broadcast_fuel (enough s) m sender s ≡ some (broadcast m sender s))
      × (online (broadcast m sender s) ≤ online s)
unfolding broadcast
broadcast_ends m sender s =
    let (s', e, le) = broadcast_fuel-Ends (enough s) m sender s (omega arith) in
    (ground arith, rw e le)

-- The cleaning of a client ends as well, with the same fuel, and adds no session.
pub clean_up_client_ends :
    (c : ℕ) (s : Server)
    → (clean_up_with (broadcast_fuel (enough s)) c s ≡ some (clean_up_client c s))
      × (online (clean_up_client c s) ≤ online s)
unfolding clean_up_client
clean_up_client_ends c s =
    let (s', e, le) =
      clean_up_with-Ends (broadcast_fuel (enough s)) c s (enough s) (broadcast_fuel-Ends (enough s))
        (omega arith) in
    (ground arith, rw e le)
