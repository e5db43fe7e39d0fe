-- ===== src/Server/Cleanup/Keeps.antt =====
-- What the calls of the registry in a cleaning keep, broadcasts and cleanings keep.
use tlsocket.Prelude.{
  ℕ, zero, suc, ◌≡◌, refl, Option, none, some, List, [], ◌∷◌, ◌++◌, arith, if◌then◌else◌,
  Option-cases, inl, inr, subst, nat_eq, text_eq, if_both,
}
use tlsocket.Text.{Text, codes}
use tlsocket.Server.Registry.{
  ClientRegistry, Session, remove_client, release_ip_slot, send, send_each, snapshot, is_sender,
  find_by_name, forget_name,
}
use tlsocket.Server.Registry
use tlsocket.Server.Registry.Names.{
  IsConsistent, remove_client-IsConsistent, release_ip_slot-IsConsistent, send-IsConsistent,
}
use tlsocket.Server.State.{Server}
use tlsocket.Server.Events.{log_event}
use tlsocket.Server.Cleanup.{
  Broadcast, forget_client, close, announce_left, left_event, clean_up_with, clean_up_each,
  broadcast_fuel, broadcast, clean_up_client, chat, ◌>>=◌, enough, send_to, disconnect,
}
use tlsocket.Server.Cleanup.Terminates.{registry-log_event, broadcast_ends, clean_up_client_ends}

pub >>=-eq-some :
    {A B : Type 0} (m : Option A) (f : A → Option B) {b : B}
    → (m >>= f) ≡ some b
    → (a : A) × (m ≡ some a) × (f a ≡ some b)
>>=-eq-some none f h = absurd (ground arith)
>>=-eq-some (some a) f h = (a, refl, h)

-- A property of the registry that its calls in a cleaning keep.
pub record IsKept (P : ClientRegistry → Type 0) : Type 0 where
  pub on_remove : (r : ClientRegistry) (c : ℕ) → P r → P (remove_client r c).0
  pub on_release : (r : ClientRegistry) (c : ℕ) → P r → P (release_ip_slot r c)
  pub on_send : (r : ClientRegistry) (c : ℕ) (m : Text) → P r → P (send r c m).0

module _ (P : ClientRegistry → Type 0) (k : IsKept P) where
  send_each-keeps :
      (r : ClientRegistry) (m : Text) (sender : Option ℕ) (socks : List ℕ)
      → P r
      → P (send_each r m sender socks).0
  unfolding send_each
  send_each-keeps r m sender [] h = h
  send_each-keeps r m sender (c ∷ socks) h =
      send_each-keeps (if is_sender sender c then r else (send r c m).0) m sender socks
        (if_both P (is_sender sender c) h (k.on_send r c m h))

  abbrev pub Keeps : Broadcast → Type 0
  Keeps to_all =
      (m : Text) (sender : Option ℕ) (s s' : Server)
      → to_all m sender s ≡ some s'
      → P s.registry
      → P s'.registry

  forget_client-keeps : (c : ℕ) (s : Server) → P s.registry → P (forget_client c s).0.registry
  unfolding forget_client
  forget_client-keeps c s h =
      k.on_release (remove_client s.registry c).0 c (k.on_remove s.registry c h)

  same_result : (a b : Server) → some a ≡ some b → P a.registry → P b.registry
  same_result a b e h = let same : a ≡ b = cc in subst (λ (o : Server). P o.registry) same h

  pub announce_left-keeps :
      (to_all : Broadcast) (c : ℕ) (o : Option Session) (s s' : Server)
      → Keeps to_all
      → announce_left to_all c o s ≡ some s'
      → P s.registry
      → P s'.registry
  unfolding announce_left close
  announce_left-keeps to_all c none s s' all e h = same_result (close c s) s' e h
  announce_left-keeps to_all c (some session) s s' all e h =
      let (t, e₁, e₂) =
        >>=-eq-some (to_all (chat (session.username ++ codes " left the chat!")) (some c) s)
          (λ x. some (log_event (left_event session) x)) e in
      let kept : P (log_event (left_event session) t).registry =
        rw (registry-log_event (left_event session) t) (all _ (some c) s t e₁ h) in
      same_result (log_event (left_event session) t) s' e₂ kept

  clean_up_each-keeps :
      (to_all : Broadcast) (clients : List ℕ) (s s' : Server)
      → Keeps to_all
      → clean_up_each to_all clients s ≡ some s'
      → P s.registry
      → P s'.registry
  unfolding clean_up_each clean_up_with
  clean_up_each-keeps to_all [] s s' all e h = same_result s s' e h
  clean_up_each-keeps to_all (c ∷ clients) s s' all e h =
      let (t, e₁, e₂) = >>=-eq-some (clean_up_with to_all c s) (clean_up_each to_all clients) e in
      clean_up_each-keeps to_all clients t s' all e₂ (
        announce_left-keeps to_all c (forget_client c s).1 (forget_client c s).0 t all e₁
          (forget_client-keeps c s h))

  pub broadcast_fuel-Keeps : (fuel : ℕ) → Keeps (broadcast_fuel fuel)
  unfolding broadcast_fuel Registry.broadcast
  broadcast_fuel-Keeps zero m sender s s' e h = cc
  broadcast_fuel-Keeps (suc fuel) m sender s s' e h =
      clean_up_each-keeps (broadcast_fuel fuel) (Registry.broadcast s.registry m sender).1
        (record s { registry = (Registry.broadcast s.registry m sender).0 }) s'
        (broadcast_fuel-Keeps fuel) e (send_each-keeps s.registry m sender (snapshot s.registry) h)

  pub broadcast-keeps :
      (m : Text) (sender : Option ℕ) (s : Server) → P s.registry → P (broadcast m sender s).registry
  broadcast-keeps m sender s h =
      broadcast_fuel-Keeps (enough s) m sender s (broadcast m sender s)
        (broadcast_ends m sender s).0 h

  pub clean_up_client-keeps : (c : ℕ) (s : Server) → P s.registry → P (clean_up_client c s).registry
  clean_up_client-keeps c s h =
      announce_left-keeps (broadcast_fuel (enough s)) c (forget_client c s).1 (forget_client c s).0
        (clean_up_client c s) (broadcast_fuel-Keeps (enough s))
        (unfold clean_up_with in (clean_up_client_ends c s).0) (forget_client-keeps c s h)

  pub disconnect-keeps :
      (text name : Text) (s : Server) → P s.registry → P (disconnect text name s).0.registry
  unfolding disconnect send_to
  disconnect-keeps text name s h = elim (Option-cases (find_by_name s.registry name)) [
    | inl absent ↦ rw (absent, disconnect) h
    | inr (c, found) ↦
        rw (found, disconnect) (clean_up_client-keeps c _ (k.on_send s.registry c (chat text) h))
  ]

-- Consistency of the names is kept.
pub IsConsistent-IsKept : IsKept IsConsistent
IsConsistent-IsKept = record {
  on_remove = remove_client-IsConsistent;
  on_release = release_ip_slot-IsConsistent;
  on_send = send-IsConsistent;
}
