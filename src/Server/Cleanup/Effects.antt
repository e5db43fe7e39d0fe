-- ===== src/Server/Cleanup/Effects.antt =====
-- What a cleaned client has left, and what a kick frees.
use tlsocket.Prelude.{
  ℕ, ◌≡◌, ◌∙◌, Option, none, some, List, arith, if◌then◌else◌, Option-cases, inl, inr, nat_eq,
  text_eq, ==_refl, ◌==◌, is_some,
}
use tlsocket.Dict.{lookup, remove}
use tlsocket.Dict.Laws.{lookup-remove}
use tlsocket.Text.{Text}
use tlsocket.Server.Registry.{
  ClientRegistry, Session, remove_client, release_ip_slot, send, find_by_name, forget_name,
}
use tlsocket.Server.Registry.Names.{IsConsistent, send-IsConsistent}
use tlsocket.Server.State.{Server}
use tlsocket.Server.Cleanup.{
  forget_client, clean_up_with, broadcast_fuel, clean_up_client, chat, enough, send_to, disconnect,
}
use tlsocket.Server.Cleanup.Terminates.{clean_up_client_ends, sessions-release}
use tlsocket.Server.Cleanup.Keeps.{
  IsKept, announce_left-keeps, broadcast_fuel-Keeps, disconnect-keeps, IsConsistent-IsKept,
}

abbrev IsOut : ℕ → ClientRegistry → Type 0
IsOut c r = (lookup c r.sessions ≡ none) × (lookup c r.client_ips ≡ none)

absent-remove {ℓ} :
    {V : Type ℓ} (c d : ℕ) (l : List (ℕ × V)) → lookup d l ≡ none → lookup d (remove c l) ≡ none
absent-remove c d l h = ground (arith, lookup-remove c d l)

client_ips-release :
    (r : ClientRegistry) (c d : ℕ)
    → lookup d (release_ip_slot r c).client_ips ≡ (if c == d then none else lookup d r.client_ips)
unfolding release_ip_slot
client_ips-release r c d = elim (Option-cases (lookup c r.client_ips)) [
  | inl free ↦ ground (arith, free)
  | inr (ip, held) ↦ ground (arith, held, lookup-remove c d r.client_ips)
]

IsOut-IsKept : (d : ℕ) → IsKept (IsOut d)
unfolding remove_client send
IsOut-IsKept d = record {
  on_remove = λ r c h. (absent-remove c d r.sessions h.0, h.1);
  on_release =
      λ r c h. (ground (arith, sessions-release r c), ground (arith, client_ips-release r c d));
  on_send = λ r c m h. ground arith;
}

IsOut-after : (c : ℕ) (s : Server) → IsOut c (forget_client c s).0.registry
unfolding forget_client remove_client
IsOut-after c s =
    let r = (remove_client s.registry c).0 in
    (
      ground (arith, sessions-release r c, lookup-remove c c s.registry.sessions),
      ground (arith, client_ips-release r c c),
    )

-- A cleaned client has no session and no slot of its address any more.
pub clean_up_client-IsOut :
    (c : ℕ) (s : Server)
    → (lookup c (clean_up_client c s).registry.sessions ≡ none)
      × (lookup c (clean_up_client c s).registry.client_ips ≡ none)
clean_up_client-IsOut c s =
    announce_left-keeps (IsOut c) (IsOut-IsKept c) (broadcast_fuel (enough s)) c
      (forget_client c s).1 (forget_client c s).0 (clean_up_client c s)
      (broadcast_fuel-Keeps (IsOut c) (IsOut-IsKept c) (enough s))
      (unfold clean_up_with in (clean_up_client_ends c s).0) (IsOut-after c s)

IsFree-forget_name :
    (n : Text) (o : Option Session) (c : ℕ) (by_name : List (Text × ℕ))
    → lookup n by_name ≡ none
    → lookup n (forget_name o c by_name) ≡ none
unfolding forget_name
IsFree-forget_name n none c by_name h = h
IsFree-forget_name n (some session) c by_name h =
    ground (arith, lookup-remove session.username n by_name)

abbrev pub IsFree : Text → ClientRegistry → Type 0
IsFree n r = lookup n r.by_name ≡ none

pub IsFree-IsKept : (n : Text) → IsKept (IsFree n)
unfolding remove_client forget_name release_ip_slot send
IsFree-IsKept n = record {
  on_remove = λ r c h. IsFree-forget_name n (lookup c r.sessions) c r.by_name h;
  on_release = λ r c h. ground arith;
  on_send = λ r c m h. ground arith;
}

IsFree-after :
    (n : Text) (c : ℕ) (s : Server)
    → IsConsistent s.registry
    → lookup n s.registry.by_name ≡ some c
    → IsFree n (forget_client c s).0.registry
unfolding forget_client remove_client forget_name release_ip_slot
IsFree-after n c s h found = elim (Option-cases (lookup c s.registry.sessions)) [
  | inl missing ↦ absurd (ground (arith, h.to_session n c found))
  | inr (session, there) ↦
      let own : some session.username ≡ some n = ground (arith, h.to_session n c found) in
      ground
        (arith, there, own, found, ==_refl n, lookup-remove session.username n s.registry.by_name)
]

clean_up_client-IsFree :
    (n : Text) (c : ℕ) (s : Server)
    → IsConsistent s.registry
    → lookup n s.registry.by_name ≡ some c
    → IsFree n (clean_up_client c s).registry
clean_up_client-IsFree n c s h found =
    announce_left-keeps (IsFree n) (IsFree-IsKept n) (broadcast_fuel (enough s)) c
      (forget_client c s).1 (forget_client c s).0 (clean_up_client c s)
      (broadcast_fuel-Keeps (IsFree n) (IsFree-IsKept n) (enough s))
      (unfold clean_up_with in (clean_up_client_ends c s).0) (IsFree-after n c s h found)

by_name-send :
    (r : ClientRegistry) (c : ℕ) (m n : Text) → lookup n (send r c m).0.by_name ≡ lookup n r.by_name
unfolding send
by_name-send r c m n = ground arith

-- On a consistent registry, a kick or a ban reports whether somebody has the name; after it nobody
-- has, and the registry stays consistent.
pub disconnect_frees :
    (text name : Text) (s : Server)
    → IsConsistent s.registry
    → ((disconnect text name s).1 ≡ is_some (lookup name s.registry.by_name))
      × (lookup name (disconnect text name s).0.registry.by_name ≡ none)
      × IsConsistent (disconnect text name s).0.registry
unfolding disconnect find_by_name send_to
disconnect_frees text name s h = elim (Option-cases (lookup name s.registry.by_name)) [
  | inl absent ↦ (
    ground (arith, absent),
    ground (arith, absent),
    disconnect-keeps IsConsistent IsConsistent-IsKept text name s h,
  )
  | inr (c, found) ↦
      let told = record s { registry = (send s.registry c (chat text)).0 } in
      let free =
        clean_up_client-IsFree name c told (send-IsConsistent s.registry c (chat text) h)
          (by_name-send s.registry c (chat text) name ∙ found) in
      (
        ground (arith, found),
        ground (arith, found, free),
        disconnect-keeps IsConsistent IsConsistent-IsKept text name s h,
      )
]
