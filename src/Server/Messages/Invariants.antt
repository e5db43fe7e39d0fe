-- ===== src/Server/Messages/Invariants.antt =====
-- What the loop over the lines of a client leaves true of the registry.
use tlsocket.Prelude.{
  ℕ, nat_eq, text_eq, ◌≡◌, Option, none, some, List, arith, Option-cases, inl, inr, subst,
}
use tlsocket.Dict.{lookup}
use tlsocket.Text.{Text, Unicode}
use tlsocket.Server.Registry.{ClientRegistry, set_role, remove_client, send}
use tlsocket.Server.Registry.Names.{IsConsistent, set_role_total}
use tlsocket.Server.Registry.Slots.{IsCounted, release_ip_slot-IsCounted}
use tlsocket.Server.State.{Server}
use tlsocket.Server.Cleanup.Keeps.{IsConsistent-IsKept}
use tlsocket.Server.Cleanup.Effects.{clean_up_client-IsOut}
use tlsocket.Server.Messages.{handle_lines, handle_messages, Heard}
use tlsocket.Server.Messages.Kept.{IsKeptByAll}
use tlsocket.Server.Messages.Keeps.{handle_messages-keeps}

pub IsConsistent-IsKeptByAll : IsKeptByAll IsConsistent
IsConsistent-IsKeptByAll = record {
  cleaning = IsConsistent-IsKept;
  on_set_role = λ r r' n role o e h.
      let (v, made, ok) = set_role_total r n role h in
      let same : v ≡ r' = cc in subst IsConsistent same ok;
}

-- The calls that have nothing to do with slots leave them alone.
same_slots :
    (r r' : ClientRegistry)
    → r'.client_ips ≡ r.client_ips
    → r'.ip_counts ≡ r.ip_counts
    → r'.max_connections_per_ip ≡ r.max_connections_per_ip
    → IsCounted r
    → IsCounted r'
same_slots r r' ips counts most h = record {
  counted = λ ip. rw (ips, counts) (h.counted ip);
  bounded = λ ip. rw (counts, most) (h.bounded ip);
  once = rw ips h.once;
  named = λ sock ip e. h.named sock ip (ground (arith, ips));
}

slots-send :
    (r : ClientRegistry) (c : ℕ) (m : Text)
    → ((send r c m).0.client_ips ≡ r.client_ips)
      × ((send r c m).0.ip_counts ≡ r.ip_counts)
      × ((send r c m).0.max_connections_per_ip ≡ r.max_connections_per_ip)
unfolding send
slots-send r c m = (ground arith, ground arith, ground arith)

slots-set_role :
    (r r' : ClientRegistry) (n role : Text) (o : Option ℕ)
    → set_role r n role ≡ some (r', o)
    → (r'.client_ips ≡ r.client_ips)
      × (r'.ip_counts ≡ r.ip_counts)
      × (r'.max_connections_per_ip ≡ r.max_connections_per_ip)
unfolding set_role
slots-set_role r r' n role o e = elim (Option-cases (lookup n r.by_name)) [
  | inl absent ↦ (ground arith, ground arith, ground arith)
  | inr (sock, found) ↦ elim (Option-cases (lookup sock r.sessions)) [
    | inl missing ↦ absurd (ground arith)
    | inr (s, present) ↦ (ground arith, ground arith, ground arith)
  ]
]

pub IsCounted-IsKeptByAll : IsKeptByAll IsCounted
unfolding remove_client
IsCounted-IsKeptByAll = record {
  cleaning = record {
    on_remove = λ r c h. record {
      counted = h.counted;
      bounded = h.bounded;
      once = h.once;
      named = h.named;
    };
    on_release = release_ip_slot-IsCounted;
    on_send = λ r c m h.
        let (ips, counts, most) = slots-send r c m in same_slots r (send r c m).0 ips counts most h;
  };
  on_set_role = λ r r' n role o e h.
      let (ips, counts, most) = slots-set_role r r' n role o e in same_slots r r' ips counts most h;
}

-- Whatever a client sends, and whenever it stops, the registry's maps stay consistent and its slots counted;
-- and when the loop has ended the client has no session and holds no slot.
pub handle_messages_invariants :
    (u : Unicode) (c : ℕ) (lines : List Heard) (s : Server)
    → IsConsistent s.registry
    → IsCounted s.registry
    → IsConsistent (handle_messages u c lines s).registry
      × IsCounted (handle_messages u c lines s).registry
      × (lookup c (handle_messages u c lines s).registry.sessions ≡ none)
      × (lookup c (handle_messages u c lines s).registry.client_ips ≡ none)
handle_messages_invariants u c lines s named counted =
    let out = clean_up_client-IsOut c (handle_lines u c lines s) in
    (
      handle_messages-keeps IsConsistent IsConsistent-IsKeptByAll u c lines s named,
      handle_messages-keeps IsCounted IsCounted-IsKeptByAll u c lines s counted,
      unfold handle_messages in out.0,
      unfold handle_messages in out.1,
    )
