-- ===== src/Server/Registry/Delivery.antt =====
-- Whom a broadcast reaches.
use tlsocket.Prelude.{
  ℕ, Bool, true, false, not, ◌&&◌, ◌≡◌, refl, Option, none, some, List, [], ◌∷◌, arith,
  if◌then◌else◌, ◌==◌, nat_eq, contains, distinct, is_some, Option-cases, Bool-cases, inl, inr,
}
use tlsocket.Dict.{lookup, keys}
use tlsocket.Dict.Laws.{lookup-insert}
use tlsocket.Dict.Keys.{contains-keys}
use tlsocket.Text.{Text}
use tlsocket.Server.Registry.{
  ClientRegistry, ClientWriter, enqueue, send, send_each, broadcast, snapshot, is_sender,
}

-- The writer of a socket after a message for it, and whether the message was taken.
abbrev pub queued : ℕ → Text → Option ClientWriter → Option ClientWriter
queued q m none = none
queued q m (some w) = some (enqueue q w m).0

abbrev pub takes : ℕ → Text → Option ClientWriter → Bool
takes q m none = false
takes q m (some w) = (enqueue q w m).1

pub send_writers :
    (r : ClientRegistry) (c d : ℕ) (m : Text)
    → lookup d (send r c m).0.writers
      ≡ (if c == d then queued r.send_queue_maxsize m (lookup d r.writers) else lookup d r.writers)
unfolding send
send_writers r c d m = elim (Option-cases (lookup c r.writers)) [
  | inl absent ↦ ground (arith, absent)
  | inr (w, present) ↦
      ground (arith, present, lookup-insert c d (enqueue r.send_queue_maxsize w m).0 r.writers)
]

pub send_rest :
    (r : ClientRegistry) (c : ℕ) (m : Text)
    → ((send r c m).0.send_queue_maxsize ≡ r.send_queue_maxsize)
      × ((send r c m).1 ≡ takes r.send_queue_maxsize m (lookup c r.writers))
unfolding send
send_rest r c m = ground arith

abbrev addressed : Option ℕ → List ℕ → ℕ → Bool
addressed sender socks d = contains socks d && not (is_sender sender d)

module _ (m : Text) (sender : Option ℕ) (d : ℕ) where
  send_each_lem :
      (r : ClientRegistry) (socks : List ℕ)
      → distinct socks ≡ true
      → (lookup d (send_each r m sender socks).0.writers ≡ (
          if addressed sender socks d
          then queued r.send_queue_maxsize m (lookup d r.writers)
          else lookup d r.writers))
        × (contains (send_each r m sender socks).1 d
            ≡ (addressed sender socks d && not (takes r.send_queue_maxsize m (lookup d r.writers))))
  unfolding send_each contains distinct
  send_each_lem r [] u = (refl, refl)
  send_each_lem r (c ∷ socks) u = elim (Bool-cases (is_sender sender c)) [
    | inl own ↦ rw (own, send_each) (ground (arith, send_each_lem r socks))
    | inr other ↦
        rw (other, send_each)
          (ground
            (arith, send_each_lem (send r c m).0 socks, send_writers r c d m, send_rest r c m))
  ]

-- On a registry with one session for each socket, a broadcast queues the message once for every
-- session but the sender's whose writer has room, and changes no other writer; it reports exactly the
-- sessions, but the sender's, that it could not be queued for.
pub broadcast_reaches :
    (r : ClientRegistry) (m : Text) (sender : Option ℕ) (d : ℕ)
    → distinct (keys r.sessions) ≡ true
    → (lookup d (broadcast r m sender).0.writers ≡ (
        if is_some (lookup d r.sessions) && not (is_sender sender d)
        then queued r.send_queue_maxsize m (lookup d r.writers)
        else lookup d r.writers))
      × (contains (broadcast r m sender).1 d ≡ (
          is_some (lookup d r.sessions)
          && not (is_sender sender d)
          && not (takes r.send_queue_maxsize m (lookup d r.writers))))
unfolding broadcast snapshot
broadcast_reaches r m sender d u =
    ground (arith, send_each_lem m sender d r (keys r.sessions) u, contains-keys d r.sessions)
