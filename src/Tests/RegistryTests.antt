-- ===== src/Tests/RegistryTests.antt =====
-- The registry, its writers, and the interleavings of log-ins.
use tlsocket.Prelude.{
  ℕ, ◌≤◌, ◌≡◌, true, ◌&&◌, not, refl, none, some, List, [], ◌∷◌, contains, distinct, text_eq,
  nat_eq, if◌then◌else◌, is_some, text_beq,
}
use tlsocket.Dict.{lookup, keys, insert, remove}
use tlsocket.Text.{codes, is_empty}
use tlsocket.Server.Registry.{
  ClientRegistry, Session, init, add, ip_count, broadcast, is_sender, new_writer, reserve_username,
  try_reserve_ip_slot, release_ip_slot, decrement,
}
use tlsocket.Server.Registry.Names.{IsConsistent, init-IsConsistent, add-IsConsistent, name_at}
use tlsocket.Server.Registry.Slots.{
  run_slots, holders, slots_bounded, SlotCall, reserve, release, asks_once, slot_call,
}
use tlsocket.Server.Registry.Delivery.{broadcast_reaches, queued, takes}
use tlsocket.Server.Registry.Writers.{
  WriterCall, put, close, round, run_writer, IsInOrder, run_writer-IsInOrder,
}
use tlsocket.Server.Logins.{System, start, update, Step, Reach, ReachAll, connected, holding, added}
use tlsocket.Server.Logins.Unique.{unique_names}
use tlsocket.Server.Logins.LateRelease.{late_release_breaks}
use tlsocket.Tests.Fixtures.{bob}

abbrev bob_session : Session
bob_session = record { username = bob; role = codes "user" }

-- bob is online on socket 1
abbrev with_bob : ClientRegistry
with_bob = add (init 5 100) 1 bob_session

with_bob-IsConsistent : IsConsistent with_bob
with_bob-IsConsistent =
    add-IsConsistent (init 5 100) 1 bob_session (unfold lookup in refl) (unfold lookup in refl)
      (init-IsConsistent 5 100)

abbrev slot_calls : List SlotCall
slot_calls = reserve 1 bob ∷ reserve 2 bob ∷ reserve 3 bob ∷ release 1 ∷ []

slot_calls_fit : asks_once (init 2 100) slot_calls ≡ true
unfolding asks_once slot_call try_reserve_ip_slot release_ip_slot lookup insert remove decrement
    is_empty codes text_beq
slot_calls_fit = refl

slots_bounded_example :
    (holders bob (run_slots (init 2 100) slot_calls).client_ips
      ≡ ip_count (run_slots (init 2 100) slot_calls) bob)
    × (holders bob (run_slots (init 2 100) slot_calls).client_ips ≤ 2)
slots_bounded_example = slots_bounded 2 100 slot_calls bob slot_calls_fit

one_session : distinct (keys with_bob.sessions) ≡ true
unfolding add insert distinct contains
one_session = refl

broadcast_reaches_example :
    (lookup 1 (broadcast with_bob bob none).0.writers ≡ (
      if is_some (lookup 1 with_bob.sessions) && not (is_sender none 1)
      then queued with_bob.send_queue_maxsize bob (lookup 1 with_bob.writers)
      else lookup 1 with_bob.writers))
    × (contains (broadcast with_bob bob none).1 1 ≡ (
        is_some (lookup 1 with_bob.sessions)
        && not (is_sender none 1)
        && not (takes with_bob.send_queue_maxsize bob (lookup 1 with_bob.writers))))
broadcast_reaches_example = broadcast_reaches with_bob bob none 1 one_session

abbrev writer_calls : List WriterCall
writer_calls =
    put bob ∷ put (codes "hi") ∷ round true ∷ put bob ∷ close ∷ round true ∷ round true ∷ []

run_writer-IsInOrder_example :
    IsInOrder 2
      (run_writer 2 (new_writer 1) [] writer_calls).0
      (run_writer 2 (new_writer 1) [] writer_calls).1
run_writer-IsInOrder_example = run_writer-IsInOrder 2 1 writer_calls

abbrev reserved : System
reserved = record {
  registry = (reserve_username (init 5 100) bob).0;
  phase = update (λ c. connected) 1 (holding bob);
}

abbrev entered : System
entered = record {
  registry = add reserved.registry 1 bob_session;
  phase = update reserved.phase 1 (added bob);
}

bob_free : (reserve_username (init 5 100) bob).1 ≡ true
unfolding reserve_username contains lookup
bob_free = refl

bob_enters : Reach (start 5 100) entered
bob_enters =
    Reach.next (Reach.next Reach.here (Step.reserve 1 bob refl bob_free))
      (Step.enter 1 bob (codes "user") refl)

bob_entered : name_at entered.registry 1 ≡ some bob
unfolding add insert lookup reserve_username contains
bob_entered = refl

unique_names_example : (◌≡◌ {A = ℕ} 1 1) × (lookup bob entered.registry.by_name ≡ some 1)
unique_names_example = unique_names 5 100 entered 1 1 bob bob_enters bob_entered bob_entered

late_release_breaks_example :
    (s : System) × ReachAll (start 5 100) s
    × (name_at s.registry 1 ≡ some bob)
    × (name_at s.registry 2 ≡ some bob)
late_release_breaks_example = late_release_breaks 5 100 bob (codes "user")
