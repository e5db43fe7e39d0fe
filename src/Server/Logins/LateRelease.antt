-- ===== src/Server/Logins/LateRelease.antt =====
-- The second release of a name, by the `finally` of a failed log-in.
use tlsocket.Prelude.{
  ℕ, true, false, ◌≡◌, refl, some, arith, text_eq, nat_eq, ==_refl, contains, keep,
}
use tlsocket.Dict.{lookup, insert, remove}
use tlsocket.Text.{Text}
use tlsocket.Server.Registry.{
  init, reserve_username, release_reservation, add, send, remove_client, forget_name, discard,
}
use tlsocket.Server.Registry.Names.{name_at}
use tlsocket.Server.Logins.{
  connected, closed, holding, added, failing, System, update, start, reserve, enter, fail, drop,
  release, ReachAll, here, next, late,
}

module _ (m q : ℕ) (n role : Text) where
  abbrev first : System
  first = record {
    registry = (reserve_username (init m q) n).0;
    phase = update (λ c. connected) 0 (holding n);
  }

  abbrev entered : System
  entered = record {
    registry = add first.registry 0 (record { username = n; role = role });
    phase = update first.phase 0 (added n);
  }

  -- another thread kicks the new user
  abbrev kicked : System
  kicked = record entered { registry = (remove_client entered.registry 0).0 }

  abbrev failed : System
  failed = record {
    registry = (remove_client (send kicked.registry 0 n).0 0).0;
    phase = update kicked.phase 0 (failing n);
  }

  abbrev second : System
  second = record {
    registry = (reserve_username failed.registry n).0;
    phase = update failed.phase 1 (holding n);
  }

  abbrev released : System
  released = record {
    registry = release_reservation second.registry n;
    phase = update second.phase 0 closed;
  }

  abbrev third : System
  third = record {
    registry = (reserve_username released.registry n).0;
    phase = update released.phase 2 (holding n);
  }

  abbrev second_in : System
  second_in = record {
    registry = add third.registry 1 (record { username = n; role = role });
    phase = update third.phase 1 (added n);
  }

  abbrev third_in : System
  third_in = record {
    registry = add second_in.registry 2 (record { username = n; role = role });
    phase = update second_in.phase 2 (added n);
  }

  calls : Unit {0}
  unfolding reserve_username release_reservation add send remove_client forget_name discard lookup
      insert remove contains keep
  calls = tt

  send_fails : (send kicked.registry 0 n).1 ≡ false
  unfolding calls
  send_fails = ground (arith, ==_refl n)

  second_free : (reserve_username failed.registry n).1 ≡ true
  unfolding calls
  second_free = ground (arith, ==_refl n)

  third_free : (reserve_username released.registry n).1 ≡ true
  unfolding calls
  third_free = ground (arith, ==_refl n)

  two_names : (name_at third_in.registry 1 ≡ some n) × (name_at third_in.registry 2 ≡ some n)
  unfolding calls
  two_names = ground (arith, ==_refl n)

  first_free : (reserve_username (init m q) n).1 ≡ true
  unfolding calls
  first_free = refl

  upto_failed : ReachAll (start m q) failed
  upto_failed =
      let r1 : ReachAll (start m q) first = next here (reserve 0 n refl first_free) in
      let r2 : ReachAll (start m q) entered = next r1 (enter 0 n role refl) in
      let r3 : ReachAll (start m q) kicked = next r2 (drop 0) in
      next r3 (fail 0 n n refl send_fails)

  third_in-ReachAll : ReachAll (start m q) third_in
  third_in-ReachAll =
      let r5 : ReachAll (start m q) second = next upto_failed (reserve 1 n refl second_free) in
      let r6 : ReachAll (start m q) released = late r5 (release 0 n refl) in
      let r7 : ReachAll (start m q) third = next r6 (reserve 2 n refl third_free) in
      let r8 : ReachAll (start m q) second_in = next r7 (enter 1 n role refl) in
      next r8 (enter 2 n role refl)

-- With the step in which a failed log-in releases its name a second time, for every name a state can
-- be reached in which two sockets have a session of that name.
pub late_release_breaks :
    (m q : ℕ) (n role : Text)
    → (s : System) × ReachAll (start m q) s
      × (name_at s.registry 1 ≡ some n)
      × (name_at s.registry 2 ≡ some n)
late_release_breaks m q n role = (
  third_in m q n role,
  third_in-ReachAll m q n role,
  (two_names m q n role).0,
  (two_names m q n role).1,
)
