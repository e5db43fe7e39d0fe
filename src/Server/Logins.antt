-- ===== src/Server/Logins.antt =====
-- How the threads of `handle_new_connection` (src/tlsocket/server_side/server.py) interleave around the names:
-- each locked call of the registry is one step, and a phase says where the thread of a socket stands
-- between two of them.
pub mod Safe
pub mod Unique
pub mod LateRelease
use tlsocket.Prelude.{ℕ, Bool, true, false, ◌≡◌, Option, none, some, if◌then◌else◌, ◌==◌, nat_eq}
use tlsocket.Text.{Text}
use tlsocket.Server.Registry.{
  ClientRegistry, Session, init, reserve_username, release_reservation, add, send, remove_client,
  set_role,
}

-- `holding`: a name is reserved for it. `added`: it is in the registry, with the name still noted as
-- reserved. `failing`: its first line could not be queued, and the `finally` is still to come.
pub data Phase : Type 0 where
  connected online closed : Phase
  holding added failing : Text → Phase

pub record System : Type 0 where
  pub registry : ClientRegistry
  pub phase : ℕ → Phase

abbrev pub update : (ℕ → Phase) → ℕ → Phase → ℕ → Phase
update f c p d = if c == d then p else f d

abbrev pub start : ℕ → ℕ → System
start m q = record { registry = init m q; phase = λ c. connected }

-- One step of a thread, or of another one that kicks, sends or changes a role.
pub data Step (s : System) : System → Type 0 where
  reserve :
      (c : ℕ) (n : Text)
      → s.phase c ≡ connected
      → (reserve_username s.registry n).1 ≡ true
      → Step s (record {
        registry = (reserve_username s.registry n).0;
        phase = update s.phase c (holding n);
      })
  give_up :
      (c : ℕ) (n : Text)
      → s.phase c ≡ holding n
      → Step s (record {
        registry = release_reservation s.registry n;
        phase = update s.phase c connected;
      })
  enter :
      (c : ℕ) (n role : Text)
      → s.phase c ≡ holding n
      → Step s (record {
        registry = add s.registry c (record { username = n; role = role });
        phase = update s.phase c (added n);
      })
  confirm :
      (c : ℕ) (n m : Text)
      → s.phase c ≡ added n
      → (send s.registry c m).1 ≡ true
      → Step s (record { registry = (send s.registry c m).0; phase = update s.phase c online })
  fail :
      (c : ℕ) (n m : Text)
      → s.phase c ≡ added n
      → (send s.registry c m).1 ≡ false
      → Step s (record {
        registry = (remove_client (send s.registry c m).0 c).0;
        phase = update s.phase c (failing n);
      })
  drop : (c : ℕ) → Step s (record s { registry = (remove_client s.registry c).0 })
  deliver : (c : ℕ) (m : Text) → Step s (record s { registry = (send s.registry c m).0 })
  change_role :
      (n role : Text) (r : ClientRegistry) (target : Option ℕ)
      → set_role s.registry n role ≡ some (r, target)
      → Step s (record s { registry = r })

-- The `finally` of a thread whose first line could not be queued releases the name again, which `add` had
-- released already.
pub data Release (s : System) : System → Type 0 where
  release :
      (c : ℕ) (n : Text)
      → s.phase c ≡ failing n
      → Release s
          (record { registry = release_reservation s.registry n; phase = update s.phase c closed })

-- Without that release.
pub data Reach (s : System) : System → Type 0 where
  here : Reach s s
  next : {t v : System} → Reach s t → Step t v → Reach s v

-- With it.
pub data ReachAll (s : System) : System → Type 0 where
  here : ReachAll s s
  next : {t v : System} → ReachAll s t → Step t v → ReachAll s v
  late : {t v : System} → ReachAll s t → Release t v → ReachAll s v
