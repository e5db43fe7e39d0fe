-- ===== src/Server/Registry/Names.antt =====
-- The index by name and the sessions.
use tlsocket.Prelude.{
  ℕ, false, not, ◌&&◌, ◌≡◌, refl, Option, none, some, List, arith, ◌==◌, text_eq, nat_eq,
  text_beq_iff, contains, contains-keep, is_some, Option-cases, inl, inr,
}
use tlsocket.Dict.{lookup, insert}
use tlsocket.Dict.Laws.{lookup-insert, lookup-remove}
use tlsocket.Text.{Text}
use tlsocket.Server.Registry.{
  ClientRegistry, Session, init, add, remove_client, forget_name, reserve_username,
  release_reservation, discard, set_role, send, enqueue, try_reserve_ip_slot, release_ip_slot,
}

-- The name of the session of a socket.
abbrev pub name_of : Option Session → Option Text
name_of none = none
name_of (some s) = some s.username

abbrev pub name_at : ClientRegistry → ℕ → Option Text
name_at r sock = name_of (lookup sock r.sessions)

pub record IsConsistent (r : ClientRegistry) : Type 0 where
  pub to_session : (n : Text) (sock : ℕ) → lookup n r.by_name ≡ some sock → name_at r sock ≡ some n
  pub from_session :
      (n : Text) (sock : ℕ) → name_at r sock ≡ some n → lookup n r.by_name ≡ some sock
  pub not_pending :
      (n : Text) (sock : ℕ) → lookup n r.by_name ≡ some sock → contains r.pending_logins n ≡ false
  pub writers_of : (sock : ℕ) → is_some (lookup sock r.writers) ≡ is_some (lookup sock r.sessions)

pub init-IsConsistent : (m q : ℕ) → IsConsistent (init m q)
unfolding lookup
init-IsConsistent m q = record {
  to_session = λ n sock h. cc;
  from_session = λ n sock h. cc;
  not_pending = λ n sock h. cc;
  writers_of = λ sock. refl;
}

pub contains-discard :
    (name n : Text) (names : List Text)
    → contains (discard name names) n ≡ (not (n == name) && contains names n)
unfolding discard
contains-discard name n names = contains-keep (λ m. not (m == name)) names n

-- A session whose name is free and whose socket has none may be added.
pub add-IsConsistent :
    (r : ClientRegistry) (sock : ℕ) (s : Session)
    → lookup s.username r.by_name ≡ none
    → lookup sock r.sessions ≡ none
    → IsConsistent r
    → IsConsistent (add r sock s)
unfolding add
add-IsConsistent r sock s free new h = record {
  to_session = λ n c e. ground (
    arith,
    lookup-insert s.username n sock r.by_name,
    lookup-insert sock c s r.sessions,
    text_beq_iff s.username n,
    h.to_session n c,
  );
  from_session = λ n c e. ground (
    arith,
    lookup-insert s.username n sock r.by_name,
    lookup-insert sock c s r.sessions,
    text_beq_iff s.username n,
    h.from_session n c,
  );
  not_pending = λ n c e. ground (
    arith,
    lookup-insert s.username n sock r.by_name,
    contains-discard s.username n r.pending_logins,
    text_beq_iff s.username n,
    text_beq_iff n s.username,
    h.not_pending n c,
  );
  writers_of = λ c. simp lookup-insert (ground (arith, h.writers_of c));
}

pub remove_client-IsConsistent :
    (r : ClientRegistry) (sock : ℕ) → IsConsistent r → IsConsistent (remove_client r sock).0
unfolding remove_client forget_name
remove_client-IsConsistent r sock h = elim (Option-cases (lookup sock r.sessions)) [
  | inl absent ↦ record {
    to_session = λ n c e. ground (arith, absent, lookup-remove sock c r.sessions, h.to_session n c);
    from_session =
        λ n c e. ground (arith, absent, lookup-remove sock c r.sessions, h.from_session n c);
    not_pending = λ n c e. ground (arith, absent, h.not_pending n c);
    writers_of = λ c. simp lookup-remove (ground (arith, h.writers_of c));
  }
  | inr (s, present) ↦
      let own = h.from_session s.username sock (ground arith) in
      record {
        to_session = λ n c e. ground (
          arith,
          present,
          own,
          lookup-remove s.username n r.by_name,
          lookup-remove sock c r.sessions,
          text_beq_iff s.username n,
          h.to_session n c,
        );
        from_session = λ n c e. ground (
          arith,
          present,
          own,
          lookup-remove s.username n r.by_name,
          lookup-remove sock c r.sessions,
          text_beq_iff s.username n,
          h.from_session n c,
        );
        not_pending = λ n c e.
            ground (arith, present, own, lookup-remove s.username n r.by_name, h.not_pending n c);
        writers_of = λ c. simp lookup-remove (ground (arith, h.writers_of c));
      }
]

pub reserve_username-IsConsistent :
    (r : ClientRegistry) (n : Text) → IsConsistent r → IsConsistent (reserve_username r n).0
unfolding reserve_username contains
reserve_username-IsConsistent r name h = record {
  to_session = λ n c e. ground (arith, h.to_session n c);
  from_session = λ n c e. ground (arith, h.from_session n c);
  not_pending = λ n c e. ground (arith, text_beq_iff name n, h.not_pending n c);
  writers_of = λ c. ground (arith, h.writers_of c);
}

pub release_reservation-IsConsistent :
    (r : ClientRegistry) (name : Text) → IsConsistent r → IsConsistent (release_reservation r name)
unfolding release_reservation
release_reservation-IsConsistent r name h = record {
  to_session = h.to_session;
  from_session = h.from_session;
  not_pending =
      λ n c e. ground (arith, contains-discard name n r.pending_logins, h.not_pending n c);
  writers_of = h.writers_of;
}

-- On a consistent registry a change of role returns, with the socket that the index has for the name: there is
-- no KeyError. The registry stays consistent.
pub set_role_total :
    (r : ClientRegistry) (name role : Text)
    → IsConsistent r
    → (r' : ClientRegistry) × (set_role r name role ≡ some (r', lookup name r.by_name))
      × IsConsistent r'
unfolding set_role
set_role_total r name role h = elim (Option-cases (lookup name r.by_name)) [
  | inl absent ↦ (r, ground (arith, absent), h)
  | inr (sock, found) ↦ elim (Option-cases (lookup sock r.sessions)) [
    | inl missing ↦ absurd (ground (arith, found, missing, h.to_session name sock))
    | inr (s, present) ↦ (
      record r { sessions = insert sock (record s { role = role }) r.sessions },
      ground (arith, found, present),
      record {
        to_session = λ n c e. ground (
          arith,
          present,
          lookup-insert sock c (record s { role = role }) r.sessions,
          h.to_session n c,
        );
        from_session = λ n c e. ground (
          arith,
          present,
          lookup-insert sock c (record s { role = role }) r.sessions,
          h.from_session n c,
        );
        not_pending = h.not_pending;
        writers_of = λ c. ground (
          arith,
          present,
          lookup-insert sock c (record s { role = role }) r.sessions,
          h.writers_of c,
        );
      },
    )
  ]
]

pub send-IsConsistent :
    (r : ClientRegistry) (sock : ℕ) (m : Text) → IsConsistent r → IsConsistent (send r sock m).0
unfolding send
send-IsConsistent r sock m h = elim (Option-cases (lookup sock r.writers)) [
  | inl absent ↦ rw (absent, send) h
  | inr (w, present) ↦
      rw (present, send)
        (record {
          to_session = h.to_session;
          from_session = h.from_session;
          not_pending = h.not_pending;
          writers_of = λ c. ground (
            arith,
            present,
            lookup-insert sock c (enqueue r.send_queue_maxsize w m).0 r.writers,
            h.writers_of c,
          );
        })
]

pub try_reserve_ip_slot-IsConsistent :
    (r : ClientRegistry) (sock : ℕ) (ip : Text)
    → IsConsistent r
    → IsConsistent (try_reserve_ip_slot r sock ip).0
unfolding try_reserve_ip_slot
try_reserve_ip_slot-IsConsistent r sock ip h = record {
  to_session = λ n c e. ground (arith, h.to_session n c);
  from_session = λ n c e. ground (arith, h.from_session n c);
  not_pending = λ n c e. ground (arith, h.not_pending n c);
  writers_of = λ c. ground (arith, h.writers_of c);
}

pub release_ip_slot-IsConsistent :
    (r : ClientRegistry) (sock : ℕ) → IsConsistent r → IsConsistent (release_ip_slot r sock)
unfolding release_ip_slot
release_ip_slot-IsConsistent r sock h = record {
  to_session = λ n c e. ground (arith, h.to_session n c);
  from_session = λ n c e. ground (arith, h.from_session n c);
  not_pending = λ n c e. ground (arith, h.not_pending n c);
  writers_of = λ c. ground (arith, h.writers_of c);
}
