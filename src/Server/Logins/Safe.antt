-- ===== src/Server/Logins/Safe.antt =====
-- What the steps of the threads keep of the registry and of the phases.
use tlsocket.Prelude.{
  ℕ, true, ◌≡◌, refl, Option, none, some, List, arith, text_eq, nat_eq, text_beq_iff, contains,
  Option-cases, inl, inr, subst,
}
use tlsocket.Dict.{lookup, remove}
use tlsocket.Dict.Laws.{lookup-insert, lookup-remove}
use tlsocket.Text.{Text}
use tlsocket.Server.Registry.{
  ClientRegistry, Session, reserve_username, release_reservation, add, send, remove_client,
  set_role,
}
use tlsocket.Server.Registry.Names.{
  IsConsistent, init-IsConsistent, add-IsConsistent, reserve_username-IsConsistent,
  release_reservation-IsConsistent, set_role_total, contains-discard,
}
use tlsocket.Server.Logins.{Phase, connected, holding, added, System, update, start}

pub record IsSafe (s : System) : Type 0 where
  pub consistent : IsConsistent s.registry
  pub reserved :
      (c : ℕ) (n : Text) → s.phase c ≡ holding n → contains s.registry.pending_logins n ≡ true
  pub one_holder : (c d : ℕ) (n : Text) → s.phase c ≡ holding n → s.phase d ≡ holding n → c ≡ d
  pub connected_out : (c : ℕ) → s.phase c ≡ connected → lookup c s.registry.sessions ≡ none
  pub holding_out : (c : ℕ) (n : Text) → s.phase c ≡ holding n → lookup c s.registry.sessions ≡ none

pub start-IsSafe : (m q : ℕ) → IsSafe (start m q)
unfolding lookup
start-IsSafe m q = record {
  consistent = init-IsConsistent m q;
  reserved = λ c n h. cc;
  one_holder = λ c d n h k. cc;
  connected_out = λ c h. refl;
  holding_out = λ c n h. refl;
}

-- the name of a holder is free in the index
pub name_free :
    (s : System) (c : ℕ) (n : Text)
    → IsSafe s
    → s.phase c ≡ holding n
    → lookup n s.registry.by_name ≡ none
name_free s c n h held = elim (Option-cases (lookup n s.registry.by_name)) [
  | inl free ↦ free
  | inr (d, taken) ↦
      absurd (ground (arith, h.consistent.not_pending n d taken, h.reserved c n held))
]

-- what the registry's calls leave alone
pub pending_of_send :
    (r : ClientRegistry) (c : ℕ) (m : Text)
    → ((send r c m).0.pending_logins ≡ r.pending_logins) × ((send r c m).0.sessions ≡ r.sessions)
unfolding send
pending_of_send r c m = ground arith

pub remove-none :
    (c d : ℕ) (sessions : List (ℕ × Session))
    → lookup d sessions ≡ none
    → lookup d (remove c sessions) ≡ none
remove-none c d sessions h = ground (arith, lookup-remove c d sessions)

pub reserve-IsSafe :
    (s : System) (c : ℕ) (n : Text)
    → s.phase c ≡ connected
    → (reserve_username s.registry n).1 ≡ true
    → IsSafe s
    → IsSafe (record {
      registry = (reserve_username s.registry n).0;
      phase = update s.phase c (holding n);
    })
unfolding reserve_username contains
reserve-IsSafe s c n p ok h = record {
  consistent = reserve_username-IsConsistent s.registry n h.consistent;
  reserved = λ d m k. ground (arith, h.reserved d m, text_beq_iff n m);
  one_holder = λ d e m k l. ground (arith, h.one_holder d e m, h.reserved d m, h.reserved e m);
  connected_out = λ d k. ground (arith, h.connected_out d);
  holding_out = λ d m k. ground (arith, h.holding_out d m, h.connected_out c p);
}

pub give_up-IsSafe :
    (s : System) (c : ℕ) (n : Text)
    → s.phase c ≡ holding n
    → IsSafe s
    → IsSafe
        (record { registry = release_reservation s.registry n; phase = update s.phase c connected })
unfolding release_reservation
give_up-IsSafe s c n p h = record {
  consistent = release_reservation-IsConsistent s.registry n h.consistent;
  reserved = λ d m k. ground (
    arith,
    h.reserved d m,
    contains-discard n m s.registry.pending_logins,
    text_beq_iff m n,
    h.one_holder c d n p,
  );
  one_holder = λ d e m k l. ground (arith, h.one_holder d e m);
  connected_out = λ d k. ground (arith, h.connected_out d, h.holding_out c n p);
  holding_out = λ d m k. ground (arith, h.holding_out d m);
}

pub enter-IsSafe :
    (s : System) (c : ℕ) (n role : Text)
    → s.phase c ≡ holding n
    → IsSafe s
    → IsSafe (record {
      registry = add s.registry c (record { username = n; role = role });
      phase = update s.phase c (added n);
    })
unfolding add
enter-IsSafe s c n role p h = record {
  consistent =
      add-IsConsistent s.registry c (record { username = n; role = role }) (name_free s c n h p)
        (h.holding_out c n p) h.consistent;
  reserved = λ d m k. ground (
    arith,
    h.reserved d m,
    contains-discard n m s.registry.pending_logins,
    text_beq_iff m n,
    h.one_holder c d n p,
  );
  one_holder = λ d e m k l. ground (arith, h.one_holder d e m);
  connected_out = λ d k. ground (
    arith,
    h.connected_out d,
    lookup-insert c d (record { username = n; role = role }) s.registry.sessions,
  );
  holding_out = λ d m k. ground (
    arith,
    h.holding_out d m,
    lookup-insert c d (record { username = n; role = role }) s.registry.sessions,
  );
}

-- A step that reserves nothing, adds no session, and lets no thread begin or hold anew.
pub quiet-IsSafe :
    (s : System) (r : ClientRegistry) (f : ℕ → Phase)
    → IsConsistent r
    → r.pending_logins ≡ s.registry.pending_logins
    → ((d : ℕ) → lookup d s.registry.sessions ≡ none → lookup d r.sessions ≡ none)
    → ((d : ℕ) (n : Text) → f d ≡ holding n → s.phase d ≡ holding n)
    → ((d : ℕ) → f d ≡ connected → s.phase d ≡ connected)
    → IsSafe s
    → IsSafe (record { registry = r; phase = f })
quiet-IsSafe s r f ok pending out holds waits h = record {
  consistent = ok;
  reserved = λ d n k. rw pending (h.reserved d n (holds d n k));
  one_holder = λ d e n k l. h.one_holder d e n (holds d n k) (holds e n l);
  connected_out = λ d k. out d (h.connected_out d (waits d k));
  holding_out = λ d n k. out d (h.holding_out d n (holds d n k));
}

pub sent :
    (r : ClientRegistry) (c : ℕ) (m : Text) (d : ℕ)
    → lookup d r.sessions ≡ none
    → lookup d (send r c m).0.sessions ≡ none
sent r c m d k = rw (pending_of_send r c m).1 k

pub removed :
    (r : ClientRegistry) (c d : ℕ)
    → lookup d r.sessions ≡ none
    → lookup d (remove_client r c).0.sessions ≡ none
unfolding remove_client
removed r c d k = remove-none c d r.sessions k

pub pending_of_remove :
    (r : ClientRegistry) (c : ℕ) → (remove_client r c).0.pending_logins ≡ r.pending_logins
unfolding remove_client
pending_of_remove r c = refl

pub role_changed :
    (r r' : ClientRegistry) (n role : Text) (o : Option ℕ)
    → set_role r n role ≡ some (r', o)
    → (r'.pending_logins ≡ r.pending_logins)
      × ((d : ℕ) → lookup d r.sessions ≡ none → lookup d r'.sessions ≡ none)
unfolding set_role
role_changed r r' n role o e = elim (Option-cases (lookup n r.by_name)) [
  | inl absent ↦ (ground arith, λ d k. ground arith)
  | inr (sock, found) ↦ elim (Option-cases (lookup sock r.sessions)) [
    | inl missing ↦ absurd (ground arith)
    | inr (s, present) ↦ (
      ground arith,
      λ d k. ground (arith, lookup-insert sock d (record s { role = role }) r.sessions),
    )
  ]
]

pub set_role-IsConsistent :
    (r r' : ClientRegistry) (n role : Text) (o : Option ℕ)
    → IsConsistent r
    → set_role r n role ≡ some (r', o)
    → IsConsistent r'
set_role-IsConsistent r r' n role o h e =
    let (v, made, ok) = set_role_total r n role h in
    let same : v ≡ r' = cc in subst IsConsistent same ok
