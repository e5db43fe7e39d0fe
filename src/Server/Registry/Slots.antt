-- ===== src/Server/Registry/Slots.antt =====
-- The slots of an address and its counter.
use tlsocket.Prelude.{
  ℕ, ◌+◌, ◌-◌, ◌≤◌, Bool, not, ◌&&◌, true, false, ◌≡◌, refl, none, some, List, [], ◌∷◌, arith,
  if◌then◌else◌, ◌==◌, text_eq, nat_eq, text_beq_iff, Option-cases, Bool-cases, inl, inr, get_or,
  distinct, leb, ◌∙◌,
}
use tlsocket.Dict.{lookup, insert, remove, keys, has}
use tlsocket.Dict.Laws.{lookup-insert, lookup-remove, remove_absent}
use tlsocket.Dict.Keys.{contains-keys, insert-distinct, remove-distinct}
use tlsocket.Text.{Text, is_empty}
use tlsocket.Server.Registry.{
  ClientRegistry, init, ip_count, try_reserve_ip_slot, release_ip_slot, decrement,
}

-- How many sockets hold a slot of an address.
unfoldable pub holders : Text → List (ℕ × Text) → ℕ
holders ip [] = 0
holders ip ((sock, jp) ∷ d) = if jp == ip then holders ip d + 1 else holders ip d

holders-insert :
    (sock : ℕ) (ip jp : Text) (d : List (ℕ × Text))
    → lookup sock d ≡ none
    → holders jp (insert sock ip d) ≡ (if ip == jp then holders jp d + 1 else holders jp d)
unfolding holders insert lookup
holders-insert sock ip jp [] h = ground arith
holders-insert sock ip jp ((s, kp) ∷ d) h = ground (arith, holders-insert sock ip jp d)

holders-remove :
    (sock : ℕ) (ip jp : Text) (d : List (ℕ × Text))
    → distinct (keys d) ≡ true
    → lookup sock d ≡ some ip
    → holders jp d
      ≡ (if ip == jp then holders jp (remove sock d) + 1 else holders jp (remove sock d))
unfolding holders remove lookup distinct
holders-remove sock ip jp [] d h = cc
holders-remove sock ip jp ((s, kp) ∷ rest) d h =
    ground (arith, holders-remove sock ip jp rest, contains-keys s rest, remove_absent s rest)

-- Every slot is counted, each socket has one at most, and no address is empty or over the limit.
pub record IsCounted (r : ClientRegistry) : Type 0 where
  pub counted : (ip : Text) → ip_count r ip ≡ holders ip r.client_ips
  pub bounded : (ip : Text) → ip_count r ip ≤ r.max_connections_per_ip
  pub once : distinct (keys r.client_ips) ≡ true
  pub named : (sock : ℕ) (ip : Text) → lookup sock r.client_ips ≡ some ip → is_empty ip ≡ false

pub init-IsCounted : (m q : ℕ) → IsCounted (init m q)
unfolding lookup holders distinct
init-IsCounted m q = record {
  counted = λ ip. refl;
  bounded = λ ip. omega arith;
  once = refl;
  named = λ sock ip h. cc;
}

-- A socket without a slot asks for one.
pub try_reserve_ip_slot-IsCounted :
    (r : ClientRegistry) (sock : ℕ) (ip : Text)
    → lookup sock r.client_ips ≡ none
    → is_empty ip ≡ false
    → IsCounted r
    → IsCounted (try_reserve_ip_slot r sock ip).0
unfolding try_reserve_ip_slot
try_reserve_ip_slot-IsCounted r sock ip new named h =
    elim (Bool-cases (leb r.max_connections_per_ip (ip_count r ip))) [
      | inl full ↦
          rw (full, try_reserve_ip_slot)
            (record {
              counted = λ jp. ground (
                arith,
                lookup-insert ip jp (ip_count r ip) r.ip_counts,
                text_beq_iff ip jp,
                h.counted jp,
              );
              bounded = λ jp. ground (
                arith,
                lookup-insert ip jp (ip_count r ip) r.ip_counts,
                text_beq_iff ip jp,
                h.bounded jp,
              );
              once = h.once;
              named = h.named;
            })
      | inr room ↦
          rw (room, try_reserve_ip_slot)
            (record {
              counted = λ jp. ground (
                arith,
                lookup-insert ip jp (ip_count r ip + 1) r.ip_counts,
                text_beq_iff ip jp,
                h.counted jp,
                holders-insert sock ip jp r.client_ips new,
              );
              bounded = λ jp. ground (
                arith,
                lookup-insert ip jp (ip_count r ip + 1) r.ip_counts,
                text_beq_iff ip jp,
                h.bounded jp,
              );
              once = insert-distinct sock ip r.client_ips h.once;
              named = λ c jp e. ground (arith, lookup-insert sock c ip r.client_ips, h.named c jp);
            })
    ]

lookup-decrement :
    (ip jp : Text) (counts : List (Text × ℕ))
    → is_empty ip ≡ false
    → get_or (lookup jp (decrement ip counts)) 0
      ≡ (if ip == jp then get_or (lookup ip counts) 0 - 1 else get_or (lookup jp counts) 0)
unfolding decrement
lookup-decrement ip jp counts e = ground (
  arith,
  lookup-remove ip jp counts,
  lookup-insert ip jp (get_or (lookup ip counts) 0 - 1) counts,
  text_beq_iff ip jp,
)

pub release_ip_slot-IsCounted :
    (r : ClientRegistry) (sock : ℕ) → IsCounted r → IsCounted (release_ip_slot r sock)
unfolding release_ip_slot
release_ip_slot-IsCounted r sock h = elim (Option-cases (lookup sock r.client_ips)) [
  | inl absent ↦ rw (absent, release_ip_slot) h
  | inr (ip, held) ↦
      rw (held, release_ip_slot)
        (record {
          counted = λ jp. ground (
            arith,
            lookup-decrement ip jp r.ip_counts (h.named sock ip held),
            holders-remove sock ip jp r.client_ips h.once held,
            text_beq_iff ip jp,
            h.counted jp,
          );
          bounded = λ jp. ground (
            arith,
            lookup-decrement ip jp r.ip_counts (h.named sock ip held),
            text_beq_iff ip jp,
            h.bounded ip,
            h.bounded jp,
          );
          once = remove-distinct sock r.client_ips h.once;
          named = λ c jp e. ground (arith, lookup-remove sock c r.client_ips, h.named c jp);
        })
]

-- The calls about slots.
pub data SlotCall : Type 0 where
  reserve : ℕ → Text → SlotCall
  release : ℕ → SlotCall

unfoldable pub slot_call : ClientRegistry → SlotCall → ClientRegistry
slot_call r (reserve sock ip) = (try_reserve_ip_slot r sock ip).0
slot_call r (release sock) = release_ip_slot r sock

unfoldable pub run_slots : ClientRegistry → List SlotCall → ClientRegistry
run_slots r [] = r
run_slots r (call ∷ calls) = run_slots (slot_call r call) calls

-- What `handle_new_connection` keeps to: no socket asks while it has a slot, and none for an empty address.
unfoldable pub asks_once : ClientRegistry → List SlotCall → Bool
asks_once r [] = true
asks_once r (reserve sock ip ∷ calls) =
    not (is_empty ip)
    && not (has sock r.client_ips)
    && asks_once (slot_call r (reserve sock ip)) calls
asks_once r (release sock ∷ calls) = asks_once (slot_call r (release sock)) calls

run_slots-IsCounted :
    (r : ClientRegistry) (calls : List SlotCall)
    → asks_once r calls ≡ true
    → IsCounted r
    → IsCounted (run_slots r calls)
unfolding run_slots asks_once slot_call
run_slots-IsCounted r [] ok h = h
run_slots-IsCounted r (reserve sock ip ∷ calls) ok h =
    run_slots-IsCounted (slot_call r (reserve sock ip)) calls (ground (arith, ok))
      (try_reserve_ip_slot-IsCounted r sock ip (ground (arith, ok)) (ground (arith, ok)) h)
run_slots-IsCounted r (release sock ∷ calls) ok h =
    run_slots-IsCounted (slot_call r (release sock)) calls ok (release_ip_slot-IsCounted r sock h)

max-run_slots :
    (r : ClientRegistry) (calls : List SlotCall)
    → (run_slots r calls).max_connections_per_ip ≡ r.max_connections_per_ip
unfolding run_slots slot_call try_reserve_ip_slot release_ip_slot
max-run_slots r [] = refl
max-run_slots r (reserve sock ip ∷ calls) = max-run_slots _ calls ∙ ground arith
max-run_slots r (release sock ∷ calls) = max-run_slots (release_ip_slot r sock) calls ∙ ground arith

-- After any requests and releases of slots in which no socket asks for a slot while it has one, and none for an empty
-- address, the sockets that hold a slot of an address are as many as its counter says, and at most the limit.
pub slots_bounded :
    (m q : ℕ) (calls : List SlotCall) (ip : Text)
    → asks_once (init m q) calls ≡ true
    → (holders ip (run_slots (init m q) calls).client_ips
        ≡ ip_count (run_slots (init m q) calls) ip)
      × (holders ip (run_slots (init m q) calls).client_ips ≤ m)
slots_bounded m q calls ip ok =
    let h = run_slots-IsCounted (init m q) calls ok (init-IsCounted m q) in
    omega (arith, h.counted ip, h.bounded ip, max-run_slots (init m q) calls)
