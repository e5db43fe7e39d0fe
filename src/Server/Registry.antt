-- ===== src/Server/Registry.antt =====
-- src/tlsocket/server_side/client_registry.py. Every method runs under the lock, so it is one step; a socket
-- is a number, which stands for the identity of the object. A message is the text that is encoded.
pub mod Writers
pub mod Names
pub mod Slots
pub mod Delivery
use tlsocket.Prelude.{
  ℕ, ◌+◌, ◌-◌, Bool, true, false, ◌&&◌, ◌||◌, not, Option, none, some, List, [], ◌∷◌, ◌++◌,
  if◌then◌else◌, ltb, leb, nat_beq, keep, length, get_or, ◌==◌, text_eq, nat_eq, contains, is_some,
  map,
}
use tlsocket.Dict.{lookup, insert, remove, keys, has}
use tlsocket.Text.{Text, is_empty}

pub record Session : Type 0 where
  pub username : Text
  pub role : Text

-- The queue of a writer, whether its thread still runs, whether the socket was shut down, and what was sent.
pub record ClientWriter : Type 0 where
  pub sock : ℕ
  pub queue : List (Option Text)
  pub running : Bool
  pub shut : Bool
  pub sent : List Text

abbrev pub new_writer : ℕ → ClientWriter
new_writer sock = record { sock = sock; queue = []; running = true; shut = false; sent = [] }

-- queue.Queue.put_nowait: `none` for queue.Full; a queue of maximal size 0 has no bound
unfoldable pub put_nowait : ℕ → ClientWriter → Option Text → Option ClientWriter
put_nowait maxsize w item =
    if ltb 0 maxsize && leb maxsize (length w.queue)
    then none
    else some (record w { queue = w.queue ++ item ∷ [] })

unfoldable pub enqueue : ℕ → ClientWriter → Text → ClientWriter × Bool
enqueue maxsize w message = elim (put_nowait maxsize w (some message)) [
  | none ↦ (w, false)
  | some w' ↦ (w', true)
]

unfoldable pub stop : ℕ → ClientWriter → ClientWriter
stop maxsize w = get_or (put_nowait maxsize w none) (record w { shut = true })

-- One round of `_run`, by the item at the head; `sends` says whether `sendall` goes well. With an empty queue
-- the thread waits.
unfoldable pub run_item : ClientWriter → List (Option Text) → Bool → ClientWriter
run_item w [] sends = w
run_item w (none ∷ queue) sends = record w { queue = queue; running = false; shut = true }
run_item w (some item ∷ queue) true = record w { queue = queue; sent = w.sent ++ item ∷ [] }
run_item w (some item ∷ queue) false = record w { queue = queue; running = false; shut = true }

unfoldable pub run_round : ClientWriter → Bool → ClientWriter
unfolding run_item
run_round w sends = if w.running then run_item w w.queue sends else w

-- `retired` keeps the writers that the registry has let go of, whose threads may still run.
pub record ClientRegistry : Type 0 where
  pub max_connections_per_ip : ℕ
  pub send_queue_maxsize : ℕ
  pub sessions : List (ℕ × Session)
  pub by_name : List (Text × ℕ)
  pub client_ips : List (ℕ × Text)
  pub ip_counts : List (Text × ℕ)
  pub pending_logins : List Text
  pub writers : List (ℕ × ClientWriter)
  pub retired : List ClientWriter

abbrev pub init : ℕ → ℕ → ClientRegistry
init max_connections_per_ip send_queue_maxsize = record {
  max_connections_per_ip = max_connections_per_ip;
  send_queue_maxsize = send_queue_maxsize;
  sessions = [];
  by_name = [];
  client_ips = [];
  ip_counts = [];
  pending_logins = [];
  writers = [];
  retired = [];
}

unfoldable pub size : ClientRegistry → ℕ
size r = length r.sessions

-- a read of the defaultdict
abbrev pub ip_count : ClientRegistry → Text → ℕ
ip_count r ip = get_or (lookup ip r.ip_counts) 0

-- the read stores a 0 for a new address
unfoldable pub try_reserve_ip_slot : ClientRegistry → ℕ → Text → ClientRegistry × Bool
try_reserve_ip_slot r sock ip =
    if leb r.max_connections_per_ip (ip_count r ip)
    then (record r { ip_counts = insert ip (ip_count r ip) r.ip_counts }, false)
    else (
      record r {
        ip_counts = insert ip (ip_count r ip + 1) r.ip_counts;
        client_ips = insert sock ip r.client_ips;
      },
      true,
    )

unfoldable pub decrement : Text → List (Text × ℕ) → List (Text × ℕ)
decrement ip counts =
    if not (is_empty ip) && has ip counts
    then (let n = get_or (lookup ip counts) 0 - 1 in
        if leb n 0 then remove ip counts else insert ip n counts)
    else counts

unfoldable pub release_ip_slot : ClientRegistry → ℕ → ClientRegistry
release_ip_slot r sock = elim (lookup sock r.client_ips) [
  | none ↦ r
  | some ip ↦ record r {
    client_ips = remove sock r.client_ips;
    ip_counts = decrement ip r.ip_counts;
  }
]

-- set.discard
unfoldable pub discard : Text → List Text → List Text
discard name = keep (λ n. not (n == name))

unfoldable pub add : ClientRegistry → ℕ → Session → ClientRegistry
add r sock session = record r {
  sessions = insert sock session r.sessions;
  by_name = insert session.username sock r.by_name;
  pending_logins = discard session.username r.pending_logins;
  writers = insert sock (new_writer sock) r.writers;
}

-- the name is freed only if it is this socket's
unfoldable pub forget_name : Option Session → ℕ → List (Text × ℕ) → List (Text × ℕ)
forget_name none sock by_name = by_name
forget_name (some session) sock by_name = elim (lookup session.username by_name) [
  | none ↦ by_name
  | some owner ↦ if owner == sock then remove session.username by_name else by_name
]

unfoldable pub stopped : ℕ → Option ClientWriter → List ClientWriter
stopped maxsize none = []
stopped maxsize (some w) = stop maxsize w ∷ []

unfoldable pub remove_client : ClientRegistry → ℕ → ClientRegistry × Option Session
remove_client r sock = (
  record r {
    sessions = remove sock r.sessions;
    by_name = forget_name (lookup sock r.sessions) sock r.by_name;
    writers = remove sock r.writers;
    retired = r.retired ++ stopped r.send_queue_maxsize (lookup sock r.writers);
  },
  lookup sock r.sessions,
)

unfoldable pub get_session : ClientRegistry → ℕ → Option Session
get_session r sock = lookup sock r.sessions

unfoldable pub find_by_name : ClientRegistry → Text → Option ℕ
find_by_name r username = lookup username r.by_name

unfoldable pub snapshot : ClientRegistry → List ℕ
snapshot r = keys r.sessions

unfoldable pub reserve_username : ClientRegistry → Text → ClientRegistry × Bool
reserve_username r username =
    if has username r.by_name || contains r.pending_logins username
    then (r, false)
    else (record r { pending_logins = username ∷ r.pending_logins }, true)

unfoldable pub release_reservation : ClientRegistry → Text → ClientRegistry
release_reservation r username = record r { pending_logins = discard username r.pending_logins }

-- The outer `none` is the KeyError of a name whose socket has no session.
unfoldable pub set_role : ClientRegistry → Text → Text → Option (ClientRegistry × Option ℕ)
set_role r username new_role = elim (lookup username r.by_name) [
  | none ↦ some (r, none)
  | some sock ↦ elim (lookup sock r.sessions) [
    | none ↦ none
    | some session ↦ some (
      record r { sessions = insert sock (record session { role = new_role }) r.sessions },
      some sock,
    )
  ]
]

unfoldable pub send : ClientRegistry → ℕ → Text → ClientRegistry × Bool
send r sock message = elim (lookup sock r.writers) [
  | none ↦ (r, false)
  | some w ↦ (
    record r { writers = insert sock (enqueue r.send_queue_maxsize w message).0 r.writers },
    (enqueue r.send_queue_maxsize w message).1,
  )
]

abbrev pub is_sender : Option ℕ → ℕ → Bool
is_sender none sock = false
is_sender (some s) sock = s == sock

-- the loop over the snapshot; the list is of those that could not be sent to
unfoldable pub send_each : ClientRegistry → Text → Option ℕ → List ℕ → ClientRegistry × List ℕ
send_each r message sender [] = (r, [])
send_each r message sender (sock ∷ socks) =
    let r' = if is_sender sender sock then r else (send r sock message).0 in
    let failed = not (is_sender sender sock) && not (send r sock message).1 in
    let (last, rest) = send_each r' message sender socks in
    (last, (if failed then sock ∷ rest else rest))

unfoldable pub broadcast : ClientRegistry → Text → Option ℕ → ClientRegistry × List ℕ
broadcast r message sender = send_each r message sender (snapshot r)

-- the threads of the writers are not stopped
unfoldable pub reset : ClientRegistry → ClientRegistry
reset r = record r {
  sessions = [];
  by_name = [];
  client_ips = [];
  ip_counts = [];
  pending_logins = [];
  writers = [];
  retired = r.retired ++ map (λ e. e.1) r.writers;
}
