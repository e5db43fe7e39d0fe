-- ===== src/Security/BruteForce/Restart.antt =====
-- The file of the state, and a detector that starts from it.
use tlsocket.Prelude.{
  ℕ, ◌*◌, ◌/◌, Bool, true, ◌≡◌, refl, Option, none, some, List, [], ◌∷◌, arith, if◌then◌else◌,
  get_or, text_eq, text_beq_iff, distinct, leb, length, is_some, if_both, ap, ◌∙◌, Option-cases,
  inl, inr, ltb,
}
use tlsocket.Dict.{lookup, insert, remove, keys}
use tlsocket.Dict.Laws.{lookup-insert}
use tlsocket.Dict.Keys.{contains-keys, insert-distinct, remove-distinct}
use tlsocket.Text.{Text}
use tlsocket.Security.BruteForce.{
  Detector, LogRecord, StateFile, second, to_seconds, save_state, load_counts, load_times,
  load_state, init, violations, is_ip_blocked, block, note_attempt, count_attempt, process_record,
  is_ignored,
}

abbrev empty_file : StateFile
empty_file = record { violation_count = []; blocked_seconds = [] }

-- The file holds the counts and the blocks (a missing file: there are none), each address once.
pub record IsSaved (d : Detector) : Type 0 where
  pub in_step :
      get_or d.db_file empty_file
      ≡ record { violation_count = d.violation_count; blocked_seconds = to_seconds d.blocked_ips }
  pub counts_once : distinct (keys d.violation_count) ≡ true
  pub blocks_once : distinct (keys d.blocked_ips) ≡ true

block-IsSaved : (d : Detector) (ip : Text) (now n : ℕ) → IsSaved d → IsSaved (block d ip now n)
unfolding block save_state
block-IsSaved d ip now n h = record {
  in_step = refl;
  counts_once = insert-distinct ip _ d.violation_count h.counts_once;
  blocks_once = insert-distinct ip _ d.blocked_ips h.blocks_once;
}

count_attempt-IsSaved :
    (d : Detector) (ip : Text) (now : ℕ) → IsSaved d → IsSaved (count_attempt d ip now)
unfolding count_attempt
count_attempt-IsSaved d ip now h =
    let recent = note_attempt d ip now in
    let noted = record d { failed_attempts_history = insert ip recent d.failed_attempts_history } in
    let kept : IsSaved noted = record {
      in_step = h.in_step;
      counts_once = h.counts_once;
      blocks_once = h.blocks_once;
    } in
    if_both IsSaved (leb d.max_attempts (length recent))
      (block-IsSaved noted ip now (length recent) kept) kept

-- Counting a record keeps the file in step.
pub process_record-IsSaved :
    (d : Detector) (r : LogRecord) → IsSaved d → IsSaved (process_record d r)
unfolding process_record
process_record-IsSaved d r h =
    if_both IsSaved (is_ignored r) h (count_attempt-IsSaved d r.ip r.timestamp h)

drop-IsSaved :
    (d : Detector) (ip : Text)
    → IsSaved d
    → IsSaved (save_state (record d { blocked_ips = remove ip d.blocked_ips }))
unfolding save_state
drop-IsSaved d ip h = record {
  in_step = refl;
  counts_once = h.counts_once;
  blocks_once = remove-distinct ip d.blocked_ips h.blocks_once;
}

-- Asking for a block, which drops one that has run out, keeps the file in step.
pub is_ip_blocked-IsSaved :
    (d : Detector) (ip : Text) (now : ℕ) → IsSaved d → IsSaved (is_ip_blocked d ip now).0
unfolding is_ip_blocked
is_ip_blocked-IsSaved d ip now h = elim (Option-cases (lookup ip d.blocked_ips)) [
  | inl free ↦ rw (free, is_ip_blocked) h
  | inr (until, held) ↦
      rw (held, is_ip_blocked)
        (if_both (λ (r : Detector × Bool). IsSaved r.0) (ltb until now) (drop-IsSaved d ip h) h)
]

lookup-load_counts :
    (ip : Text) (file d : List (Text × ℕ))
    → distinct (keys file) ≡ true
    → lookup ip (load_counts file d)
      ≡ (if is_some (lookup ip file) then lookup ip file else lookup ip d)
unfolding load_counts lookup distinct
lookup-load_counts ip [] d h = refl
lookup-load_counts ip ((j, n) ∷ file) d h = ground (
  arith,
  text_beq_iff j ip,
  contains-keys j file,
  lookup-insert j ip n d,
  lookup-load_counts ip file (insert j n d),
)

-- A block as the file has it: to the second.
abbrev pub floored : Option ℕ → Option ℕ
floored none = none
floored (some t) = some (t / second * second)

lookup-load_times :
    (ip : Text) (blocked d : List (Text × ℕ))
    → distinct (keys blocked) ≡ true
    → lookup ip (load_times (to_seconds blocked) d)
      ≡ (if is_some (lookup ip blocked) then floored (lookup ip blocked) else lookup ip d)
unfolding load_times to_seconds lookup distinct
lookup-load_times ip [] d h = refl
lookup-load_times ip ((j, t) ∷ blocked) d h = ground (
  arith,
  text_beq_iff j ip,
  contains-keys j blocked,
  lookup-insert j ip (t / second * second) d,
  lookup-load_times ip blocked (insert j (t / second * second) d),
)

loaded :
    (m w b : ℕ) (file : Option StateFile)
    → ((init m w b file).violation_count ≡ load_counts (get_or file empty_file).violation_count [])
      × ((init m w b file).blocked_ips ≡ load_times (get_or file empty_file).blocked_seconds [])
unfolding init load_state load_counts load_times
loaded m w b none = (refl, refl)
loaded m w b (some f) = (refl, refl)

or_none {ℓ} : {A : Type ℓ} (o : Option A) → (if is_some o then o else none) ≡ o
or_none none = refl
or_none (some a) = refl

floored_or_none : (o : Option ℕ) → (if is_some o then floored o else none) ≡ floored o
floored_or_none none = refl
floored_or_none (some t) = refl

counts_back :
    (d : Detector) (m w b : ℕ) (ip : Text)
    → IsSaved d
    → lookup ip (init m w b d.db_file).violation_count ≡ lookup ip d.violation_count
unfolding lookup
counts_back d m w b ip h =
    ap (lookup ip) (
      (loaded m w b d.db_file).0
      ∙ ap (λ (f : StateFile). load_counts f.violation_count []) h.in_step)
    ∙ lookup-load_counts ip d.violation_count [] h.counts_once
    ∙ or_none (lookup ip d.violation_count)

blocks_back :
    (d : Detector) (m w b : ℕ) (ip : Text)
    → IsSaved d
    → lookup ip (init m w b d.db_file).blocked_ips ≡ floored (lookup ip d.blocked_ips)
unfolding lookup
blocks_back d m w b ip h =
    ap (lookup ip) (
      (loaded m w b d.db_file).1
      ∙ ap (λ (f : StateFile). load_times f.blocked_seconds []) h.in_step)
    ∙ lookup-load_times ip d.blocked_ips [] h.blocks_once
    ∙ floored_or_none (lookup ip d.blocked_ips)

-- A detector that starts from the file of another, whose file is in step, has its count for every
-- address, and its blocks with their ends cut to the second.
pub restart :
    (d : Detector) (m w b : ℕ) (ip : Text)
    → IsSaved d
    → (violations (init m w b d.db_file) ip ≡ violations d ip)
      × (lookup ip (init m w b d.db_file).blocked_ips ≡ floored (lookup ip d.blocked_ips))
restart d m w b ip h =
    (ap (λ (o : Option ℕ). get_or o 0) (counts_back d m w b ip h), blocks_back d m w b ip h)

-- Records and questions about addresses, in the order in which the lock lets them in.
pub data Event : Type 0 where
  record_of : LogRecord → Event
  ask : Text → ℕ → Event

unfoldable pub serve : Detector → List Event → Detector
serve d [] = d
serve d (record_of r ∷ es) = serve (process_record d r) es
serve d (ask ip now ∷ es) = serve (is_ip_blocked d ip now).0 es

pub serve-IsSaved : (d : Detector) (es : List Event) → IsSaved d → IsSaved (serve d es)
unfolding serve
serve-IsSaved d [] h = h
serve-IsSaved d (record_of r ∷ es) h =
    serve-IsSaved (process_record d r) es (process_record-IsSaved d r h)
serve-IsSaved d (ask ip now ∷ es) h =
    serve-IsSaved (is_ip_blocked d ip now).0 es (is_ip_blocked-IsSaved d ip now h)

pub init-IsSaved : (m w b : ℕ) → IsSaved (init m w b none)
unfolding init load_state to_seconds distinct
init-IsSaved m w b = record { in_step = refl; counts_once = refl; blocks_once = refl }

-- Whatever a detector that began without a file has served, one that starts from its file has its count
-- for every address, and its blocks with their ends cut to the second.
pub restart-serve :
    (m w b : ℕ) (es : List Event) (ip : Text)
    → (violations (init m w b (serve (init m w b none) es).db_file) ip
        ≡ violations (serve (init m w b none) es) ip)
      × (lookup ip (init m w b (serve (init m w b none) es).db_file).blocked_ips
          ≡ floored (lookup ip (serve (init m w b none) es).blocked_ips))
restart-serve m w b es ip =
    restart (serve (init m w b none) es) m w b ip
      (serve-IsSaved (init m w b none) es (init-IsSaved m w b))
