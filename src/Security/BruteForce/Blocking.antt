-- ===== src/Security/BruteForce/Blocking.antt =====
-- How long a block lasts, and what a record of one address leaves alone.
use tlsocket.Prelude.{
  ℕ, ◌+◌, ◌*◌, ◌<◌, ◌≡◌, refl, ◌≢◌, some, [], arith, if◌then◌else◌, leb, length, ◌==◌, text_eq,
  text_beq_iff, ==_refl,
}
use tlsocket.Dict.{lookup, insert}
use tlsocket.Dict.Laws.{lookup-insert}
use tlsocket.Text.{Text}
use tlsocket.Security.BruteForce.{
  Detector, LogRecord, second, save_state, multiplier, violations, get_ban_duration, is_ip_blocked,
  history, note_attempt, block, count_attempt, process_record,
}

-- The end of the block that the next violation of an address brings.
abbrev pub block_end : Detector → Text → ℕ → ℕ
block_end d ip now = now + d.block_duration * multiplier (violations d ip + 1) * second

pub lookup-block :
    (d : Detector) (ip jp : Text) (now n : ℕ)
    → lookup jp (block d ip now n).blocked_ips
      ≡ (if ip == jp then some (block_end d ip now) else lookup jp d.blocked_ips)
unfolding block save_state get_ban_duration
lookup-block d ip jp now n =
    simp lookup-insert (ground (arith, text_beq_iff ip ip, text_beq_iff ip jp))

pub violations-block :
    (d : Detector) (ip jp : Text) (now n : ℕ)
    → violations (block d ip now n) jp ≡ (if ip == jp then violations d ip + 1 else violations d jp)
unfolding block save_state
violations-block d ip jp now n = simp lookup-insert (ground arith)

blocked_by :
    (d : Detector) (ip : Text) (until now : ℕ)
    → lookup ip d.blocked_ips ≡ some until
    → (is_ip_blocked d ip now).1 ≡ leb now until
unfolding is_ip_blocked
blocked_by d ip until now h = ground arith

-- After a block the address is refused exactly up to the time of the block and the duration that the
-- number of its violations calls for.
pub blocked-block :
    (d : Detector) (ip : Text) (now n later : ℕ)
    → (is_ip_blocked (block d ip now n) ip later).1 ≡ leb later (block_end d ip now)
blocked-block d ip now n later =
    blocked_by (block d ip now n) ip (block_end d ip now) later
      (rw (lookup-block d ip ip now n, ==_refl ip) refl)

pub history-block :
    (d : Detector) (ip jp : Text) (now n : ℕ)
    → history (block d ip now n) jp ≡ (if ip == jp then [] else history d jp)
unfolding block save_state
history-block d ip jp now n = simp lookup-insert (ground arith)

-- The detector with the new attempt noted.
abbrev pub noted : Detector → Text → ℕ → Detector
noted d ip now = record d {
  failed_attempts_history = insert ip (note_attempt d ip now) d.failed_attempts_history;
}

pub history-noted :
    (d : Detector) (ip jp : Text) (now : ℕ)
    → history (noted d ip now) jp ≡ (if ip == jp then note_attempt d ip now else history d jp)
history-noted d ip jp now = simp lookup-insert (ground arith)

-- What the detector knows of an address.
abbrev pub SameAt : Detector → Detector → Text → Type 0
SameAt d d' jp =
    (history d' jp ≡ history d jp)
    × (violations d' jp ≡ violations d jp)
    × (lookup jp d'.blocked_ips ≡ lookup jp d.blocked_ips)

-- A record leaves all that the detector knows of every other address as it was.
pub process_record-SameAt :
    (d : Detector) (r : LogRecord) (jp : Text) → r.ip ≢ jp → SameAt d (process_record d r) jp
unfolding process_record count_attempt
process_record-SameAt d r jp h =
    let n = length (note_attempt d r.ip r.timestamp) in
    let d' = noted d r.ip r.timestamp in
    ground (
      arith,
      text_beq_iff r.ip jp,
      history-noted d r.ip jp r.timestamp,
      history-block d' r.ip jp r.timestamp n,
      violations-block d' r.ip jp r.timestamp n,
      lookup-block d' r.ip jp r.timestamp n,
    )

-- No address has as many attempts noted as the limit.
abbrev pub IsBelow : Detector → Type 0
IsBelow d = (ip : Text) → length (history d ip) < d.max_attempts

max_attempts-block :
    (d : Detector) (ip : Text) (now n : ℕ) → (block d ip now n).max_attempts ≡ d.max_attempts
unfolding block save_state
max_attempts-block d ip now n = refl

-- A positive limit is never reached by the attempts that stay noted: reaching it clears them.
pub process_record-IsBelow :
    (d : Detector) (r : LogRecord) → 0 < d.max_attempts → IsBelow d → IsBelow (process_record d r)
unfolding process_record count_attempt
process_record-IsBelow d r pos h jp =
    let n = length (note_attempt d r.ip r.timestamp) in
    let d' = noted d r.ip r.timestamp in
    ground (
      arith,
      h jp,
      history-noted d r.ip jp r.timestamp,
      history-block d' r.ip jp r.timestamp n,
      max_attempts-block d' r.ip r.timestamp n,
    )
