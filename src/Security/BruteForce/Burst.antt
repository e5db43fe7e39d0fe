-- ===== src/Security/BruteForce/Burst.antt =====
-- Failed logins of one address in one window.
use tlsocket.Prelude.{
  ℕ, suc, ◌+◌, ◌*◌, ◌≤◌, ◌<◌, Bool, true, false, ◌≡◌, refl, some, List, [], ◌∷◌, ◌++◌, arith,
  if◌then◌else◌, leb, length, length-append, text_eq, ==_refl, keep, every, every-append, ap, ◌∙◌,
}
use tlsocket.Dict.{lookup}
use tlsocket.Text.{Text}
use tlsocket.Security.BruteForce.{
  Detector, LogRecord, second, in_window, history, note_attempt, block, is_ignored, count_attempt,
  process_record, process_all,
}
use tlsocket.Security.BruteForce.Blocking.{block_end, lookup-block, noted, history-noted}

keep-every {ℓ} : {A : Type ℓ} (p : A → Bool) (xs : List A) → every p xs ≡ true → keep p xs ≡ xs
unfolding keep every
keep-every p [] h = refl
keep-every p (x ∷ xs) h = ground (arith, keep-every p xs)

-- times that are not before `from` stay in the window up to its end
every-in_window :
    (d : Detector) (from now : ℕ) (ts : List ℕ)
    → now ≤ from + d.window_seconds * second
    → every (leb from) ts ≡ true
    → every (in_window d now) ts ≡ true
unfolding every
every-in_window d from now [] le h = refl
every-in_window d from now (t ∷ ts) le h = ground (arith, every-in_window d from now ts)

-- Failed logins of one address within the window that begins at `from`.
abbrev pub IsBurst : Detector → Text → ℕ → List LogRecord → Type 0
IsBurst d ip from [] = Unit
IsBurst d ip from (r ∷ rs) =
    (is_ignored r ≡ false)
    × (r.ip ≡ ip)
    × (from ≤ r.timestamp)
    × (r.timestamp ≤ from + d.window_seconds * second)
    × IsBurst d ip from rs

abbrev pub last_timestamp : ℕ → List LogRecord → ℕ
last_timestamp t [] = t
last_timestamp t (r ∷ rs) = last_timestamp r.timestamp rs

abbrev pub Fits : Detector → Text → ℕ → Type 0
Fits d ip from = every (leb from) (history d ip) ≡ true

every-noted :
    (d : Detector) (ip : Text) (from now : ℕ)
    → Fits d ip from
    → from ≤ now
    → every (leb from) (history d ip ++ now ∷ []) ≡ true
unfolding every
every-noted d ip from now fits ge =
    rw (every-append (leb from) (history d ip) (now ∷ [])) (ground arith)

attempt_in_window :
    (d : Detector) (ip : Text) (from now : ℕ)
    → Fits d ip from
    → from ≤ now
    → now ≤ from + d.window_seconds * second
    → note_attempt d ip now ≡ history d ip ++ now ∷ []
unfolding note_attempt
attempt_in_window d ip from now fits ge le =
    keep-every (in_window d now) (history d ip ++ now ∷ [])
      (every-in_window d from now (history d ip ++ now ∷ []) le (every-noted d ip from now fits ge))

count_step :
    (d : Detector) (ip : Text) (from now : ℕ)
    → Fits d ip from
    → from ≤ now
    → now ≤ from + d.window_seconds * second
    → count_attempt d ip now ≡ (
        if leb d.max_attempts (length (history d ip) + 1)
        then block (noted d ip now) ip now (length (history d ip) + 1)
        else noted d ip now)
unfolding count_attempt
count_step d ip from now fits ge le = rw (attempt_in_window d ip from now fits ge le, length-append)

counted :
    (d : Detector) (ip : Text) (r : LogRecord)
    → is_ignored r ≡ false
    → r.ip ≡ ip
    → process_record d r ≡ count_attempt d ip r.timestamp
unfolding process_record
counted d ip r counts here = rw (counts, here)

-- the last attempt blocks
last_attempt :
    (d : Detector) (ip : Text) (from now : ℕ)
    → Fits d ip from
    → from ≤ now
    → now ≤ from + d.window_seconds * second
    → length (history d ip) + 1 ≡ d.max_attempts
    → lookup ip (count_attempt d ip now).blocked_ips ≡ some (block_end d ip now)
last_attempt d ip from now fits ge le n = ground (
  arith,
  count_step d ip from now fits ge le,
  lookup-block (noted d ip now) ip ip now (length (history d ip) + 1),
  ==_refl ip,
)

-- an earlier one is noted
earlier_attempt :
    (d : Detector) (ip : Text) (from now : ℕ)
    → Fits d ip from
    → from ≤ now
    → now ≤ from + d.window_seconds * second
    → length (history d ip) + 1 < d.max_attempts
    → count_attempt d ip now ≡ noted d ip now
earlier_attempt d ip from now fits ge le n = ground (arith, count_step d ip from now fits ge le)

history-after :
    (d : Detector) (ip : Text) (from now : ℕ)
    → Fits d ip from
    → from ≤ now
    → now ≤ from + d.window_seconds * second
    → history (noted d ip now) ip ≡ history d ip ++ now ∷ []
history-after d ip from now fits ge le =
    rw (history-noted d ip ip now, ==_refl ip) (attempt_in_window d ip from now fits ge le)

-- what `noted` does not change
IsBurst-noted :
    (d : Detector) (ip jp : Text) (from now : ℕ) (rs : List LogRecord)
    → IsBurst d ip from rs
    → IsBurst (noted d jp now) ip from rs
IsBurst-noted d ip jp from now [] b = tt
IsBurst-noted d ip jp from now (r ∷ rs) (i, same, ge, le, b) =
    (i, same, ge, le, IsBurst-noted d ip jp from now rs b)

-- Failed logins of one address, all within one window that also covers the attempts noted before,
-- which together are as many as the limit, block the address: until the last of them and the duration
-- that the number of its violations calls for.
pub burst_blocks :
    (d : Detector) (ip : Text) (from : ℕ) (rs : List LogRecord)
    → IsBurst d ip from rs
    → Fits d ip from
    → 0 < length rs
    → length (history d ip) + length rs ≡ d.max_attempts
    → lookup ip (process_all d rs).blocked_ips ≡ some (block_end d ip (last_timestamp 0 rs))
unfolding process_all
burst_blocks d ip from [] b fits pos n = absurd (omega arith)
burst_blocks d ip from (r ∷ []) (i, same, ge, le, _) fits pos n =
    rw (counted d ip r i same) (last_attempt d ip from r.timestamp fits ge le n)
burst_blocks d ip from (r ∷ s ∷ rs) (i, same, ge, le, b) fits pos n =
    let now = r.timestamp in
    let after = history-after d ip from now fits ge le in
    let fits' : Fits (noted d ip now) ip from = rw after (every-noted d ip from now fits ge) in
    let n' : length (history (noted d ip now) ip) + suc (length rs) ≡ d.max_attempts =
      rw (after, length-append) (omega arith) in
    let e = counted d ip r i same ∙ earlier_attempt d ip from now fits ge le (omega arith) in
    ap (λ x. lookup ip (process_all x (s ∷ rs)).blocked_ips) e
    ∙ burst_blocks (noted d ip now) ip from (s ∷ rs) (IsBurst-noted d ip ip from now (s ∷ rs) b)
        fits' (omega arith) n'
