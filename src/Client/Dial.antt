-- ===== src/Client/Dial.antt =====
-- `connect` and `connect_with_backoff` of src/tlsocket/client_side/client_management/connection.py. What an attempt meets is
-- an argument: an exception of the socket, or what `read_line` gives in the first 0.2 seconds. Delays are whole
-- seconds, as the only caller's are.
pub mod Backoff
use tlsocket.Prelude.{
  ℕ, zero, suc, ◌+◌, ◌-◌, ◌*◌, Bool, true, false, Option, none, some, List, [], ◌∷◌, if◌then◌else◌,
  leb, nat_beq,
}
use tlsocket.Text.{Text, codes, starts_with, drop}

pub data Answer : Type 0 where
  failed : Answer
  opened : Option Text → Answer

-- the socket, ServerRejectedError with its detail, another exception, or the AssertionError behind the loop
pub data Dialed : Type 0 where
  connected raised unreachable : Dialed
  rejected : Text → Dialed

unfoldable pub connect : Answer → Dialed
connect failed = raised
connect (opened none) = connected
connect (opened (some line)) =
    rejected (if starts_with (codes "ERR ") line then drop 4 line else line)

-- what is printed before the sleep: the detail, the delay and the number of the attempt
pub record Retry : Type 0 where
  pub detail : Text
  pub delay : ℕ
  pub attempt : ℕ

unfoldable pub double : ℕ → ℕ
double delay = if leb (delay * 2) 30 then delay * 2 else 30

-- the loop, with the number of the attempts left
unfoldable pub attempts : (ℕ → Answer) → ℕ → ℕ → ℕ → List Retry × Dialed
attempts answers max_retries zero delay = ([], unreachable)
attempts answers max_retries (suc left) delay =
    let attempt = max_retries - left in
    let (retries, last) = attempts answers max_retries left (double delay) in
    elim (connect (answers attempt)) [
      | connected ↦ ([], connected)
      | raised ↦ ([], raised)
      | unreachable ↦ ([], unreachable)
      | rejected detail ↦
          if nat_beq attempt max_retries
          then ([], rejected detail)
          else (record { detail = detail; delay = delay; attempt = attempt } ∷ retries, last)
    ]

unfoldable pub connect_with_backoff : (ℕ → Answer) → ℕ → ℕ → List Retry × Dialed
connect_with_backoff answers max_retries base_delay =
    attempts answers max_retries max_retries base_delay
