-- ===== src/Client/Screen.antt =====
-- `receive` of src/tlsocket/client_side/client_management/connection.py: what the thread writes to the terminal for the lines that
-- `read_line` gives. The flag `stop_threads` is seen before each line.
pub mod Relay
use tlsocket.Prelude.{
  ℕ, Bool, true, false, Option, none, some, List, [], ◌∷◌, ◌++◌, if◌then◌else◌, not,
}
use tlsocket.Text.{Text, codes, starts_with, drop}

-- the flag that both threads share, what was written, and whether the socket was closed
pub record Terminal : Type 0 where
  pub stop_threads : Bool
  pub shown : Text
  pub closed : Bool

-- to the start of the line, which is cleared
abbrev pub clear : Text
clear = b'\r' ∷ (0x1B ∷ codes "[K")

unfoldable pub prompt : Text → Text
prompt nickname = nickname ++ codes ": "

unfoldable pub show_line : Text → Text → Text
show_line nickname line =
    if starts_with (codes "MSG ") line
    then clear ++ (drop 4 line ++ (b'\n' ∷ prompt nickname))
    else if starts_with (codes "ERR ") line
    then clear ++ (codes "[Error] " ++ (drop 4 line ++ (b'\n' ∷ prompt nickname)))
    else []

unfoldable pub stop : Text → Terminal → Terminal
stop text t = record { stop_threads = true; shown = t.shown ++ text; closed = true }

unfoldable pub receive : Text → List (Option Text) → Terminal → Terminal
receive nickname [] t = t
receive nickname (none ∷ lines) t =
    if t.stop_threads
    then t
    else stop (clear ++ (codes "Server closed connection." ++ b'\n' ∷ [])) t
receive nickname (some line ∷ lines) t =
    let rest = receive nickname lines (record t { shown = t.shown ++ show_line nickname line }) in
    if t.stop_threads then t else rest
