-- ===== src/Client/Input.antt =====
-- `write` of src/tlsocket/client_side/client_management/connection.py: what is typed, and what goes to the server for it. Each
-- input comes with the answer of the socket, should it be sent; `none` is the end of the input or the interrupt.
pub mod Commands
pub mod Handled
use tlsocket.Prelude.{
  ℕ, Bool, true, false, ◌||◌, Option, none, some, List, [], ◌∷◌, ◌++◌, if◌then◌else◌, ◌==◌, text_eq,
}
use tlsocket.Text.{Text, Unicode, codes, is_empty, starts_with, drop, strip, split_first, normalise}
use tlsocket.Protocol.{Command, kick, ban, unban, set, format_command, chat_message}
use tlsocket.Client.Screen.{Terminal, clear, stop}

pub data Typed : Type 0 where
  leave nothing : Typed
  usage sent : Text → Typed

-- a command on one name
unfoldable pub on_name : Command → Text → Text → Typed
on_name command target text =
    if is_empty target
    then usage (codes "Usage: " ++ text)
    else sent (format_command command (target ∷ []))

unfoldable pub set_line : Unicode → List Text → Typed
set_line u (first ∷ second ∷ []) =
    sent (format_command set (normalise u first ∷ normalise u second ∷ []))
set_line u _ = usage (codes "Usage: /set <username> <role>")

-- `chat_message` does not raise, since the input is not empty
unfoldable pub chat_line : Text → Typed
chat_line user_input = elim (chat_message user_input) [
  | none ↦ nothing
  | some message ↦ sent message
]

unfoldable pub typed : Unicode → Text → Typed
typed u user_input =
    let cmd = strip user_input in
    let low = u.lower cmd in
    if is_empty user_input
    then nothing
    else if low == codes "/quit" || low == codes "/exit"
    then leave
    else if starts_with (codes "/kick ") low
    then on_name kick (strip (drop 6 cmd)) (codes "/kick <username>")
    else if starts_with (codes "/ban ") low
    then on_name ban (strip (drop 5 cmd)) (codes "/ban <username>")
    else if starts_with (codes "/unban ") low
    then on_name unban (strip (drop 7 cmd)) (codes "/unban <username>")
    else if starts_with (codes "/set ") low
    then set_line u (split_first (strip (drop 5 cmd)))
    else if is_empty cmd
    then nothing
    else chat_line user_input

-- how `client.send` ends: or the text of its exception
abbrev pub Sending : Type 0
Sending = Option Text

-- the sent lines, with the terminal; the prompts of `input` are left out
unfoldable pub write : Unicode → List (Option (Text × Sending)) → Terminal → List Text × Terminal
write u [] t = ([], t)
write u (none ∷ inputs) t = (
  [],
  (if t.stop_threads
      then t
      else stop (clear ++ (codes "[!] Exiting via keyboard shortcut..." ++ b'\n' ∷ [])) t),
)
write u (some (user_input, sending) ∷ inputs) t =
    elim (if t.stop_threads then none else some (typed u user_input)) [
      | none ↦ ([], t)
      | some leave ↦ ([], stop (clear ++ (codes "Disconnecting from server..." ++ b'\n' ∷ [])) t)
      | some nothing ↦ write u inputs t
      | some (usage text) ↦ write u inputs (record t { shown = t.shown ++ (text ++ b'\n' ∷ []) })
      | some (sent message) ↦ elim sending [
        | none ↦ (message ∷ (write u inputs t).0, (write u inputs t).1)
        | some e ↦
            ([], record t { shown = t.shown ++ (clear ++ (codes "Error: " ++ (e ++ b'\n' ∷ []))) })
      ]
    ]
