-- ===== src/Client/Login.antt =====
-- `main` of src/tlsocket/client_side/client.py, up to the two threads, and
-- src/tlsocket/client_side/client_management/instructions.py.
pub mod Welcome
pub mod Early
use tlsocket.Prelude.{
  ℕ, Bool, true, false, Option, none, some, List, [], ◌∷◌, ◌++◌, if◌then◌else◌, ◌==◌, text_eq,
  String, length,
}
use tlsocket.Text.{Text, Unicode, codes, starts_with, drop, strip}
use tlsocket.Protocol.{Command, login, register, format_command}
use tlsocket.Auth.Rbac
use tlsocket.Auth.Rbac.{has_permission}
use tlsocket.Server.Messages.{rule}
use tlsocket.Client.Dial.{Dialed, connected, raised, unreachable, rejected}

-- s.split(p)[1], `none` where p does not occur in s
unfoldable pub before : Text → Text → Text
before p [] = []
before p (c ∷ s) = let rest = before p s in if starts_with p (c ∷ s) then [] else c ∷ rest

unfoldable pub after : Text → Text → Option Text
after p [] = none
after p (c ∷ s) =
    let rest = after p s in if starts_with p (c ∷ s) then some (drop (length p) (c ∷ s)) else rest

unfoldable pub split_second : Text → Text → Option Text
split_second p s = elim (after p s) [ none ↦ none | some rest ↦ some (before p rest) ]

-- What one round asks for, the line that comes back (`none` also for an OSError), and how a new connection goes.
pub record Round : Type 0 where
  pub choice : Text
  pub username : Text
  pub password : Text
  pub line : Option Text
  pub redialed : Dialed

-- in the chat, with nickname and role; asking again; or out of the program, the exceptions included
pub data Stage : Type 0 where
  entered : Text → Text → Stage
  asking exited : Stage

-- the command of a choice; any other choice asks again
unfoldable pub chosen : Text → Option Command
chosen choice =
    if choice == codes "1" then some login else if choice == codes "2" then some register else none

-- the line that goes to the server for a choice
unfoldable pub request : Round → Option Text
request r = elim (chosen (strip r.choice)) [
  | none ↦ none
  | some command ↦ some (format_command command (strip r.username ∷ strip r.password ∷ []))
]

unfoldable pub user_role : Text → Text
user_role line = elim (split_second (codes "role:") line) [
  | none ↦ codes "user"
  | some text ↦ strip text
]

-- the socket is gone
unfoldable pub redial : Dialed → Stage × List Text
redial connected = (asking, codes ">> Server closed connection - Retrying..." ∷ [])
redial (rejected detail) = (
  exited,
  codes ">> Server closed connection - Retrying..." ∷ (codes "Connection refused: " ++ detail) ∷ [],
)
redial raised = (exited, codes ">> Server closed connection - Retrying..." ∷ [])
redial unreachable = (exited, codes ">> Server closed connection - Retrying..." ∷ [])

-- the answer to a log-in
unfoldable pub login_answer : Text → Text → Stage × List Text
login_answer username line =
    if starts_with (codes "OK") line
    then (entered username (user_role line), codes ">> Login successfully!" ∷ [])
    else (asking, (codes ">> Login error: " ++ line) ∷ [])

-- the stage after a round, with what is printed
unfoldable pub round : Round → Stage × List Text
round r = elim (chosen (strip r.choice)) [
  | none ↦ (asking, [])
  | some command ↦ elim r.line [
    | none ↦ redial r.redialed
    | some line ↦
        if strip r.choice == codes "1"
        then login_answer (strip r.username) line
        else (asking, (codes ">> Register announcement: " ++ line) ∷ [])
  ]
]

-- the loop; after the rounds it waits for more
unfoldable pub authenticate : List Round → Stage × List Text
authenticate [] = (asking, [])
authenticate (r ∷ rounds) = elim (round r).0 [
  | entered nickname role ↦ round r
  | exited ↦ round r
  | asking ↦ ((authenticate rounds).0, (round r).1 ++ (authenticate rounds).1)
]

abbrev pub print_if : Bool → String → List Text
print_if b text = if b then codes text ∷ [] else []

unfoldable pub print_instructions : Text → List Text
print_instructions role =
    (rule
      ∷ codes " CHAT INSTRUCTIONS:"
      ∷ codes " - Enter a message and press Enter to send."
      ∷ codes " - Type '/quit' or '/exit' to leave the chat room."
      ∷ [])
    ++ (print_if (has_permission role Rbac.kick)
          " - Type '/kick' <user_name> to kick a user out of the chat room"
        ++ (print_if (has_permission role Rbac.ban)
              " - Type '/ban' <user_name> to ban a user from the chat room"
            ++ (print_if (has_permission role Rbac.unban)
                  " - Type '/unban' <user_name> to unban a user"
                ++ (print_if (has_permission role Rbac.set)
                      " - Type '/set' <username> <role> to set a new role for a user"
                    ++ rule ∷ []))))

abbrev pub instructions_at : Stage → List Text
instructions_at (entered nickname role) = print_instructions role
instructions_at asking = []
instructions_at exited = []

-- What stands on the terminal until the two threads start; `trouble` is the text of an exception of the first connection.
unfoldable pub main : Dialed → Text → List Round → Stage × List Text
main (rejected detail) trouble rounds = (exited, (codes "Connection refused: " ++ detail) ∷ [])
main raised trouble rounds = (exited, (codes "Connection error: " ++ trouble) ∷ [])
main unreachable trouble rounds = (exited, [])
main connected trouble rounds =
    let (stage, printed) = authenticate rounds in
    (stage, codes "=== CHAT SYSTEM AUTHENTICATION ===" ∷ (printed ++ instructions_at stage))
