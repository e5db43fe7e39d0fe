-- ===== src/Protocol.antt =====
-- src/tlsocket/protocol.py: the commands, the error codes and the lines of the wire.
pub mod Roundtrip
use tlsocket.Prelude.{
  ℕ, Bool, true, false, ◌||◌, ◌≡◌, Option, none, some, List, [], ◌∷◌, ◌++◌, if◌then◌else◌, ◌==◌,
  text_eq,
}
use tlsocket.Text.{Text, codes, is_empty, strip, words, join, Unicode}

pub data Command : Type 0 where
  login register msg kick ban unban set client_ip : Command

pub data ErrorCode : Type 0 where
  already_logged_in banned wrong_auth invalid_format invalid_command : ErrorCode
  rate_limit_exceeded connection_limit_reached permission_denied : ErrorCode
  message_too_long not_authenticated invalid_role : ErrorCode

unfoldable pub command_value : Command → Text
command_value login = codes "LOGIN"
command_value register = codes "REGISTER"
command_value msg = codes "MSG"
command_value kick = codes "KICK"
command_value ban = codes "BAN"
command_value unban = codes "UNBAN"
command_value set = codes "SET"
command_value client_ip = codes "CLIENT_IP"

unfoldable pub error_value : ErrorCode → Text
error_value already_logged_in = codes "ALREADY_LOGGED_IN"
error_value banned = codes "BANNED"
error_value wrong_auth = codes "WRONG_AUTH"
error_value invalid_format = codes "INVALID_FORMAT"
error_value invalid_command = codes "INVALID_COMMAND"
error_value rate_limit_exceeded = codes "RATE_LIMIT_EXCEEDED"
error_value connection_limit_reached = codes "CONNECTION_LIMIT_REACHED"
error_value permission_denied = codes "PERMISSION_DENIED"
error_value message_too_long = codes "MESSAGE_TOO_LONG"
error_value not_authenticated = codes "NOT_AUTHENTICATED"
error_value invalid_role = codes "INVALID_ROLE"

abbrev pub newline : Text
newline = b'\n' ∷ []

abbrev pub space : Text
space = b' ' ∷ []

abbrev all_commands : List Command
all_commands = login ∷ register ∷ msg ∷ kick ∷ ban ∷ unban ∷ set ∷ client_ip ∷ []

-- Command(name): the member with that value, `none` for the ValueError
unfoldable pub find_command : Text → List Command → Option Command
find_command name [] = none
find_command name (c ∷ cs) = if command_value c == name then some c else find_command name cs

unfoldable pub command_of : Text → Option Command
unfolding find_command
command_of name = find_command name all_commands

unfoldable pub parse_words : Unicode → List Text → Option Command × List Text
parse_words u [] = (none, [])
parse_words u (first ∷ rest) = elim (command_of (u.upper first)) [
  | none ↦ (none, [])
  | some c ↦ (some c, rest)
]

-- parse_command
unfoldable pub parse_command : Unicode → Text → Option Command × List Text
parse_command u line =
    if is_empty line || is_empty (strip line)
    then (none, [])
    else parse_words u (words (strip line))

-- ok
unfoldable pub ok : Text → Text
ok detail =
    if is_empty detail then codes "OK" ++ newline else codes "OK" ++ (space ++ (detail ++ newline))

-- error
unfoldable pub error : ErrorCode → Text → Text
error code detail =
    if is_empty detail
    then codes "ERR " ++ (error_value code ++ newline)
    else codes "ERR " ++ (error_value code ++ (space ++ (detail ++ newline)))

-- chat_message: `none` for the ValueError
unfoldable pub chat_message : Text → Option Text
chat_message text = if is_empty text then none else some (codes "MSG " ++ (text ++ newline))

-- format_command
unfoldable pub format_command : Command → List Text → Text
format_command command args =
    let parts = join args in
    if is_empty parts
    then command_value command ++ newline
    else command_value command ++ (space ++ (parts ++ newline))
