-- ===== src/Security/Validation.antt =====
-- src/tlsocket/security/validation.py. A check returns its verdict and the text of the error; `isinstance`
-- is decided by the types.
pub mod Names
pub mod Messages
use tlsocket.Prelude.{
  ℕ, Bool, true, false, ◌&&◌, ◌||◌, ◌≡◌, List, [], ◌∷◌, ◌++◌, if◌then◌else◌, ◌==◌, text_eq, nat_eq,
  ltb, leb, nat_beq, contains, length, not,
}
use tlsocket.Text.{Text, codes, is_empty, strip, words, decimal, Unicode}
use tlsocket.Config.{min_nickname_length, max_nickname_length, max_message_length}

abbrev pub ok_text : Text
ok_text = codes "OK"

-- [a-zA-Z0-9_]
unfoldable pub nick_char : ℕ → Bool
nick_char c =
    leb b'a' c && leb c b'z'
    || leb b'A' c && leb c b'Z'
    || leb b'0' c && leb c b'9'
    || nat_beq c b'_'

-- `$` also matches before a last newline
unfoldable pub nick_rest : Text → Bool
nick_rest [] = true
nick_rest (c ∷ []) = nick_char c || nat_beq c b'\n'
nick_rest (c ∷ d ∷ s) = nick_char c && nick_rest (d ∷ s)

-- NICKNAME_REGEX.match
unfoldable pub nickname_regex : Text → Bool
nickname_regex [] = false
nickname_regex (c ∷ s) = nick_char c && nick_rest s

abbrev pub forbidden_nickname : Text
forbidden_nickname = codes "admin"

unfoldable pub validate_stripped : Text → Bool × Text
validate_stripped nickname =
    if ltb (length nickname) min_nickname_length || ltb max_nickname_length (length nickname)
    then (
      false,
      codes "INVALID_LENGTH Nickname must be between "
          ++ (decimal min_nickname_length
              ++ (codes " and " ++ (decimal max_nickname_length ++ codes " characters."))),
    )
    else if not (nickname_regex nickname)
    then (
      false,
      codes "INVALID_CHARACTERS Nickname can only contain alphanumeric characters and underscores.",
    )
    else if nickname == forbidden_nickname
    then (false, codes "FORBIDDEN_NICKNAME Nickname cannot be 'admin'.")
    else (true, ok_text)

unfoldable pub validate_nickname : Text → Bool × Text
validate_nickname nickname =
    if is_empty nickname
    then (false, codes "EMPTY_NICKNAME Nickname cannot be empty.")
    else if contains nickname 0 || contains nickname b'\n' || contains nickname b'\r'
    then (false, codes "INVALID_CHARACTERS Nickname cannot contain null or newline characters.")
    else validate_stripped (strip nickname)

-- unicodedata.category(c) == "Cc"
unfoldable pub is_control : ℕ → Bool
is_control c = ltb c 32 || leb 127 c && leb c 159

unfoldable pub any_control : Text → Bool
any_control [] = false
any_control (c ∷ s) = is_control c || any_control s

unfoldable pub validate_message : Text → Bool × Text
validate_message message =
    if is_empty message
    then (false, codes "EMPTY_MESSAGE Message cannot be empty.")
    else if any_control message
    then (false, codes "INVALID_CHARACTERS Message cannot contain control characters.")
    else if nat_beq (length (strip message)) 0
    then (false, codes "EMPTY_MESSAGE Message cannot be empty or whitespace only.")
    else if ltb max_message_length (length (strip message))
    then (
      false,
      codes "MESSAGE_TOO_LONG Message cannot exceed "
          ++ (decimal max_message_length ++ codes " characters."),
    )
    else (true, ok_text)

-- the tests on the number of arguments; the result is (cmd, args, error)
unfoldable pub check_arguments : Text → List Text → Text × List Text × Text
check_arguments cmd args =
    if contains (codes "KICK" ∷ codes "BAN" ∷ codes "UNBAN" ∷ []) cmd && nat_beq (length args) 0
    then (
      cmd,
      [],
      codes "SYNTAX_USAGE " ++ (cmd ++ codes " command requires at least one argument."),
    )
    else if contains (codes "KICK" ∷ codes "BAN" ∷ codes "UNBAN" ∷ []) cmd && ltb 1 (length args)
    then (
      cmd,
      [],
      codes "TOO_MANY_ARGUMENTS " ++ (cmd ++ codes " command accepts only one argument."),
    )
    else if contains (codes "SET" ∷ []) cmd && not (nat_beq (length args) 2)
    then (
      cmd,
      [],
      codes "SYNTAX_USAGE " ++ (cmd ++ codes " command requires two arguments: <username> <role>."),
    )
    else (cmd, args, ok_text)

abbrev pub empty_command : Text × List Text × Text
empty_command = ([], [], codes "EMPTY_COMMAND Command cannot be empty.")

unfoldable pub check_words : Unicode → List Text → Text × List Text × Text
check_words u [] = empty_command
check_words u (first ∷ args) = check_arguments (u.upper first) args

unfoldable pub parse_and_validate_command : Unicode → Text → Text × List Text × Text
parse_and_validate_command u line =
    if is_empty line || is_empty (strip line)
    then empty_command
    else check_words u (words (strip line))
