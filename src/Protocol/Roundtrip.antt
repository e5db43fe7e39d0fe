-- ===== src/Protocol/Roundtrip.antt =====
-- Formatting a command and parsing it.
use tlsocket.Prelude.{
  true, false, ◌≡◌, refl, some, List, [], ◌∷◌, ◌++◌, arith, every, append_assoc, ap, Bool-cases,
  inl, inr, ◌∙◌, text_beq,
}
use tlsocket.Text.{
  Text, codes, is_space, is_empty, strip, words, word_split, join, lstrip, rstrip, Unicode,
  ascii_upper,
}
use tlsocket.Text.Words.{is_word, words-strip, words_of_strip_empty, words-append}
use tlsocket.Protocol.{
  Command, login, register, msg, kick, ban, unban, set, client_ip, command_value, command_of,
  parse_words, parse_command, format_command, newline,
}

pub upper-command_value : (u : Unicode) (c : Command) → u.upper (command_value c) ≡ command_value c
unfolding command_value codes every ascii_upper
upper-command_value u login = u.upper_ascii _ refl
upper-command_value u register = u.upper_ascii _ refl
upper-command_value u msg = u.upper_ascii _ refl
upper-command_value u kick = u.upper_ascii _ refl
upper-command_value u ban = u.upper_ascii _ refl
upper-command_value u unban = u.upper_ascii _ refl
upper-command_value u set = u.upper_ascii _ refl
upper-command_value u client_ip = u.upper_ascii _ refl

command_of-command_value : (c : Command) → command_of (command_value c) ≡ some c
unfolding command_value codes command_of text_beq
command_of-command_value login = refl
command_of-command_value register = refl
command_of-command_value msg = refl
command_of-command_value kick = refl
command_of-command_value ban = refl
command_of-command_value unban = refl
command_of-command_value set = refl
command_of-command_value client_ip = refl

command_value-is_word : (c : Command) → is_word (command_value c) ≡ true
unfolding command_value codes every is_space is_empty
command_value-is_word login = refl
command_value-is_word register = refl
command_value-is_word msg = refl
command_value-is_word kick = refl
command_value-is_word ban = refl
command_value-is_word unban = refl
command_value-is_word set = refl
command_value-is_word client_ip = refl

words_line : (w : Text) → is_word w ≡ true → words (w ++ newline) ≡ w ∷ []
unfolding words word_split is_empty is_space
words_line w h = words-append w [] b'\n' h refl

words-join : (ws : List Text) → every is_word ws ≡ true → words (join ws ++ newline) ≡ ws
unfolding join every words word_split is_space is_empty
words-join [] h = refl
words-join (w ∷ []) h = words_line w (ground arith)
words-join (w ∷ v ∷ ws) h = rw append_assoc (
    words-append w (join (v ∷ ws) ++ newline) b' ' (ground arith) refl
    ∙ ap (◌∷◌ w) (words-join (v ∷ ws) (ground arith)))

is_empty-join : (w : Text) (ws : List Text) → is_word w ≡ true → is_empty (join (w ∷ ws)) ≡ false
unfolding join is_empty
is_empty-join [] ws h = cc
is_empty-join (a ∷ w) [] h = refl
is_empty-join (a ∷ w) (v ∷ ws) h = refl

pub words-format_command :
    (c : Command) (args : List Text)
    → every is_word args ≡ true
    → words (format_command c args) ≡ command_value c ∷ args
unfolding format_command every
words-format_command c [] h = unfold join is_empty in words_line _ (command_value-is_word c)
words-format_command c (w ∷ ws) h = rw (is_empty-join w ws (ground arith)) (
    words-append (command_value c) (join (w ∷ ws) ++ newline) b' ' (command_value-is_word c)
      (unfold is_space in refl)
    ∙ ap (◌∷◌ (command_value c)) (words-join (w ∷ ws) h))

pub stripped_words :
    (line w : Text) (ws : List Text) → words line ≡ w ∷ ws → is_empty (strip line) ≡ false
stripped_words line w ws h = elim (Bool-cases (is_empty (strip line))) [
  | inl e ↦ cc (words_of_strip_empty line e)
  | inr e ↦ e
]

pub is_empty_line : (line : Text) → is_empty (strip line) ≡ false → is_empty line ≡ false
unfolding strip lstrip rstrip is_empty
is_empty_line [] h = cc
is_empty_line (c ∷ s) h = refl

parse_command-words :
    (u : Unicode) (line w : Text) (ws : List Text)
    → words line ≡ w ∷ ws
    → parse_command u line ≡ parse_words u (w ∷ ws)
unfolding parse_command
parse_command-words u line w ws h =
    let e = stripped_words line w ws h in rw (is_empty_line line e, e, words-strip line, h) refl

parse_words-command_value :
    (u : Unicode) (c : Command) (args : List Text)
    → parse_words u (command_value c ∷ args) ≡ (some c, args)
unfolding parse_words
parse_words-command_value u c args =
    ground (arith, upper-command_value u c, command_of-command_value c)

-- A command formatted with arguments that are words parses to the command and the same arguments.
pub parse_command-format_command :
    (u : Unicode) (c : Command) (args : List Text)
    → every is_word args ≡ true
    → parse_command u (format_command c args) ≡ (some c, args)
parse_command-format_command u c args h =
    parse_command-words u (format_command c args) (command_value c) args
      (words-format_command c args h)
    ∙ parse_words-command_value u c args
