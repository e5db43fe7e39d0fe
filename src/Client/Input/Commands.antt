-- ===== src/Client/Input/Commands.antt =====
-- What the server makes of what is typed: the commands of the client against those of
-- src/tlsocket/server_side/handlers/client_handler.py.
use tlsocket.Prelude.{
  ℕ, true, false, Bool, ◌≡◌, refl, sym, subst, [], ◌∷◌, ◌++◌, text_eq, nat_eq, arith, ◌==◌,
  text_beq_iff, ◌||◌, if◌then◌else◌, Bool-cases, inl, inr,
}
use tlsocket.Text.{
  Text, Unicode, codes, starts_with, is_empty, drop, strip, rstrip, lstrip, split_first, is_space,
  join,
}
use tlsocket.Text.Strip.{strip-line}
use tlsocket.Protocol.{Command, kick, ban, unban, command_value, format_command}
use tlsocket.Client.Input.{Typed, sent, nothing, on_name, set_line, chat_line, typed}

-- The three commands on one name.
pub data Action : Type 0 where
  kicks bans unbans : Action

abbrev pub command : Action → Command
command kicks = kick
command bans = ban
command unbans = unban

-- what is typed before the name
abbrev pub slash : Action → Text
slash kicks = codes "/kick "
slash bans = codes "/ban "
slash unbans = codes "/unban "

-- how much of the text is cut off before the name, by the client and by the server
abbrev pub typed_prefix : Action → ℕ
typed_prefix kicks = 6
typed_prefix bans = 5
typed_prefix unbans = 7

abbrev pub line_prefix : Action → ℕ
line_prefix kicks = 5
line_prefix bans = 4
line_prefix unbans = 6

abbrev pub word : Action → Text
word kicks = codes "KICK "
word bans = codes "BAN "
word unbans = codes "UNBAN "

agree : Text → Text → Bool
agree p q = starts_with p q || starts_with q p

starts_agree : (p q s : Text) → starts_with p s ≡ true → starts_with q s ≡ true → agree p q ≡ true
unfolding starts_with agree
starts_agree [] q s h k = refl
starts_agree (a ∷ p) [] s h k = refl
starts_agree (a ∷ p) (b ∷ q) [] h k = absurd (ground arith)
starts_agree (a ∷ p) (b ∷ q) (c ∷ s) h k = ground (arith, starts_agree p q s)

starts_false : (p q s : Text) → agree p q ≡ false → starts_with p s ≡ true → starts_with q s ≡ false
starts_false p q s apart h = ground (arith, starts_agree p q s h)

starts_itself : (s : Text) → starts_with s s ≡ true
unfolding starts_with
starts_itself [] = refl
starts_itself (c ∷ s) = ground (arith, starts_itself s)

not_equal : (p q s : Text) → agree p q ≡ false → starts_with p s ≡ true → (s == q) ≡ false
not_equal p q s apart h = elim (Bool-cases (s == q)) [
  | inl e ↦
      let same : s ≡ q = (text_beq_iff s q).0 e in
      absurd (
        ground (
          arith,
          starts_false p q s apart h,
          subst (λ x. starts_with q x ≡ true) (sym same) (starts_itself q),
        ))
  | inr e ↦ e
]

apart :
    (a : Action)
    → (agree (slash a) (codes "/quit") ≡ false) × (agree (slash a) (codes "/exit") ≡ false)
unfolding agree starts_with codes
apart kicks = (refl, refl)
apart bans = (refl, refl)
apart unbans = (refl, refl)

earlier :
    (agree (slash bans) (slash kicks) ≡ false)
    × (agree (slash unbans) (slash kicks) ≡ false)
    × (agree (slash unbans) (slash bans) ≡ false)
unfolding agree starts_with codes
earlier = (refl, refl, refl)

starts_empty : (a : Action) (s : Text) → is_empty s ≡ true → starts_with (slash a) s ≡ false
unfolding starts_with codes is_empty
starts_empty kicks [] h = refl
starts_empty bans [] h = refl
starts_empty unbans [] h = refl
starts_empty a (c ∷ s) h = absurd (ground arith)

not_empty :
    (u : Unicode) (a : Action) (s : Text)
    → starts_with (slash a) (u.lower (strip s)) ≡ true
    → is_empty s ≡ false
unfolding strip lstrip rstrip is_empty
not_empty u a [] h = absurd (ground (arith, starts_empty a (u.lower []) (u.empty_lower [])))
not_empty u a (c ∷ s) h = refl

-- the client's line, as the server reads it
pub line_lem :
    (a : Action) (target : Text)
    → rstrip target ≡ target
    → is_empty target ≡ false
    → strip (format_command (command a) (target ∷ [])) ≡ word a ++ target
unfolding format_command command_value codes join is_space
line_lem kicks target h full = rw full (strip-line b'K' (codes "ICK ") target refl h full)
line_lem bans target h full = rw full (strip-line b'B' (codes "AN ") target refl h full)
line_lem unbans target h full = rw full (strip-line b'U' (codes "NBAN ") target refl h full)

starts_word : (a : Action) (target : Text) → starts_with (word a) (word a ++ target) ≡ true
unfolding starts_with codes
starts_word kicks target = refl
starts_word bans target = refl
starts_word unbans target = refl

pub drop-word : (a : Action) (target : Text) → drop (line_prefix a) (word a ++ target) ≡ target
unfolding drop codes
drop-word kicks target = refl
drop-word bans target = refl
drop-word unbans target = refl

-- what `typed` does once the input is neither empty nor a request to leave
abbrev among : Unicode → Text → Typed
among u s =
    if starts_with (codes "/kick ") (u.lower (strip s))
    then on_name kick (strip (drop 6 (strip s))) (codes "/kick <username>")
    else if starts_with (codes "/ban ") (u.lower (strip s))
    then on_name ban (strip (drop 5 (strip s))) (codes "/ban <username>")
    else if starts_with (codes "/unban ") (u.lower (strip s))
    then on_name unban (strip (drop 7 (strip s))) (codes "/unban <username>")
    else if starts_with (codes "/set ") (u.lower (strip s))
    then set_line u (split_first (strip (drop 5 (strip s))))
    else if is_empty (strip s)
    then nothing
    else chat_line s

by_action :
    (u : Unicode) (a : Action) (s : Text)
    → starts_with (slash a) (u.lower (strip s)) ≡ true
    → is_empty (strip (drop (typed_prefix a) (strip s))) ≡ false
    → among u s ≡ sent (format_command (command a) (strip (drop (typed_prefix a) (strip s)) ∷ []))
unfolding on_name
by_action u kicks s h full = rw (h, full) refl
by_action u bans s h full =
    rw (starts_false (slash bans) (slash kicks) (u.lower (strip s)) earlier.0 h, h, full) refl
by_action u unbans s h full =
    rw
      (
        starts_false (slash unbans) (slash kicks) (u.lower (strip s)) earlier.1 h,
        starts_false (slash unbans) (slash bans) (u.lower (strip s)) earlier.2 h,
        h,
        full,
      )
      refl

pub sends :
    (u : Unicode) (a : Action) (user_input : Text)
    → starts_with (slash a) (u.lower (strip user_input)) ≡ true
    → is_empty (strip (drop (typed_prefix a) (strip user_input))) ≡ false
    → typed u user_input
      ≡ sent (format_command (command a) (strip (drop (typed_prefix a) (strip user_input)) ∷ []))
unfolding typed on_name
sends u a user_input h full =
    let low = u.lower (strip user_input) in
    let quit = not_equal (slash a) (codes "/quit") low (apart a).0 h in
    let exit = not_equal (slash a) (codes "/exit") low (apart a).1 h in
    rw (not_empty u a user_input h, quit, exit) (by_action u a user_input h full)
