-- ===== src/Security/Validation/Messages.antt =====
-- Which messages `validate_message` accepts.
use tlsocket.Prelude.{
  ℕ, ◌≤◌, Bool, true, false, not, ◌≡◌, refl, ◌↔◌, [], ◌∷◌, arith, every, contains, length, nat_eq,
}
use tlsocket.Text.{Text, is_empty, strip, lstrip, rstrip}
use tlsocket.Security.Validation.{is_control, any_control, validate_message}

abbrev pub printable : ℕ → Bool
printable c = not (is_control c)

any_control-eq-not-every : (s : Text) → any_control s ≡ not (every printable s)
unfolding any_control every
any_control-eq-not-every [] = refl
any_control-eq-not-every (c ∷ s) = ground (arith, any_control-eq-not-every s)

pub record IsMessage (message : Text) : Type 0 where
  pub characters : every printable message ≡ true
  pub at_least : 1 ≤ length (strip message)
  pub at_most : length (strip message) ≤ 1000

strip_of_empty : (s : Text) → is_empty s ≡ true → length (strip s) ≡ 0
unfolding strip lstrip rstrip is_empty
strip_of_empty [] h = refl
strip_of_empty (c ∷ s) h = cc

accepted-IsMessage : (m : Text) → (validate_message m).0 ≡ true → IsMessage m
unfolding validate_message
accepted-IsMessage m h = ground (arith, any_control-eq-not-every m)

IsMessage-accepted : (m : Text) → IsMessage m → (validate_message m).0 ≡ true
unfolding validate_message
IsMessage-accepted m h = ground (arith, any_control-eq-not-every m, strip_of_empty m)

-- A message is accepted exactly when it holds no control character and, stripped, has 1 to 1000
-- characters.
pub validate_message_iff : (m : Text) → ((validate_message m).0 ≡ true) ↔ IsMessage m
validate_message_iff m = (accepted-IsMessage m, IsMessage-accepted m)

pub printable-no_newline : (s : Text) → every printable s ≡ true → contains s b'\n' ≡ false
unfolding every contains is_control
printable-no_newline [] h = refl
printable-no_newline (c ∷ s) h = ground (arith, printable-no_newline s)
