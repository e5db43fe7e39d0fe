-- ===== src/Security/Validation/Names.antt =====
-- Which nicknames `validate_nickname` accepts.
use tlsocket.Prelude.{
  ◌≤◌, true, false, ◌&&◌, not, ◌≡◌, refl, ◌≢◌, ◌↔◌, [], ◌∷◌, arith, every, contains, length,
  text_beq_iff, text_eq, nat_eq, ap,
}
use tlsocket.Text.{Text, codes, is_empty, strip, lstrip, rstrip}
use tlsocket.Text.Strip.{contains-strip}
use tlsocket.Security.Validation.{
  nick_char, nick_rest, nickname_regex, validate_stripped, validate_nickname, ok_text,
}

-- without a newline the expression is a test of each character
nick_rest-eq-every : (s : Text) → contains s b'\n' ≡ false → nick_rest s ≡ every nick_char s
unfolding nick_rest every contains
nick_rest-eq-every [] h = refl
nick_rest-eq-every (c ∷ []) h = ground arith
nick_rest-eq-every (c ∷ d ∷ s) h = ground (arith, nick_rest-eq-every (d ∷ s))

regex-eq-every :
    (s : Text)
    → contains s b'\n' ≡ false
    → nickname_regex s ≡ (not (is_empty s) && every nick_char s)
unfolding nickname_regex every contains is_empty
regex-eq-every [] h = refl
regex-eq-every (c ∷ s) h = ground (arith, nick_rest-eq-every s)

pub record IsNickname (name : Text) : Type 0 where
  pub no_null : contains name 0 ≡ false
  pub no_newline : contains name b'\n' ≡ false
  pub no_return : contains name b'\r' ≡ false
  pub at_least : 1 ≤ length (strip name)
  pub at_most : length (strip name) ≤ 20
  pub characters : every nick_char (strip name) ≡ true
  pub not_admin : strip name ≢ codes "admin"

strip_of_empty : (s : Text) → is_empty s ≡ true → length (strip s) ≡ 0
unfolding strip lstrip rstrip is_empty
strip_of_empty [] h = refl
strip_of_empty (c ∷ s) h = cc

length-pos : (s : Text) → 1 ≤ length s → is_empty s ≡ false
unfolding is_empty
length-pos [] h = absurd (omega arith)
length-pos (c ∷ s) h = refl

accepted-IsNickname : (name : Text) → (validate_nickname name).0 ≡ true → IsNickname name
unfolding validate_nickname validate_stripped
accepted-IsNickname name h = ground (
  arith,
  regex-eq-every (strip name),
  contains-strip name b'\n',
  text_beq_iff (strip name) (codes "admin"),
)

IsNickname-accepted : (name : Text) → IsNickname name → validate_nickname name ≡ (true, ok_text)
unfolding validate_nickname validate_stripped
IsNickname-accepted name h = ground (
  arith,
  regex-eq-every (strip name),
  contains-strip name b'\n',
  length-pos (strip name),
  strip_of_empty name,
  text_beq_iff (strip name) (codes "admin"),
)

-- A nickname is accepted exactly when it holds no NUL, newline or carriage return and, stripped, is
-- 1 to 20 ASCII letters, digits and underscores other than "admin".
pub validate_nickname_iff : (name : Text) → ((validate_nickname name).0 ≡ true) ↔ IsNickname name
validate_nickname_iff name =
    (accepted-IsNickname name, λ h. ap (λ r. r.0) (IsNickname-accepted name h))
