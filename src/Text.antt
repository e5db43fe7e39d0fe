-- ===== src/Text.antt =====
-- Python's `str` as a list of code points, with the methods of it that the program calls.
-- `lower`, `upper` and the decoding of UTF-8 go by tables of the interpreter: they are the fields of
-- `Unicode`, with the documented facts that the program relies on.
pub mod Strip
pub mod Words
use Prim.Native.Char.{code}
use tlsocket.Prelude.{
  ℕ, zero, suc, ◌+◌, ◌-◌, ◌/◌, ◌%◌, ◌≡◌, String, Bool, true, false, ◌&&◌, ◌||◌, Option, none, some,
  List, [], ◌∷◌, ◌++◌, map, if◌then◌else◌, leb, nat_beq, every, length, not,
}

abbrev pub Text : Type 0
Text = List ℕ

unfoldable pub codes : String → Text
codes String.[] = []
codes (String.◌∷◌ c s) = code c ∷ codes s

-- str.isspace of one character, which is what strip() and split() go by
unfoldable pub is_space : ℕ → Bool
is_space c =
    leb 9 c && leb c 13
    || leb 28 c && leb c 32
    || nat_beq c 0x85
    || nat_beq c 0xA0
    || nat_beq c 0x1680
    || leb 0x2000 c && leb c 0x200A
    || nat_beq c 0x2028
    || nat_beq c 0x2029
    || nat_beq c 0x202F
    || nat_beq c 0x205F
    || nat_beq c 0x3000

unfoldable pub is_empty : Text → Bool
is_empty [] = true
is_empty (c ∷ s) = false

-- " ".join(ws)
unfoldable pub join : List Text → Text
join [] = []
join (w ∷ []) = w
join (w ∷ v ∷ ws) = w ++ b' ' ∷ join (v ∷ ws)

unfoldable pub lstrip : Text → Text
lstrip [] = []
lstrip (c ∷ s) = let rest = lstrip s in if is_space c then rest else c ∷ s

unfoldable pub rstrip : Text → Text
rstrip [] = []
rstrip (c ∷ s) = let rest = rstrip s in if is_space c && is_empty rest then [] else c ∷ rest

-- s.strip()
unfoldable pub strip : Text → Text
strip s = rstrip (lstrip s)

-- The first word (empty where the text starts with a space), and the words behind it.
unfoldable pub word_split : Text → Text × List Text
word_split [] = ([], [])
word_split (c ∷ s) =
    let (word, rest) = word_split s in
    if is_space c then ([], (if is_empty word then rest else word ∷ rest)) else (c ∷ word, rest)

-- s.split()
unfoldable pub words : Text → List Text
words s = let (word, rest) = word_split s in if is_empty word then rest else word ∷ rest

-- s.split(sep, 1) at a separator of one character
unfoldable pub cut : ℕ → Text → Text × Option Text
cut sep [] = ([], none)
cut sep (c ∷ s) =
    let (before, after) = cut sep s in if nat_beq c sep then ([], some s) else (c ∷ before, after)

-- s.split(maxsplit=1): the first word, and what stands behind the spaces after it
unfoldable pub first_word : Text → Text
first_word [] = []
first_word (c ∷ s) = let rest = first_word s in if is_space c then [] else c ∷ rest

unfoldable pub after_word : Text → Text
after_word [] = []
after_word (c ∷ s) = let rest = after_word s in if is_space c then c ∷ s else rest

unfoldable pub split_first : Text → List Text
split_first s =
    let t = lstrip s in
    let rest = lstrip (after_word t) in
    if is_empty t then [] else if is_empty rest then first_word t ∷ [] else first_word t ∷ rest ∷ []

-- s.startswith(p)
unfoldable pub starts_with : Text → Text → Bool
starts_with [] s = true
starts_with (a ∷ p) [] = false
starts_with (a ∷ p) (b ∷ s) = nat_beq a b && starts_with p s

-- s[n:]
unfoldable pub drop : ℕ → Text → Text
drop zero s = s
drop (suc n) [] = []
drop (suc n) (c ∷ s) = drop n s

-- str(n), by its digits from the last one; the fuel is the number itself
unfoldable pub digits_before : ℕ → ℕ → Text → Text
digits_before zero n acc = acc
digits_before (suc fuel) n acc =
    let more = digits_before fuel (n / 10) ((b'0' + n % 10) ∷ acc) in
    if nat_beq n 0 then acc else more

unfoldable pub decimal : ℕ → Text
unfolding digits_before
decimal zero = b'0' ∷ []
decimal (suc n) = digits_before (suc n) (suc n) []

abbrev pub is_ascii : ℕ → Bool
is_ascii c = leb c 127

abbrev pub not_break : ℕ → Bool
not_break c = not (nat_beq c b'\n' || nat_beq c b'\r')

unfoldable pub ascii_lower : ℕ → ℕ
ascii_lower c = if leb b'A' c && leb c b'Z' then c + 32 else c

unfoldable pub ascii_upper : ℕ → ℕ
ascii_upper c = if leb b'a' c && leb c b'z' then c - 32 else c

-- What the interpreter's tables give.
pub record Unicode : Type 0 where
  pub lower : Text → Text
  pub upper : Text → Text
  -- bytes.decode("utf-8", errors="replace")
  pub decode : List ℕ → Text
  pub lower_ascii : (s : Text) → every is_ascii s ≡ true → lower s ≡ map ascii_lower s
  pub upper_ascii : (s : Text) → every is_ascii s ≡ true → upper s ≡ map ascii_upper s
  pub lower_lower : (s : Text) → lower (lower s) ≡ lower s
  -- changing case neither makes nor removes a space at an end
  pub strip_lower : (s : Text) → strip s ≡ s → strip (lower s) ≡ lower s
  pub empty_lower : (s : Text) → is_empty (lower s) ≡ is_empty s
  -- nor a line break
  pub lower_line : (s : Text) → every not_break s ≡ true → every not_break (lower s) ≡ true
  pub decode_ascii : (s : List ℕ) → every is_ascii s ≡ true → decode s ≡ s

-- username.strip().lower()
unfoldable pub normalise : Unicode → Text → Text
normalise u s = u.lower (strip s)
