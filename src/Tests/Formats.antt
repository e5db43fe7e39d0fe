-- ===== src/Tests/Formats.antt =====
-- A concrete notation for the objects of a log, in place of JSON: every text is shifted past the spaces and ends in a mark.
use tlsocket.Prelude.{
  ℕ, ◌+◌, ◌-◌, Bool, true, not, ◌&&◌, ◌≡◌, refl, ◌∙◌, ap, Option, none, some, List, [], ◌∷◌, ◌++◌,
  if◌then◌else◌, nat_beq, every, arith, map, every-append,
}
use tlsocket.Text.{Text, codes, is_empty, is_space, not_break, strip, lstrip, rstrip}
use tlsocket.LogParser.Parser.{
  Json, Value, string, other, Object, Document, object, Timestamp, aware,
}
use tlsocket.LogParser.Parser.Formatter.{JsonFormatter, fields}

abbrev mark : ℕ
mark = 0x3FFF

abbrev shift : ℕ → ℕ
shift c = c + 0x4000

abbrev piece : Text → Text
piece s = map shift s ++ mark ∷ []

-- a text has a 0 before it
abbrev value : Value → Text
value (string v) = 0 ∷ v
value other = []

abbrev encode : Object → Text
encode [] = []
encode ((k, v) ∷ o) = piece k ++ (piece (value v) ++ encode o)

abbrev put : ℕ → List Text → List Text
put c [] = (c ∷ []) ∷ []
put c (p ∷ ps) = (c ∷ p) ∷ ps

unfoldable pub pieces : Text → List Text
pieces [] = []
pieces (c ∷ s) = let rest = pieces s in if nat_beq c mark then [] ∷ rest else put (c - 0x4000) rest

abbrev value_of : Text → Value
value_of [] = other
value_of (c ∷ v) = string v

value_of-value : (v : Value) → value_of (value v) ≡ v
value_of-value (string v) = refl
value_of-value other = refl

abbrev pairs : List Text → Object
pairs [] = []
pairs (k ∷ []) = []
pairs (k ∷ v ∷ ps) = (k, value_of v) ∷ pairs ps

pieces-piece : (k s : Text) → pieces (piece k ++ s) ≡ k ∷ pieces s
unfolding pieces
pieces-piece [] s = refl
pieces-piece (c ∷ k) s = ground (arith, pieces-piece k s)

pairs-encode : (o : Object) → pairs (pieces (encode o)) ≡ o
unfolding pieces
pairs-encode [] = refl
pairs-encode ((k, v) ∷ o) =
    rw
      (
        pieces-piece k (piece (value v) ++ encode o),
        pieces-piece (value v) (encode o),
        value_of-value v,
      )
      (ap (λ x. (k, v) ∷ x) (pairs-encode o))

abbrev is_solid : ℕ → Bool
is_solid c = not (is_space c) && not_break c

piece-solid : (s : Text) → every is_solid (piece s) ≡ true
unfolding every is_space
piece-solid [] = refl
piece-solid (c ∷ s) = ground (arith, piece-solid s)

encode-solid : (o : Object) → every is_solid (encode o) ≡ true
encode-solid [] = unfold every in refl
encode-solid ((k, v) ∷ o) =
    rw
      (
        every-append is_solid (piece k) (piece (value v) ++ encode o),
        piece-solid k,
        every-append is_solid (piece (value v)) (encode o),
        piece-solid (value v),
      )
      (encode-solid o)

lstrip-solid : (s : Text) → every is_solid s ≡ true → lstrip s ≡ s
unfolding lstrip every
lstrip-solid [] h = refl
lstrip-solid (c ∷ s) h = ground arith

rstrip-solid : (s : Text) → every is_solid s ≡ true → rstrip s ≡ s
unfolding rstrip every
rstrip-solid [] h = refl
rstrip-solid (c ∷ s) h = ground (arith, rstrip-solid s)

line-solid : (s : Text) → every is_solid s ≡ true → every not_break s ≡ true
unfolding every
line-solid [] h = refl
line-solid (c ∷ s) h = ground (arith, line-solid s)

unfoldable pub read_time : Text → Option Timestamp
read_time (t ∷ []) = some (aware t)
read_time s = none

unfoldable pub read_object_text : Text → Option Document
read_object_text s = some (object (pairs (pieces s)))

abbrev pub plain_json : Json
plain_json = record { loads = read_object_text; fromisoformat = read_time }

pub plain_formatter : JsonFormatter plain_json
unfolding read_time read_object_text strip
plain_formatter = record {
  isoformat = λ t. t ∷ [];
  format = λ t l. encode (fields (t ∷ []) l);
  loads_format = λ t l. ap (λ o. some (object o)) (pairs-encode (fields (t ∷ []) l));
  fromisoformat_isoformat = λ t. refl;
  strip_format = λ t l.
      let solid = encode-solid (fields (t ∷ []) l) in
      ap rstrip (lstrip-solid (encode (fields (t ∷ []) l)) solid)
      ∙ rstrip-solid (encode (fields (t ∷ []) l)) solid;
  full_format = λ t l. unfold is_empty codes in refl;
  line_format = λ t l. line-solid (encode (fields (t ∷ []) l)) (encode-solid (fields (t ∷ []) l));
}
