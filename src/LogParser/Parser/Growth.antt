-- ===== src/LogParser/Parser/Growth.antt =====
-- `follow` of src/tlsocket/log_parser/parser.py on a file that grows while it is read: the file from where the reading began, by
-- what is appended to it and by the rounds of the loop, in the order in which they happen.
use tlsocket.Prelude.{
  Bool, true, false, ◌||◌, ◌≡◌, refl, ◌∙◌, ap, List, [], ◌∷◌, ◌++◌, if◌then◌else◌, nat_beq, every,
  map, keep, arith, append_assoc, append-nil, Bool-cases, inl, inr,
}
use tlsocket.Text.{Text, is_empty, not_break}
use tlsocket.LogParser.Parser.{Json, Parsed, parsed, skipped, untyped, parse_line}

pub data Tick : Type 0 where
  appended : Text → Tick
  turn : Tick

-- f.readline(): a line with its end, or all there is, and what is left
unfoldable pub readline : Text → Text × Text
readline [] = ([], [])
readline (c ∷ s) =
    let (line, rest) = readline s in
    if nat_beq c b'\n' || nat_beq c b'\r' then (c ∷ [], s) else (c ∷ line, rest)

abbrev pub is_yielded : Parsed → Bool
is_yielded skipped = false
is_yielded untyped = true
is_yielded (parsed r) = true

-- what is yielded, and what is not read yet; an empty line means to sleep
unfoldable pub follow : Json → Text → List Tick → List Parsed × Text
follow j unread [] = ([], unread)
follow j unread (appended text ∷ ticks) = follow j (unread ++ text) ticks
follow j unread (turn ∷ ticks) =
    let (line, rest) = readline unread in
    let (yielded, last) = follow j rest ticks in
    let rec = parse_line j line in
    if is_empty line
    then (yielded, last)
    else ((if is_yielded rec then rec ∷ yielded else yielded), last)

-- whole lines, each with its end
abbrev pub text_of : List Text → Text
text_of [] = []
text_of (line ∷ lines) = line ++ b'\n' ∷ text_of lines

-- The ticks of a file to which whole lines are appended.
pub data Line : Type 0 where
  line_added : Text → Line
  line_turn : Line

abbrev pub ticks_of : List Line → List Tick
ticks_of [] = []
ticks_of (line_added line ∷ ls) = appended (line ++ b'\n' ∷ []) ∷ ticks_of ls
ticks_of (line_turn ∷ ls) = turn ∷ ticks_of ls

abbrev pub added : List Line → List Text
added [] = []
added (line_added line ∷ ls) = line ∷ added ls
added (line_turn ∷ ls) = added ls

-- what the lines are yielded as, each read with its end
abbrev pub yields : Json → List Text → List Parsed
yields j lines = keep is_yielded (map (λ (line : Text). parse_line j (line ++ b'\n' ∷ [])) lines)

readline-line :
    (line s : Text)
    → every not_break line ≡ true
    → readline (line ++ b'\n' ∷ s) ≡ (line ++ b'\n' ∷ [], s)
unfolding readline every
readline-line [] s h = refl
readline-line (c ∷ line) s h = ground (arith, readline-line line s)

text_of-append :
    (ls : List Text) (line : Text) → text_of ls ++ (line ++ b'\n' ∷ []) ≡ text_of (ls ++ line ∷ [])
text_of-append [] line = refl
text_of-append (l ∷ ls) line =
    append_assoc l (b'\n' ∷ text_of ls) (line ++ b'\n' ∷ [])
    ∙ ap (λ x. l ++ b'\n' ∷ x) (text_of-append ls line)

not_empty_line : (line : Text) → is_empty (line ++ b'\n' ∷ []) ≡ false
unfolding is_empty
not_empty_line [] = refl
not_empty_line (c ∷ line) = refl

every_cons :
    (line : Text) (lines : List Text)
    → every (every not_break) (line ∷ lines) ≡ true
    → (every not_break line ≡ true) × (every (every not_break) lines ≡ true)
unfolding every
every_cons line lines h = (ground (arith, h), ground (arith, h))

one_turn :
    (j : Json) (line : Text) (waiting : List Text) (ticks : List Tick)
    → every not_break line ≡ true
    → follow j (text_of (line ∷ waiting)) (turn ∷ ticks) ≡ (
      if is_yielded (parse_line j (line ++ b'\n' ∷ []))
          then parse_line j (line ++ b'\n' ∷ []) ∷ (follow j (text_of waiting) ticks).0
          else (follow j (text_of waiting) ticks).0,
      (follow j (text_of waiting) ticks).1,
    )
unfolding follow
one_turn j line waiting ticks h =
    rw (follow, readline-line line (text_of waiting) h, not_empty_line line) refl

idle_turn : (j : Json) (ticks : List Tick) → follow j [] (turn ∷ ticks) ≡ follow j [] ticks
unfolding follow readline is_empty
idle_turn j ticks = refl

adding :
    (j : Json) (line : Text) (waiting : List Text) (ticks : List Tick)
    → follow j (text_of waiting) (appended (line ++ b'\n' ∷ []) ∷ ticks)
      ≡ follow j (text_of (waiting ++ line ∷ [])) ticks
unfolding follow
adding j line waiting ticks = ap (λ x. follow j x ticks) (text_of-append waiting line)

yields-cons :
    (j : Json) (line : Text) (lines : List Text) (front : List Parsed) (back : List Parsed)
    → front ++ back ≡ yields j lines
    → (if is_yielded (parse_line j (line ++ b'\n' ∷ []))
          then parse_line j (line ++ b'\n' ∷ []) ∷ front
          else front)
        ++ back
      ≡ yields j (line ∷ lines)
unfolding keep
yields-cons j line lines front back h =
    elim (Bool-cases (is_yielded (parse_line j (line ++ b'\n' ∷ [])))) [
      | inl is ↦ rw (is, h) refl
      | inr isnt ↦ rw (isnt, h) refl
    ]

-- from lines that wait to be read
follow_waiting :
    (j : Json) (waiting : List Text) (ls : List Line)
    → every (every not_break) (waiting ++ added ls) ≡ true
    → (left : List Text) × ((follow j (text_of waiting) (ticks_of ls)).1 ≡ text_of left)
      × ((follow j (text_of waiting) (ticks_of ls)).0 ++ yields j left
          ≡ yields j (waiting ++ added ls))
follow_waiting j waiting [] h = unfold follow in (waiting, refl, rw (append-nil waiting) refl)
follow_waiting j waiting (line_added line ∷ ls) h =
    let same : (waiting ++ line ∷ []) ++ added ls ≡ waiting ++ line ∷ added ls =
      append_assoc waiting (line ∷ []) (added ls) in
    let (left, rest, all) = follow_waiting j (waiting ++ line ∷ []) ls (rw same h) in
    let step = adding j line waiting (ticks_of ls) in
    (left, rw step rest, rw step (all ∙ ap (yields j) same))
follow_waiting j [] (line_turn ∷ ls) h =
    let (left, rest, all) = follow_waiting j [] ls h in
    (left, rw (idle_turn j (ticks_of ls)) rest, rw (idle_turn j (ticks_of ls)) all)
follow_waiting j (line ∷ waiting) (line_turn ∷ ls) h =
    let (here, there) = every_cons line (waiting ++ added ls) h in
    let (left, rest, all) = follow_waiting j waiting ls there in
    let step = one_turn j line waiting (ticks_of ls) here in
    (
      left,
      rw step rest,
      rw step (
          yields-cons j line (waiting ++ added ls) (follow j (text_of waiting) (ticks_of ls)).0
            (yields j left) all),
    )

-- Where whole lines are appended, in whatever order the appending and the rounds of the loop come: what is yielded, and behind
-- it what the lines that are still to be read will give, is what the appended lines give one by one. Nothing is lost, nothing
-- comes twice, and the order is kept.
pub follow_whole_lines :
    (j : Json) (ls : List Line)
    → every (every not_break) (added ls) ≡ true
    → (left : List Text) × ((follow j [] (ticks_of ls)).1 ≡ text_of left)
      × ((follow j [] (ticks_of ls)).0 ++ yields j left ≡ yields j (added ls))
follow_whole_lines j ls h = follow_waiting j [] ls h

readline-all : (s : Text) → every not_break s ≡ true → readline s ≡ (s, [])
unfolding readline every
readline-all [] h = refl
readline-all (c ∷ s) h = ground (arith, readline-all s)

-- A line that is appended in two writes, with a round of the loop between them, is parsed as two lines: first what was there,
-- then the rest. The line itself is never parsed.
pub follow_split_line :
    (j : Json) (front back : Text)
    → every not_break front ≡ true
    → every not_break back ≡ true
    → is_empty front ≡ false
    → (follow j [] (appended front ∷ turn ∷ appended (back ++ b'\n' ∷ []) ∷ turn ∷ [])).0
      ≡ keep is_yielded (parse_line j front ∷ parse_line j (back ++ b'\n' ∷ []) ∷ [])
unfolding follow keep
follow_split_line j front back h k full =
    rw (follow, readline-all front h, full, readline-line back [] k, not_empty_line back) refl
