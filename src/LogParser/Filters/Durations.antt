-- ===== src/LogParser/Filters/Durations.antt =====
-- Durations as they are written.
use tlsocket.Prelude.{
  ℕ, zero, suc, ◌+◌, ◌*◌, ◌/◌, ◌%◌, ◌≤◌, ◌<◌, ◌≡◌, refl, ◌∙◌, ap, Bool, true, false, ◌&&◌, ◌||◌,
  some, [], ◌∷◌, ◌++◌, map, arith, if◌then◌else◌, nat_beq, leb, every, every-append,
}
use tlsocket.Text.{
  Text, Unicode, decimal, digits_before, normalise, strip, lstrip, rstrip, is_space, ascii_lower,
  is_ascii,
}
use tlsocket.LogParser.Filters.{Digits, unit_seconds, in_units, scan, parse_duration}

abbrev is_digit : ℕ → Bool
is_digit c = leb b'0' c && leb c b'9'

-- a small letter or a digit
abbrev is_plain : ℕ → Bool
is_plain c = is_digit c || leb b'a' c && leb c b'z'

scan_digit :
    (d : Digits) (n v : ℕ) (seen : Bool) (x : ℕ) (s : Text)
    → v < 10
    → scan d n seen ((b'0' + v) ∷ x ∷ s) ≡ scan d (n * 10 + v) true (x ∷ s)
unfolding scan
scan_digit d n v seen x s h =
    let e : d.value (b'0' + v) ≡ some v = ground (arith, d.value_ascii (b'0' + v)) in
    rw (e, scan) refl

scan-digits_before :
    (d : Digits) (fuel n x : ℕ) (s : Text)
    → n ≤ fuel
    → scan d 0 false (digits_before fuel n (x ∷ s))
      ≡ (if nat_beq n 0 then scan d 0 false (x ∷ s) else scan d n true (x ∷ s))
unfolding digits_before
scan-digits_before d zero n x s h = ground arith
scan-digits_before d (suc fuel) n x s h = ground (
  arith,
  scan-digits_before d fuel (n / 10) (b'0' + n % 10) (x ∷ s),
  scan_digit d 0 (n % 10) false x s,
  scan_digit d (n / 10) (n % 10) true x s,
)

every-digits_before :
    (fuel n : ℕ) (acc : Text)
    → every is_plain acc ≡ true
    → every is_plain (digits_before fuel n acc) ≡ true
unfolding digits_before every
every-digits_before zero n acc h = h
every-digits_before (suc fuel) n acc h =
    ground (arith, every-digits_before fuel (n / 10) ((b'0' + n % 10) ∷ acc))

digits_before-append :
    (fuel n : ℕ) (acc s : Text) → digits_before fuel n acc ++ s ≡ digits_before fuel n (acc ++ s)
unfolding digits_before
digits_before-append zero n acc s = refl
digits_before-append (suc fuel) n acc s =
    ground (arith, digits_before-append fuel (n / 10) ((b'0' + n % 10) ∷ acc) s)

decimal-append : (n : ℕ) (s : Text) → 0 < n → decimal n ++ s ≡ digits_before n n s
unfolding decimal
decimal-append zero s h = absurd (omega arith)
decimal-append (suc n) s h = digits_before-append (suc n) (suc n) [] s

every-decimal : (n : ℕ) → every is_plain (decimal n) ≡ true
unfolding decimal every
every-decimal zero = refl
every-decimal (suc n) = every-digits_before (suc n) (suc n) [] refl

-- A plain text is the same in small letters without the spaces around it.
lstrip_plain : (s : Text) → every is_plain s ≡ true → lstrip s ≡ s
unfolding lstrip every is_space
lstrip_plain [] h = refl
lstrip_plain (c ∷ s) h = ground arith

rstrip_plain : (s : Text) → every is_plain s ≡ true → rstrip s ≡ s
unfolding rstrip every is_space
rstrip_plain [] h = refl
rstrip_plain (c ∷ s) h = ground (arith, rstrip_plain s)

lower_plain :
    (s : Text) → every is_plain s ≡ true → (map ascii_lower s ≡ s) × (every is_ascii s ≡ true)
unfolding every ascii_lower
lower_plain [] h = (refl, refl)
lower_plain (c ∷ s) h = let ih = lower_plain s (ground arith) in (ground arith, ground arith)

normalise_plain : (u : Unicode) (s : Text) → every is_plain s ≡ true → normalise u s ≡ s
unfolding normalise strip
normalise_plain u s h =
    let (same, ascii) = lower_plain s h in
    ap u.lower (ap rstrip (lstrip_plain s h) ∙ rstrip_plain s h) ∙ (u.lower_ascii s ascii ∙ same)

scan_end : (d : Digits) (n c : ℕ) → scan d n true (c ∷ []) ≡ in_units n (unit_seconds c)
unfolding scan
scan_end d n c = refl

scan-decimal :
    (d : Digits) (n c : ℕ) → scan d 0 false (decimal n ++ c ∷ []) ≡ in_units n (unit_seconds c)
scan-decimal d zero c = unfold decimal in scan_digit d 0 0 false c [] (omega arith) ∙ scan_end d 0 c
scan-decimal d (suc n) c =
    rw (decimal-append (suc n) (c ∷ []) (omega arith))
      (ground (arith, scan-digits_before d (suc n) (suc n) c [], scan_end d (suc n) c))

unit_plain : (c factor : ℕ) → unit_seconds c ≡ some factor → is_plain c ≡ true
unfolding unit_seconds
unit_plain c factor h = ground arith

-- A number followed by one of the four units is read as that many seconds, minutes, hours or days, up to the largest
-- timedelta.
pub parse_duration-decimal :
    (u : Unicode) (d : Digits) (n c factor : ℕ)
    → unit_seconds c ≡ some factor
    → n * factor / 86400 ≤ 999_999_999
    → parse_duration u d (decimal n ++ c ∷ []) ≡ some (n * factor)
unfolding parse_duration
parse_duration-decimal u d n c factor e le =
    let plain : every is_plain (decimal n ++ c ∷ []) ≡ true =
      every-append is_plain (decimal n) (c ∷ [])
      ∙ (unfold every in ground (arith, every-decimal n, unit_plain c factor e)) in
    rw (normalise_plain u (decimal n ++ c ∷ []) plain) (scan-decimal d n c ∙ rw e (ground arith))
