-- ===== src/Text/Strip.antt =====
-- `strip` leaves no space at an end, and normalising a name twice is normalising it once.
use tlsocket.Prelude.{
  ℕ, ◌≡◌, refl, Bool, true, false, [], ◌∷◌, ◌++◌, ap, ◌∙◌, arith, every, contains, nat_eq,
}
use tlsocket.Text.{Text, Unicode, is_space, is_empty, lstrip, rstrip, strip, normalise}

lstrip_idem : (s : Text) → lstrip (lstrip s) ≡ lstrip s
unfolding lstrip
lstrip_idem [] = refl
lstrip_idem (c ∷ s) = ground (arith, lstrip_idem s)

rstrip_idem : (s : Text) → rstrip (rstrip s) ≡ rstrip s
unfolding rstrip is_empty
rstrip_idem [] = refl
rstrip_idem (c ∷ s) = ground (arith, rstrip_idem s)

-- a text that `lstrip` leaves alone is left alone after `rstrip` too
lstrip-rstrip : (s : Text) → lstrip (rstrip (lstrip s)) ≡ rstrip (lstrip s)
unfolding lstrip rstrip is_empty
lstrip-rstrip [] = refl
lstrip-rstrip (c ∷ s) = ground (arith, lstrip-rstrip s)

pub strip_idem : (s : Text) → strip (strip s) ≡ strip s
unfolding strip
strip_idem s = rw lstrip-rstrip (rstrip_idem (lstrip s))

module _ (p : ℕ → Bool) where
  pub every-lstrip : (s : Text) → every p s ≡ true → every p (lstrip s) ≡ true
  unfolding lstrip every
  every-lstrip [] h = refl
  every-lstrip (c ∷ s) h = ground (arith, every-lstrip s)

  pub every-rstrip : (s : Text) → every p s ≡ true → every p (rstrip s) ≡ true
  unfolding rstrip every
  every-rstrip [] h = refl
  every-rstrip (c ∷ s) h = ground (arith, every-rstrip s)

  pub every-strip : (s : Text) → every p s ≡ true → every p (strip s) ≡ true
  unfolding strip
  every-strip s h = every-rstrip (lstrip s) (every-lstrip s h)

module _ (u : Unicode) where
  pub strip-normalise : (s : Text) → strip (normalise u s) ≡ normalise u s
  unfolding normalise
  strip-normalise s = u.strip_lower (strip s) (strip_idem s)

  pub normalise_idem : (s : Text) → normalise u (normalise u s) ≡ normalise u s
  unfolding normalise
  normalise_idem s =
      rw (normalise, u.strip_lower (strip s) (strip_idem s)) (u.lower_lower (strip s))

contains-lstrip : (s : Text) (c : ℕ) → contains s c ≡ false → contains (lstrip s) c ≡ false
unfolding lstrip contains
contains-lstrip [] c h = refl
contains-lstrip (d ∷ s) c h = ground (arith, contains-lstrip s c)

contains-rstrip : (s : Text) (c : ℕ) → contains s c ≡ false → contains (rstrip s) c ≡ false
unfolding rstrip contains
contains-rstrip [] c h = refl
contains-rstrip (d ∷ s) c h = ground (arith, contains-rstrip s c)

pub contains-strip : (s : Text) (c : ℕ) → contains s c ≡ false → contains (strip s) c ≡ false
unfolding strip
contains-strip s c h = contains-rstrip (lstrip s) c (contains-lstrip s c h)

pub is_empty-append : (s t : Text) → is_empty t ≡ false → is_empty (s ++ t) ≡ false
unfolding is_empty
is_empty-append [] t h = h
is_empty-append (c ∷ s) t h = refl

pub rstrip-append : (s t : Text) → is_empty (rstrip t) ≡ false → rstrip (s ++ t) ≡ s ++ rstrip t
unfolding rstrip
rstrip-append [] t h = refl
rstrip-append (c ∷ s) t h = ground (arith, rstrip-append s t h, is_empty-append s (rstrip t) h)

rstrip-line_feed : (t : Text) → rstrip (t ++ b'\n' ∷ []) ≡ rstrip t
unfolding rstrip is_empty is_space
rstrip-line_feed [] = refl
rstrip-line_feed (c ∷ t) = ground (arith, rstrip-line_feed t)

-- a line that a word begins is stripped of its line feed alone, where nothing else is to be stripped at its end
pub strip-line :
    (c : ℕ) (w t : Text)
    → is_space c ≡ false
    → rstrip t ≡ t
    → is_empty t ≡ false
    → strip ((c ∷ w) ++ (t ++ b'\n' ∷ [])) ≡ (c ∷ w) ++ t
unfolding strip lstrip
strip-line c w t start h full =
    let tail : rstrip (t ++ b'\n' ∷ []) ≡ t = rstrip-line_feed t ∙ h in
    rw start (rstrip-append (c ∷ w) (t ++ b'\n' ∷ []) (rw tail full) ∙ ap (λ x. (c ∷ w) ++ x) tail)

pub rstrip-strip : (s : Text) → rstrip (strip s) ≡ strip s
unfolding strip
rstrip-strip s = rstrip_idem (lstrip s)
