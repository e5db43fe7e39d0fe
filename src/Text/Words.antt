-- ===== src/Text/Words.antt =====
-- The words of `split()` are not empty and hold no space.
use tlsocket.Prelude.{ℕ, ◌≡◌, refl, Bool, true, ◌&&◌, not, [], ◌∷◌, ◌++◌, arith, every, ◌∙◌}
use tlsocket.Text.{Text, is_space, is_empty, word_split, words, lstrip, rstrip, strip}

abbrev pub not_space : ℕ → Bool
not_space c = not (is_space c)

abbrev pub is_word : Text → Bool
is_word w = not (is_empty w) && every not_space w

word_split_words :
    (s : Text) → (every not_space (word_split s).0 ≡ true) × (every is_word (word_split s).1 ≡ true)
unfolding word_split every is_empty
word_split_words [] = (refl, refl)
word_split_words (c ∷ s) = ground (arith, word_split_words s)

pub words-is_word : (s : Text) → every is_word (words s) ≡ true
unfolding words every
words-is_word s = ground (arith, word_split_words s)

words-lstrip : (s : Text) → words (lstrip s) ≡ words s
unfolding words word_split lstrip is_empty
words-lstrip [] = refl
words-lstrip (c ∷ s) = ground (arith, words-lstrip s)

word_split-rstrip : (s : Text) → word_split (rstrip s) ≡ word_split s
unfolding word_split rstrip is_empty
word_split-rstrip [] = refl
word_split-rstrip (c ∷ s) = ground (arith, word_split-rstrip s)

words-rstrip : (s : Text) → words (rstrip s) ≡ words s
unfolding words
words-rstrip s = rw word_split-rstrip

pub words-strip : (s : Text) → words (strip s) ≡ words s
unfolding strip
words-strip s = words-rstrip (lstrip s) ∙ words-lstrip s

words_of_empty : (s : Text) → is_empty s ≡ true → words s ≡ []
unfolding words word_split is_empty
words_of_empty [] h = refl
words_of_empty (c ∷ s) h = cc

pub words_of_strip_empty : (s : Text) → is_empty (strip s) ≡ true → words s ≡ []
words_of_strip_empty s h = rw (← words-strip s) (words_of_empty (strip s) h)

-- a word with a space behind it is the first of the words
word_split-append :
    (w s : Text) (c : ℕ)
    → every not_space w ≡ true
    → is_space c ≡ true
    → word_split (w ++ c ∷ s) ≡ (w, words s)
unfolding word_split words every
word_split-append [] s c h sp = ground arith
word_split-append (a ∷ w) s c h sp = ground (arith, word_split-append w s c)

pub words-append :
    (w s : Text) (c : ℕ) → is_word w ≡ true → is_space c ≡ true → words (w ++ c ∷ s) ≡ w ∷ words s
unfolding words
words-append w s c h sp = ground (arith, word_split-append w s c)
