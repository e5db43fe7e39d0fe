-- ===== src/Auth/Bans/Roundtrip.antt =====
-- Saving the list and reading it.
use tlsocket.Prelude.{
  true, false, ◌≡◌, refl, Option, none, some, List, [], ◌∷◌, ◌++◌, arith, every, ap, ◌∙◌,
  Bool-cases, inl, inr, remove_first, text_eq, if_both, ◌==◌,
}
use tlsocket.Text.{Text, Unicode, is_empty, strip, lstrip, rstrip, normalise, not_break}
use tlsocket.Text.Strip.{every-strip, normalise_idem, strip-normalise}
use tlsocket.Auth.Bans.{line_split, file_lines, names_of, get_banned_users, save_banned_users}

-- A name as the file holds it: normal, not blank, on one line.
pub record IsEntry (u : Unicode) (name : Text) : Type 0 where
  pub normal : normalise u name ≡ name
  pub not_blank : is_empty (strip name) ≡ false
  pub one_line : every not_break name ≡ true

abbrev pub AreEntries : Unicode → List Text → Type 0
AreEntries u [] = Unit
AreEntries u (name ∷ names) = IsEntry u name × AreEntries u names

pub line_split-append :
    (name s : Text)
    → every not_break name ≡ true
    → line_split (name ++ b'\n' ∷ s) ≡ (name, file_lines s)
unfolding line_split file_lines every
line_split-append [] s h = refl
line_split-append (c ∷ name) s h = ground (arith, line_split-append name s)

module _ (u : Unicode) where
  -- The file that holds a list of entries is read as that list.
  pub names_of-save :
      (names : List Text)
      → AreEntries u names
      → names_of u (file_lines (save_banned_users names)) ≡ names
  unfolding names_of save_banned_users
  names_of-save [] h = unfold file_lines line_split strip lstrip rstrip is_empty in refl
  names_of-save (name ∷ names) (entry, rest) =
      let e : file_lines (name ++ b'\n' ∷ save_banned_users names)
          ≡ name ∷ file_lines (save_banned_users names) =
        unfold file_lines in
        rw (line_split-append name (save_banned_users names) entry.one_line) refl in
      rw (e, entry.not_blank, entry.normal) (ap (◌∷◌ name) (names_of-save names rest))

  -- The lines of a text hold no line break.
  lines_one_line :
      (s : Text)
      → (every not_break (line_split s).0 ≡ true)
        × (every (every not_break) (line_split s).1 ≡ true)
  unfolding line_split every
  lines_one_line [] = (refl, refl)
  lines_one_line (c ∷ s) = ground (arith, lines_one_line s)

  -- A name that is not blank is an entry when it is normalised.
  pub IsEntry-normalise :
      (line : Text)
      → every not_break line ≡ true
      → is_empty (strip line) ≡ false
      → IsEntry u (normalise u line)
  IsEntry-normalise line h n = record {
    normal = normalise_idem u line;
    not_blank = rw (strip-normalise u line) (unfold normalise in u.empty_lower (strip line) ∙ n);
    one_line = unfold normalise in u.lower_line (strip line) (every-strip not_break line h);
  }

  AreEntries-names_of :
      (lines : List Text) → every (every not_break) lines ≡ true → AreEntries u (names_of u lines)
  unfolding names_of every
  AreEntries-names_of [] h = tt
  AreEntries-names_of (line ∷ lines) h =
      let rest = AreEntries-names_of lines (ground arith) in
      elim (Bool-cases (is_empty (strip line))) [
        | inl blank ↦ rw blank rest
        | inr full ↦ rw full (IsEntry-normalise line (ground arith) full, rest)
      ]

  -- What is read from any file are entries.
  pub AreEntries-get_banned_users : (file : Option Text) → AreEntries u (get_banned_users u file)
  unfolding get_banned_users file_lines every
  AreEntries-get_banned_users none = tt
  AreEntries-get_banned_users (some content) =
      AreEntries-names_of (file_lines content) (ground (arith, lines_one_line content))

  pub AreEntries-append :
      (xs ys : List Text) → AreEntries u xs → AreEntries u ys → AreEntries u (xs ++ ys)
  AreEntries-append [] ys hx hy = hy
  AreEntries-append (x ∷ xs) ys (e, hx) hy = (e, AreEntries-append xs ys hx hy)

  pub AreEntries-remove_first :
      (x : Text) (xs : List Text) → AreEntries u xs → AreEntries u (remove_first x xs)
  unfolding remove_first
  AreEntries-remove_first x [] h = tt
  AreEntries-remove_first x (y ∷ ys) (e, h) =
      if_both (AreEntries u) (y == x) h (e, AreEntries-remove_first x ys h)

  pub get_banned_users-save :
      (names : List Text)
      → AreEntries u names
      → get_banned_users u (some (save_banned_users names)) ≡ names
  unfolding get_banned_users
  get_banned_users-save names h = names_of-save names h
