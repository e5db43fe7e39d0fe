-- ===== src/Auth/Bans/Membership.antt =====
-- Who is banned after a ban and after its removal.
use tlsocket.Prelude.{
  Bool, true, false, ◌&&◌, ◌||◌, not, ◌≡◌, refl, Option, none, some, [], ◌∷◌, ◌++◌, arith,
  if◌then◌else◌, every, sym, ◌∙◌, contains, distinct-append, distinct-remove_first, contains-append,
  contains-remove_first, distinct, remove_first, text_eq, text_beq_iff, ◌==◌,
}
use tlsocket.Text.{Text, Unicode, is_empty, strip, normalise, not_break}
use tlsocket.Auth.Bans.{get_banned_users, load_banned_users, save_banned_users, add_ban, remove_ban}
use tlsocket.Auth.Bans.Roundtrip.{
  IsEntry-normalise, AreEntries-get_banned_users, AreEntries-append, AreEntries-remove_first,
  get_banned_users-save,
}

abbrev pub is_banned : Unicode → Option Text → Text → Bool
is_banned u file name = contains (get_banned_users u file) name

-- The log-in asks the same list.
pub load_banned_users-eq :
    (u : Unicode) (file : Option Text) → load_banned_users u file ≡ get_banned_users u file
unfolding load_banned_users get_banned_users
load_banned_users-eq u none = refl
load_banned_users-eq u (some content) = refl

module _ (u : Unicode) (nickname : Text) (one_line : every not_break nickname ≡ true) where
  blank_iff : is_empty (normalise u nickname) ≡ is_empty (strip nickname)
  unfolding normalise
  blank_iff = u.empty_lower (strip nickname)

  saved_ban :
      (file : Option Text)
      → is_empty (normalise u nickname) ≡ false
      → get_banned_users u
          (some (save_banned_users (get_banned_users u file ++ normalise u nickname ∷ [])))
        ≡ get_banned_users u file ++ normalise u nickname ∷ []
  saved_ban file n =
      get_banned_users-save u (get_banned_users u file ++ normalise u nickname ∷ []) (
        AreEntries-append u (get_banned_users u file) (normalise u nickname ∷ [])
          (AreEntries-get_banned_users u file)
          (IsEntry-normalise u nickname one_line (sym blank_iff ∙ n), tt))

  listed-add_ban :
      (file : Option Text)
      → get_banned_users u (add_ban u nickname file) ≡ (
          if is_empty (normalise u nickname)
          then get_banned_users u file
          else if is_banned u file (normalise u nickname)
          then get_banned_users u file
          else get_banned_users u file ++ normalise u nickname ∷ [])
  unfolding add_ban
  listed-add_ban file = ground (arith, saved_ban file)

  -- After `add_ban` of a nickname without a line break the banned names are those of before and, if it
  -- is not blank, the normalised nickname.
  pub is_banned-add_ban :
      (file : Option Text) (name : Text)
      → is_banned u (add_ban u nickname file) name ≡ (
          not (is_empty (normalise u nickname)) && normalise u nickname == name
          || is_banned u file name)
  unfolding contains
  is_banned-add_ban file name = ground (
    arith,
    listed-add_ban file,
    contains-append (get_banned_users u file) (normalise u nickname ∷ []) name,
    text_beq_iff (normalise u nickname) name,
  )

  -- No name is twice in the list after the ban of a nickname without a line break, if none was before.
  pub distinct-add_ban :
      (file : Option Text)
      → distinct (get_banned_users u file) ≡ true
      → distinct (get_banned_users u (add_ban u nickname file)) ≡ true
  distinct-add_ban file d =
      ground (
        arith,
        listed-add_ban file,
        distinct-append (get_banned_users u file) (normalise u nickname),
      )

module _ (u : Unicode) (nickname : Text) where
  listed-remove_ban :
      (file : Option Text)
      → get_banned_users u (remove_ban u nickname file) ≡ (
          if is_banned u file (normalise u nickname)
          then remove_first (normalise u nickname) (get_banned_users u file)
          else get_banned_users u file)
  unfolding remove_ban
  listed-remove_ban file = ground (
    arith,
    get_banned_users-save u (remove_first (normalise u nickname) (get_banned_users u file)) (
        AreEntries-remove_first u (normalise u nickname) (get_banned_users u file)
          (AreEntries-get_banned_users u file)),
  )

  -- If no name is twice in the list, then after `remove_ban` the banned names are those of before
  -- without the normalised nickname, and still no name is twice in the list.
  pub is_banned-remove_ban :
      (file : Option Text) (name : Text)
      → distinct (get_banned_users u file) ≡ true
      → (is_banned u (remove_ban u nickname file) name
          ≡ (if normalise u nickname == name then false else is_banned u file name))
        × (distinct (get_banned_users u (remove_ban u nickname file)) ≡ true)
  is_banned-remove_ban file name d = ground (
    arith,
    listed-remove_ban file,
    contains-remove_first (normalise u nickname) (get_banned_users u file) name,
    distinct-remove_first (normalise u nickname) (get_banned_users u file),
    text_beq_iff (normalise u nickname) name,
  )
