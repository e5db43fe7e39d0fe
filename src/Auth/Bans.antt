-- ===== src/Auth/Bans.antt =====
-- src/tlsocket/server_side/handlers/ban_handler.py, and `_load_banned_users` of src/tlsocket/auth/authentication.py. The
-- file is its text, `none` where it does not exist; it is read in text mode, which ends a line at a line
-- feed or a carriage return (the empty line between the two of a pair is dropped with the blank ones).
pub mod Roundtrip
pub mod Membership
use tlsocket.Prelude.{
  ℕ, Bool, true, false, ◌||◌, Option, none, some, List, [], ◌∷◌, ◌++◌, if◌then◌else◌, nat_beq,
  contains, remove_first, text_eq,
}
use tlsocket.Text.{Text, Unicode, is_empty, strip, normalise}

-- The first line, and the others.
unfoldable pub line_split : Text → Text × List Text
line_split [] = ([], [])
line_split (c ∷ s) =
    let (line, rest) = line_split s in
    if nat_beq c b'\n' || nat_beq c b'\r' then ([], line ∷ rest) else (c ∷ line, rest)

unfoldable pub file_lines : Text → List Text
file_lines s = let (line, rest) = line_split s in line ∷ rest

-- [line.strip().lower() for line in lines if line.strip()]
unfoldable pub names_of : Unicode → List Text → List Text
names_of u [] = []
names_of u (line ∷ lines) =
    let rest = names_of u lines in if is_empty (strip line) then rest else normalise u line ∷ rest

unfoldable pub get_banned_users : Unicode → Option Text → List Text
get_banned_users u none = []
get_banned_users u (some content) = names_of u (file_lines content)

-- the set is asked for membership only
unfoldable pub load_banned_users : Unicode → Option Text → List Text
load_banned_users u none = []
load_banned_users u (some content) = names_of u (file_lines content)

-- one line for each user; the replacement of the file is atomic
unfoldable pub save_banned_users : List Text → Text
save_banned_users [] = []
save_banned_users (name ∷ users) = name ++ b'\n' ∷ save_banned_users users

unfoldable pub add_ban : Unicode → Text → Option Text → Option Text
add_ban u nickname file =
    if is_empty (normalise u nickname)
    then file
    else if contains (get_banned_users u file) (normalise u nickname)
    then file
    else some (save_banned_users (get_banned_users u file ++ normalise u nickname ∷ []))

unfoldable pub remove_ban : Unicode → Text → Option Text → Option Text
remove_ban u nickname file =
    if contains (get_banned_users u file) (normalise u nickname)
    then some (save_banned_users (remove_first (normalise u nickname) (get_banned_users u file)))
    else file
