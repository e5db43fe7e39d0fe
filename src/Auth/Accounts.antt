-- ===== src/Auth/Accounts.antt =====
-- src/tlsocket/auth/authentication.py. The file of the accounts is the value that `json.load` reads back,
-- `none` where it does not exist. Argon2 and SHA-256 are the parameters of `Hasher`.
pub mod Registration
pub mod Login
pub mod Roles
use tlsocket.Prelude.{
  ℕ, Bool, true, false, ◌||◌, ◌≡◌, Option, none, some, List, [], ◌∷◌, ◌++◌, if◌then◌else◌, ◌==◌,
  text_eq, contains, not, get_or,
}
use tlsocket.Dict.{lookup, insert, has}
use tlsocket.Text.{Text, Unicode, codes, strip, starts_with, normalise}
use tlsocket.Security.Validation.{validate_nickname}
use tlsocket.Auth.Bans.{load_banned_users}

pub data Verdict : Type 0 where
  verified mismatch invalid_hash other_error : Verdict

abbrev pub argon2_prefix : Text
argon2_prefix = codes "$argon2"

-- `argon2.PasswordHasher` and `hashlib.sha256(...).hexdigest()`. The salt is an argument.
pub record Hasher : Type 0 where
  pub hash : ℕ → Text → Text
  pub verify : Text → Text → Verdict
  pub check_needs_rehash : Text → Bool
  pub sha256_hex : Text → Text
  -- a hash is in the PHC format, is verified by its password, and has the current parameters
  pub hash_prefix : (salt : ℕ) (p : Text) → starts_with argon2_prefix (hash salt p) ≡ true
  pub verify_hash : (salt : ℕ) (p : Text) → verify (hash salt p) p ≡ verified
  pub fresh_hash : (salt : ℕ) (p : Text) → check_needs_rehash (hash salt p) ≡ false

-- the value of a user: {"password_hash": …, "role": …}; an old file may lack the role
pub record Account : Type 0 where
  pub password_hash : Text
  pub role : Option Text

abbrev pub Users : Type 0
Users = List (Text × Account)

unfoldable pub load_users : Option Users → Users
load_users none = []
load_users (some users) = users

abbrev pub default_role : Text
default_role = codes "user"

unfoldable pub is_legacy_hash : Text → Bool
is_legacy_hash stored = not (starts_with argon2_prefix stored)

-- `none` is an exception that is not caught
abbrev pub answer : Verdict → Option Bool
answer verified = some true
answer mismatch = some false
answer invalid_hash = some false
answer other_error = none

module _ (h : Hasher) where
  unfoldable pub legacy_hash_password : Text → Text
  legacy_hash_password password = h.sha256_hex (password ++ codes "tcp_chat_room_salt_2026")

  unfoldable pub needs_rehash : Text → Bool
  needs_rehash stored = if is_legacy_hash stored then true else h.check_needs_rehash stored

  unfoldable pub verify_password : Text → Text → Option Bool
  verify_password stored provided =
      if is_legacy_hash stored
      then some (stored == legacy_hash_password provided)
      else answer (h.verify stored provided)

module _ (u : Unicode) (h : Hasher) where
  -- the file after the call, the verdict and its text
  unfoldable pub register : ℕ → Text → Text → Text → Option Users → Option Users × Bool × Text
  register salt username password role file =
      let name = normalise u username in
      if not (validate_nickname name).0
      then (file, false, codes "Invalid username")
      else if has name (load_users file)
      then (file, false, codes "User already exists")
      else (
        some (
            insert name (record { password_hash = h.hash salt password; role = some role })
              (load_users file)),
        true,
        codes "Registration successful",
      )

pub record LoginSession : Type 0 where
  pub username : Text
  pub role : Text

-- (False, None), (True, None), (True, session), or an exception
pub data LoginResult : Type 0 where
  refused banned raised : LoginResult
  accepted : LoginSession → LoginResult

module _ (u : Unicode) (h : Hasher) where
  -- the hash of an account is replaced by one of the current algorithm
  unfoldable pub rehash : ℕ → Text → Text → Account → Option Users → Option Users
  rehash salt name password account file =
      if needs_rehash h account.password_hash
      then some
          (insert name (record account { password_hash = h.hash salt password }) (load_users file))
      else file

  -- the role of the session is read again
  unfoldable pub session_for : Text → Option Users → LoginResult
  session_for name file = elim (lookup name (load_users file)) [
    | none ↦ raised
    | some account ↦ accepted (record { username = name; role = get_or account.role default_role })
  ]

  unfoldable pub login_verified :
      ℕ → Text → Text → Account → Option Users → Option Text → Option Users × LoginResult
  login_verified salt name password account file ban_file =
      let file' = rehash salt name password account file in
      if contains (load_banned_users u ban_file) name
      then (file', banned)
      else (file', session_for name file')

  unfoldable pub login_account :
      ℕ → Text → Text → Account → Option Users → Option Text → Option Users × LoginResult
  login_account salt name password account file ban_file =
      elim (verify_password h account.password_hash password) [
        | none ↦ (file, raised)
        | some b ↦
            if b then login_verified salt name password account file ban_file else (file, refused)
      ]

  unfoldable pub login : ℕ → Text → Text → Option Users → Option Text → Option Users × LoginResult
  login salt username password file ban_file =
      let name = normalise u username in
      elim (lookup name (load_users file)) [
        | none ↦ (file, refused)
        | some account ↦ login_account salt name password account file ban_file
      ]

abbrev pub roles : List Text
roles = codes "admin" ∷ codes "moderator" ∷ codes "user" ∷ []

module _ (u : Unicode) where
  -- The outer `none` is the KeyError of an account with no role.
  unfoldable pub get_user_role : Text → Option Users → Option (Option Text)
  get_user_role username file = elim (lookup (normalise u username) (load_users file)) [
    | none ↦ some none
    | some account ↦ elim account.role [ none ↦ none | some role ↦ some (some role) ]
  ]

  unfoldable pub set_user_role : Text → Text → Option Users → Option Users × Bool
  set_user_role username new_role file =
      let name = normalise u username in
      let role = normalise u new_role in
      if not (contains roles role) then (file, false) else elim (lookup name (load_users file)) [
        | none ↦ (file, false)
        | some account ↦
            (some (insert name (record account { role = some role }) (load_users file)), true)
      ]
