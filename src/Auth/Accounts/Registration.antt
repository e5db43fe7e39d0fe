-- ===== src/Auth/Accounts/Registration.antt =====
-- What a registration adds, and the log-in after it.
use tlsocket.Prelude.{
  ℕ, true, false, ◌≡◌, Option, some, arith, if◌then◌else◌, ◌==◌, text_eq, text_beq_iff, ==_refl,
  contains,
}
use tlsocket.Dict.{lookup}
use tlsocket.Dict.Laws.{lookup-insert}
use tlsocket.Text.{Text, Unicode, normalise}
use tlsocket.Auth.Bans.{load_banned_users}
use tlsocket.Auth.Accounts.{
  Hasher, Account, Users, load_users, is_legacy_hash, needs_rehash, verify_password, register,
  accepted, banned, rehash, session_for, login_verified, login_account, login,
}

module _ (u : Unicode) (h : Hasher) where
  -- The current algorithm's hash verifies and is left alone.
  pub hash_accepted :
      (salt : ℕ) (p : Text)
      → (verify_password h (h.hash salt p) p ≡ some true) × (needs_rehash h (h.hash salt p) ≡ false)
  unfolding verify_password needs_rehash is_legacy_hash
  hash_accepted salt p =
      ground (arith, h.hash_prefix salt p, h.verify_hash salt p, h.fresh_hash salt p)

  abbrev stored_by : ℕ → Text → Text → Account
  stored_by salt password role = record { password_hash = h.hash salt password; role = some role }

  -- What `register` answers, and what it stores: exactly a new name that passes the check.
  pub register_stores :
      (salt : ℕ) (username password role : Text) (file : Option Users) (name : Text)
      → lookup name (load_users (register u h salt username password role file).0) ≡ (
          if (register u h salt username password role file).1
          then (if normalise u username == name
              then some (stored_by salt password role)
              else lookup name (load_users file))
          else lookup name (load_users file))
  unfolding register load_users
  register_stores salt username password role file name = ground (
    arith,
    lookup-insert (normalise u username) name (stored_by salt password role) (load_users file),
  )

  -- A registration, successful or not, leaves an account that is there as it was.
  pub register_keeps :
      (salt : ℕ) (username password role : Text) (file : Option Users) (name : Text) (a : Account)
      → lookup name (load_users file) ≡ some a
      → lookup name (load_users (register u h salt username password role file).0) ≡ some a
  unfolding register load_users
  register_keeps salt username password role file name a found = ground (
    arith,
    lookup-insert (normalise u username) name (stored_by salt password role) (load_users file),
    text_beq_iff (normalise u username) name,
  )

  -- Whoever has registered logs in, under any spelling of the name that normalises alike, with the
  -- password, and gets the role of the registration or, if the name is banned, the answer that it is;
  -- the file stays as it is.
  pub login-register :
      (salt salt' : ℕ) (username username' password role : Text) (file : Option Users)
      (bans : Option Text)
      → (register u h salt username password role file).1 ≡ true
      → normalise u username' ≡ normalise u username
      → login u h salt' username' password (register u h salt username password role file).0 bans
        ≡ (
          (register u h salt username password role file).0,
          (if contains (load_banned_users u bans) (normalise u username)
              then banned
              else accepted (record { username = normalise u username; role = role })),
        )
  unfolding login login_account login_verified rehash session_for
  login-register salt salt' username username' password role file bans success alike = ground (
    arith,
    register_stores salt username password role file (normalise u username),
    hash_accepted salt password,
    ==_refl (normalise u username),
  )
