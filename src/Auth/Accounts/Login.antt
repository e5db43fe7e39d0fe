-- ===== src/Auth/Accounts/Login.antt =====
-- When a log-in gives a session, and what it changes.
use tlsocket.Prelude.{
  ℕ, true, false, ◌≡◌, ◌≢◌, Option, some, arith, if◌then◌else◌, ◌==◌, text_eq, text_beq_iff,
  ==_refl, contains, Option-cases, inl, inr, get_or,
}
use tlsocket.Dict.{lookup}
use tlsocket.Dict.Laws.{lookup-insert}
use tlsocket.Text.{Text, Unicode, normalise}
use tlsocket.Auth.Bans.{load_banned_users}
use tlsocket.Auth.Accounts.{
  Hasher, Account, Users, load_users, needs_rehash, verify_password, LoginSession, accepted, rehash,
  session_for, login_verified, login_account, login, default_role,
}
use tlsocket.Auth.Accounts.Registration.{hash_accepted}

module _ (u : Unicode) (h : Hasher) where
  abbrev rehashed : ℕ → Text → Account → Account
  rehashed salt password a =
      if needs_rehash h a.password_hash
      then record a { password_hash = h.hash salt password }
      else a

  lookup-rehash :
      (salt : ℕ) (name password : Text) (a : Account) (file : Option Users) (other : Text)
      → lookup name (load_users file) ≡ some a
      → lookup other (load_users (rehash u h salt name password a file)) ≡ (
          if name == other then some (rehashed salt password a) else lookup other (load_users file))
  unfolding rehash load_users
  lookup-rehash salt name password a file other found = ground (
    arith,
    lookup-insert name other (record a { password_hash = h.hash salt password }) (load_users file),
    text_beq_iff name other,
  )

  -- A banned user gets no session, whatever the password.
  pub banned_no_session :
      (salt : ℕ) (username password : Text) (file : Option Users) (bans : Option Text)
      (s : LoginSession)
      → contains (load_banned_users u bans) (normalise u username) ≡ true
      → (login u h salt username password file bans).1 ≢ accepted s
  unfolding login login_account login_verified
  banned_no_session salt username password file bans s b = ground arith

  -- A session is given only for a stored account whose password verifies, to a user who is not banned, with
  -- the normalised name and the account's own role, or the default for an account without one.
  pub session_sound :
      (salt : ℕ) (username password : Text) (file : Option Users) (bans : Option Text)
      (s : LoginSession)
      → (login u h salt username password file bans).1 ≡ accepted s
      → (a : Account) × (lookup (normalise u username) (load_users file) ≡ some a)
        × (verify_password h a.password_hash password ≡ some true)
        × (contains (load_banned_users u bans) (normalise u username) ≡ false)
        × (s.username ≡ normalise u username)
        × (s.role ≡ get_or a.role default_role)
  unfolding login login_account login_verified session_for
  session_sound salt username password file bans s e =
      elim (Option-cases (lookup (normalise u username) (load_users file))) [
        | inl missing ↦ absurd (ground arith)
        | inr (a, found) ↦ (
          a,
          found,
          ground arith,
          ground arith,
          ground (
            arith,
            lookup-rehash salt (normalise u username) password a file (normalise u username),
          ),
          ground (
            arith,
            lookup-rehash salt (normalise u username) password a file (normalise u username) found,
            ==_refl (normalise u username),
          ),
        )
      ]

  -- A log-in, successful or not, leaves the accounts of all other names as they were.
  pub login_others :
      (salt : ℕ) (username password : Text) (file : Option Users) (bans : Option Text)
      (other : Text)
      → normalise u username ≢ other
      → lookup other (load_users (login u h salt username password file bans).0)
        ≡ lookup other (load_users file)
  unfolding login login_account login_verified rehash load_users
  login_others salt username password file bans other ne =
      elim (Option-cases (lookup (normalise u username) (load_users file))) [
        | inl missing ↦ ground arith
        | inr (a, found) ↦ ground (
          arith,
          found,
          text_beq_iff (normalise u username) other,
          lookup-insert (normalise u username) other
              (record a { password_hash = h.hash salt password }) (load_users file),
        )
      ]

  -- After a log-in that gave a session the same log-in gives the same session again and changes nothing.
  pub login_again :
      (salt salt' : ℕ) (username password : Text) (file : Option Users) (bans : Option Text)
      (s : LoginSession)
      → (login u h salt username password file bans).1 ≡ accepted s
      → login u h salt' username password (login u h salt username password file bans).0 bans
        ≡ login u h salt username password file bans
  unfolding login login_account login_verified session_for rehash load_users
  login_again salt salt' username password file bans s e =
      elim (Option-cases (lookup (normalise u username) (load_users file))) [
        | inl missing ↦ absurd (ground arith)
        | inr (a, found) ↦ ground (
          arith,
          found,
          hash_accepted u h salt password,
          ==_refl (normalise u username),
          lookup-insert (normalise u username) (normalise u username)
              (record a { password_hash = h.hash salt password }) (load_users file),
        )
      ]
