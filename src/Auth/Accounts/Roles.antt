-- ===== src/Auth/Accounts/Roles.antt =====
-- Changing and asking for the role of an account.
use tlsocket.Prelude.{
  true, ◌&&◌, ◌≡◌, Option, none, some, arith, if◌then◌else◌, ◌==◌, text_eq, text_beq_iff, ==_refl,
  contains, Option-cases, inl, inr,
}
use tlsocket.Dict.{lookup, has}
use tlsocket.Dict.Laws.{lookup-insert}
use tlsocket.Text.{Text, Unicode, normalise}
use tlsocket.Auth.Accounts.{Account, Users, load_users, roles, get_user_role, set_user_role}

module _ (u : Unicode) where
  -- A change of role succeeds exactly for a stored account and one of the three roles.
  pub set_user_role_iff :
      (username role : Text) (file : Option Users)
      → (set_user_role u username role file).1
        ≡ (contains roles (normalise u role) && has (normalise u username) (load_users file))
  unfolding set_user_role
  set_user_role_iff username role file = ground arith

  abbrev pub with_role : Text → Option Account → Option Account
  with_role role none = none
  with_role role (some a) = some (record a { role = some role })

  -- A change that is made gives the account the new role, normalised, and nothing else; a change that is
  -- refused changes no account. Every other account stays as it was.
  pub lookup-set_user_role :
      (username role : Text) (file : Option Users) (other : Text)
      → lookup other (load_users (set_user_role u username role file).0) ≡ (
          if (set_user_role u username role file).1 && normalise u username == other
          then with_role (normalise u role) (lookup other (load_users file))
          else lookup other (load_users file))
  unfolding set_user_role load_users
  lookup-set_user_role username role file other =
      elim (Option-cases (lookup (normalise u username) (load_users file))) [
        | inl missing ↦ ground arith
        | inr (a, found) ↦ ground (
          arith,
          found,
          text_beq_iff (normalise u username) other,
          lookup-insert (normalise u username) other (record a { role = some (normalise u role) })
              (load_users file),
        )
      ]

  -- The role that is asked for after a change that was made is the new one.
  pub get_user_role-set_user_role :
      (username role : Text) (file : Option Users)
      → (set_user_role u username role file).1 ≡ true
      → get_user_role u username (set_user_role u username role file).0
        ≡ some (some (normalise u role))
  unfolding set_user_role get_user_role load_users
  get_user_role-set_user_role username role file done =
      elim (Option-cases (lookup (normalise u username) (load_users file))) [
        | inl missing ↦ absurd (ground arith)
        | inr (a, found) ↦ ground (
          arith,
          found,
          ==_refl (normalise u username),
          lookup-insert (normalise u username) (normalise u username)
              (record a { role = some (normalise u role) }) (load_users file),
        )
      ]
