-- ===== src/Tests/AuthTests.antt =====
-- The roles, the bans and the accounts.
use tlsocket.Prelude.{
  ◌≡◌, ◌≢◌, true, false, ◌&&◌, ◌||◌, not, refl, Option, none, some, [], ◌∷◌, every, contains,
  distinct, text_eq, text_beq, if◌then◌else◌, ◌==◌, get_or,
}
use tlsocket.Dict.{lookup}
use tlsocket.Text.{
  Text, codes, normalise, strip, lstrip, rstrip, is_space, is_empty, not_break, ascii_lower,
  starts_with,
}
use tlsocket.Security.Validation.{
  validate_nickname, validate_stripped, nickname_regex, nick_rest, nick_char,
}
use tlsocket.Auth.Rbac.{
  can_act_on, has_permission, admin, moderator, user, kick, role_rank, user_permissions,
  moderator_permissions,
}
use tlsocket.Auth.Bans.{
  add_ban, remove_ban, get_banned_users, load_banned_users, names_of, file_lines, line_split,
}
use tlsocket.Auth.Bans.Membership.{is_banned, is_banned-add_ban, is_banned-remove_ban}
use tlsocket.Auth.Accounts.{
  Account, Users, LoginSession, accepted, register, login, load_users, verify_password,
  default_role, set_user_role, banned, login_account, login_verified, rehash, session_for,
  needs_rehash, is_legacy_hash,
}
use tlsocket.Auth.Accounts.Registration.{login-register}
use tlsocket.Auth.Accounts.Login.{session_sound, login_again}
use tlsocket.Tests.Fixtures.{ascii_unicode, plain_hasher, plain_hash, plain_verify, bob, alice}

admin_over_user : can_act_on admin user ≡ true
unfolding can_act_on role_rank codes text_beq
admin_over_user = refl

admin_over_moderator : can_act_on admin moderator ≡ true
unfolding can_act_on role_rank codes text_beq
admin_over_moderator = refl

moderator_over_user : can_act_on moderator user ≡ true
unfolding can_act_on role_rank codes text_beq
moderator_over_user = refl

moderator_kicks : has_permission moderator kick ≡ true
unfolding has_permission moderator_permissions user_permissions codes text_beq
moderator_kicks = refl

bob_one_line : every not_break bob ≡ true
unfolding codes every
bob_one_line = refl

abbrev ban_file : Option Text
ban_file = some (codes "alice\n")

alice_once : distinct (get_banned_users ascii_unicode ban_file) ≡ true
unfolding get_banned_users names_of file_lines line_split codes normalise strip lstrip rstrip
    is_space is_empty ascii_lower distinct contains text_beq
alice_once = refl

is_banned-add_ban_example : is_banned ascii_unicode (add_ban ascii_unicode bob ban_file) bob ≡ (
    not (is_empty (normalise ascii_unicode bob)) && normalise ascii_unicode bob == bob
    || is_banned ascii_unicode ban_file bob)
is_banned-add_ban_example = is_banned-add_ban ascii_unicode bob bob_one_line ban_file bob

is_banned-remove_ban_example :
    (is_banned ascii_unicode (remove_ban ascii_unicode alice ban_file) alice ≡ (
      if normalise ascii_unicode alice == alice
      then false
      else is_banned ascii_unicode ban_file alice))
    × (distinct (get_banned_users ascii_unicode (remove_ban ascii_unicode alice ban_file)) ≡ true)
is_banned-remove_ban_example = is_banned-remove_ban ascii_unicode alice ban_file alice alice_once

abbrev accounts : Option Users
accounts =
    some ((alice, record { password_hash = plain_hash 0 (codes "pw"); role = some moderator }) ∷ [])

bob_registers : (register ascii_unicode plain_hasher 7 bob (codes "secret") user accounts).1 ≡ true
unfolding register validate_nickname validate_stripped nickname_regex nick_rest nick_char codes
    normalise strip lstrip rstrip is_space is_empty ascii_lower contains text_beq lookup load_users
bob_registers = refl

login-register_example :
    login ascii_unicode plain_hasher 8 bob
      (codes "secret")
      (register ascii_unicode plain_hasher 7 bob (codes "secret") user accounts).0
      ban_file
    ≡ (
      (register ascii_unicode plain_hasher 7 bob (codes "secret") user accounts).0,
      (if contains (load_banned_users ascii_unicode ban_file) (normalise ascii_unicode bob)
          then banned
          else accepted (record { username = normalise ascii_unicode bob; role = user })),
    )
login-register_example =
    login-register ascii_unicode plain_hasher 7 8 bob bob (codes "secret") user accounts ban_file
      bob_registers refl

abbrev alice_account : Account
alice_account = record { password_hash = plain_hash 0 (codes "pw"); role = some moderator }

alice_stored : lookup alice (load_users accounts) ≡ some alice_account
unfolding lookup load_users codes text_beq
alice_stored = refl

alice_banned :
    contains (load_banned_users ascii_unicode ban_file) (normalise ascii_unicode alice) ≡ true
unfolding load_banned_users get_banned_users names_of file_lines line_split codes normalise strip
    lstrip rstrip is_space is_empty ascii_lower contains text_beq
alice_banned = refl

abbrev alice_session : LoginSession
alice_session = record { username = alice; role = moderator }

alice_logs_in :
    (login ascii_unicode plain_hasher 8 alice (codes "pw") accounts none).1 ≡ accepted alice_session
unfolding login login_account login_verified rehash session_for verify_password needs_rehash
    is_legacy_hash plain_verify load_banned_users codes normalise strip lstrip rstrip is_space
    is_empty ascii_lower contains text_beq lookup load_users starts_with
alice_logs_in = refl

session_sound_example :
    (a : Account) × (lookup (normalise ascii_unicode alice) (load_users accounts) ≡ some a)
    × (verify_password plain_hasher a.password_hash (codes "pw") ≡ some true)
    × (contains (load_banned_users ascii_unicode none) (normalise ascii_unicode alice) ≡ false)
    × (alice_session.username ≡ normalise ascii_unicode alice)
    × (alice_session.role ≡ get_or a.role default_role)
session_sound_example =
    session_sound ascii_unicode plain_hasher 8 alice (codes "pw") accounts none alice_session
      alice_logs_in

bob_is_not_alice : normalise ascii_unicode bob ≢ alice
unfolding codes normalise strip lstrip rstrip is_space is_empty ascii_lower
bob_is_not_alice e = cc

login_again_example :
    login ascii_unicode plain_hasher 9 alice
      (codes "pw")
      (login ascii_unicode plain_hasher 8 alice (codes "pw") accounts none).0
      none
    ≡ login ascii_unicode plain_hasher 8 alice (codes "pw") accounts none
login_again_example =
    login_again ascii_unicode plain_hasher 8 9 alice (codes "pw") accounts none alice_session
      alice_logs_in

alice_promoted : (set_user_role ascii_unicode alice admin accounts).1 ≡ true
unfolding set_user_role codes normalise strip lstrip rstrip is_space is_empty ascii_lower contains
    text_beq lookup load_users
alice_promoted = refl
