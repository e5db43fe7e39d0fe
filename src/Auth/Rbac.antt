-- ===== src/Auth/Rbac.antt =====
-- src/tlsocket/auth/rbac.py. Ranks stand one higher than in the source, so that the -1 of an unknown role
-- is 0.
pub mod Order
use tlsocket.Prelude.{ℕ, Bool, true, false, if◌then◌else◌, ltb, ◌==◌, text_eq}
use tlsocket.Text.{Text, codes}

pub data Permission : Type 0 where
  chat kick ban unban set : Permission

abbrev pub admin : Text
admin = codes "admin"

abbrev pub moderator : Text
moderator = codes "moderator"

abbrev pub user : Text
user = codes "user"

unfoldable pub moderator_permissions : Permission → Bool
moderator_permissions set = false
moderator_permissions _ = true

unfoldable pub user_permissions : Permission → Bool
user_permissions chat = true
user_permissions _ = false

-- `ROLES_PERMISSIONS.get(role, set())`, as the test of membership
unfoldable pub has_permission : Text → Permission → Bool
has_permission role p =
    if role == admin
    then true
    else if role == moderator
    then moderator_permissions p
    else if role == user
    then user_permissions p
    else false

unfoldable pub role_rank : Text → ℕ
role_rank role =
    if role == user then 1 else if role == moderator then 2 else if role == admin then 3 else 0

unfoldable pub can_act_on : Text → Text → Bool
can_act_on actor_role target_role = ltb (role_rank target_role) (role_rank actor_role)
