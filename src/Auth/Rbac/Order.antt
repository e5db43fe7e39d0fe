-- ===== src/Auth/Rbac/Order.antt =====
-- The hierarchy of the roles.
use tlsocket.Prelude.{true, false, ◌≡◌, refl, arith, ◌==◌, text_eq, text_beq, text_beq_iff, ==_refl}
use tlsocket.Text.{Text, codes}
use tlsocket.Auth.Rbac.{
  Permission, chat, kick, set, admin, moderator, user, moderator_permissions, user_permissions,
  has_permission, role_rank, can_act_on,
}

distinct_roles :
    ((admin == moderator) ≡ false) × ((admin == user) ≡ false) × ((moderator == user) ≡ false)
unfolding codes text_beq
distinct_roles = (refl, refl, refl)

-- A role that outranks another has each of its permissions.
pub permission_grows :
    (a b : Text) (p : Permission)
    → can_act_on a b ≡ true
    → has_permission b p ≡ true
    → has_permission a p ≡ true
unfolding can_act_on role_rank has_permission moderator_permissions user_permissions
permission_grows a b chat h k = ground (
  arith,
  text_beq_iff a admin,
  text_beq_iff a moderator,
  text_beq_iff a user,
  text_beq_iff b admin,
  text_beq_iff b moderator,
  text_beq_iff b user,
  distinct_roles,
)
permission_grows a b _ h k = ground (
  arith,
  text_beq_iff a admin,
  text_beq_iff a moderator,
  text_beq_iff a user,
  text_beq_iff b admin,
  text_beq_iff b moderator,
  text_beq_iff b user,
  distinct_roles,
)

-- `can_act_on` is transitive, and never holds both ways.
pub can_act_on_trans :
    (a b c : Text)
    → can_act_on a b ≡ true
    → can_act_on b c ≡ true
    → (can_act_on a c ≡ true) × (can_act_on c a ≡ false)
unfolding can_act_on
can_act_on_trans a b c h k = ground arith

-- On an admin nobody acts, on a moderator exactly an admin, on a user exactly who may kick; and exactly an
-- admin may set roles.
pub who_acts :
    (a : Text)
    → (can_act_on a admin ≡ false)
      × (can_act_on a moderator ≡ (a == admin))
      × (can_act_on a user ≡ has_permission a kick)
      × (has_permission a set ≡ (a == admin))
unfolding can_act_on role_rank has_permission moderator_permissions user_permissions
who_acts a = ground (
  arith,
  text_beq_iff a admin,
  text_beq_iff a moderator,
  text_beq_iff a user,
  distinct_roles,
  ==_refl admin,
  ==_refl moderator,
  ==_refl user,
  text_beq_iff admin user,
  text_beq_iff moderator user,
  text_beq_iff admin moderator,
  text_beq_iff moderator admin,
)
