-- ===== src/Access/Tests.antt =====
-- An admin among members and owners.
use corebase.Base.{◌≡◌, refl, false}
use corebase.Access.Roles.{owner, admin, can, can_assign_role, can_act_on}

roles : Unit {0}
unfolding can can_assign_role can_act_on
roles = tt

admin_makes_no_owner : can_assign_role admin owner ≡ false
unfolding roles
admin_makes_no_owner = refl
