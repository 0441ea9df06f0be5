-- ===== src/Access/Roles.antt =====
-- packages/types/src/authz.ts: ROLE_CAPABILITIES, `can`, `canAssignRole` and `canActOn`.
use corebase.Base.{ℕ, Bool, true, false, not, List, [], ◌∷◌, ◌++◌, any, leb, ◌==◌, if◌then◌else◌}

pub data Role : Type 0 where
  owner admin member : Role

pub data Capability : Type 0 where
  org_read org_update org_delete org_billing member_read member_invite member_role_change
        member_role_grant_owner member_remove project_read project_create project_lifecycle
        project_delete key_manage secret_manage db_query authuser_read authuser_manage :
      Capability

-- The place in CAPABILITIES.
abbrev pub place_of : Capability → ℕ
place_of org_read = 0
place_of org_update = 1
place_of org_delete = 2
place_of org_billing = 3
place_of member_read = 4
place_of member_invite = 5
place_of member_role_change = 6
place_of member_role_grant_owner = 7
place_of member_remove = 8
place_of project_read = 9
place_of project_create = 10
place_of project_lifecycle = 11
place_of project_delete = 12
place_of key_manage = 13
place_of secret_manage = 14
place_of db_query = 15
place_of authuser_read = 16
place_of authuser_manage = 17

abbrev pub members : List Capability
members = org_read ∷ member_read ∷ project_read ∷ project_create ∷ project_lifecycle ∷ db_query ∷ []

abbrev pub added_to_admins : List Capability
added_to_admins =
    org_update ∷ member_invite ∷ member_role_change ∷ member_remove ∷ project_delete ∷ key_manage
    ∷ secret_manage ∷ authuser_read ∷ authuser_manage ∷ []

abbrev pub admins : List Capability
admins = members ++ added_to_admins

abbrev pub added_to_owners : List Capability
added_to_owners = org_delete ∷ org_billing ∷ member_role_grant_owner ∷ []

abbrev pub owners : List Capability
owners = admins ++ added_to_owners

abbrev pub role_capabilities : Role → List Capability
role_capabilities member = members
role_capabilities admin = admins
role_capabilities owner = owners

unfoldable pub can : Role → Capability → Bool
can role capability = any (λ c. place_of c == place_of capability) (role_capabilities role)

abbrev pub is_owner : Role → Bool
is_owner owner = true
is_owner _ = false

unfoldable pub can_assign_role : Role → Role → Bool
can_assign_role actor target =
    if not (can actor member_role_change)
    then false
    else if is_owner target
    then can actor member_role_grant_owner
    else true

abbrev pub rank : Role → ℕ
rank member = 1
rank admin = 2
rank owner = 3

unfoldable pub can_act_on : Role → Role → Bool
can_act_on actor subject = leb (rank subject) (rank actor)
