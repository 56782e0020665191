-- ===== src/Authorization.antt =====
-- apps/api/app/domain/authorization.py: roles, permissions and the scope of one resource.
-- A frozenset of permissions is its membership test.
pub mod Roles
mod Tests
use capacityos.Base.{Bool, true, false, ◌||◌, not, Option, none, some, if◌then◌else◌}

pub data UserRole : Type 0 where
  owner admin manager member viewer : UserRole

pub data Permission : Type 0 where
  person_read person_write person_delete : Permission
  team_read team_write team_delete : Permission
  project_read project_write project_delete : Permission
  allocation_read allocation_write allocation_delete : Permission
  schedule_read schedule_write schedule_delete : Permission
  skill_read skill_write skill_delete : Permission
  risk_read risk_write risk_delete : Permission
  stakeholder_read stakeholder_write stakeholder_delete : Permission
  scenario_read scenario_write scenario_delete : Permission
  insight_read import_use export_use ai_use : Permission
  user_read user_write audit_read : Permission
  access_manage organization_manage membership_manage : Permission
  prioritization_read prioritization_score prioritization_manage : Permission

-- `_READ_PERMISSIONS`
abbrev pub read_permissions : Permission → Bool
read_permissions person_read = true
read_permissions team_read = true
read_permissions project_read = true
read_permissions allocation_read = true
read_permissions schedule_read = true
read_permissions skill_read = true
read_permissions risk_read = true
read_permissions stakeholder_read = true
read_permissions scenario_read = true
read_permissions insight_read = true
read_permissions ai_use = true
read_permissions prioritization_read = true
read_permissions _ = false

-- `_WRITE_PERMISSIONS`
abbrev pub write_permissions : Permission → Bool
write_permissions person_write = true
write_permissions person_delete = true
write_permissions team_write = true
write_permissions team_delete = true
write_permissions project_write = true
write_permissions project_delete = true
write_permissions allocation_write = true
write_permissions allocation_delete = true
write_permissions schedule_write = true
write_permissions schedule_delete = true
write_permissions skill_write = true
write_permissions skill_delete = true
write_permissions risk_write = true
write_permissions risk_delete = true
write_permissions stakeholder_write = true
write_permissions stakeholder_delete = true
write_permissions scenario_write = true
write_permissions scenario_delete = true
write_permissions import_use = true
write_permissions prioritization_score = true
write_permissions _ = false

-- The permissions that Admin and Owner have beyond Manager's.
abbrev pub admin_permissions : Permission → Bool
admin_permissions user_read = true
admin_permissions user_write = true
admin_permissions audit_read = true
admin_permissions access_manage = true
admin_permissions membership_manage = true
admin_permissions prioritization_manage = true
admin_permissions _ = false

abbrev pub is_export_use : Permission → Bool
is_export_use export_use = true
is_export_use _ = false

abbrev pub is_organization_manage : Permission → Bool
is_organization_manage organization_manage = true
is_organization_manage _ = false

-- `ROLE_PERMISSIONS`
unfoldable pub role_permissions : UserRole → Permission → Bool
role_permissions viewer p = read_permissions p
role_permissions member p = read_permissions p || is_export_use p
role_permissions manager p = read_permissions p || is_export_use p || write_permissions p
role_permissions admin p =
    read_permissions p || is_export_use p || write_permissions p || admin_permissions p
role_permissions owner p =
    read_permissions p
    || is_export_use p
    || write_permissions p
    || admin_permissions p
    || is_organization_manage p

pub record ResourceScope : Type 0 where
  pub granted : Bool

-- `role in (UserRole.OWNER, UserRole.ADMIN)`
abbrev pub is_owner_or_admin : UserRole → Bool
is_owner_or_admin owner = true
is_owner_or_admin admin = true
is_owner_or_admin _ = false

-- What the scope says to a role that has the permission.
abbrev pub within_scope : UserRole → Option ResourceScope → Bool
within_scope role none = true
within_scope role (some resource) = if is_owner_or_admin role then true else resource.granted

unfoldable pub has_permission : UserRole → Permission → Option ResourceScope → Bool
unfolding role_permissions
has_permission role permission resource =
    if not (role_permissions role permission) then false else within_scope role resource
