-- ===== src/Authorization/Roles.antt =====
-- The five roles in order, and what a resource's scope adds.
use capacityos.Base.{ℕ, ◌≤◌, ◌≡◌, refl, ◌↔◌, ◌⊎◌, true, Option, none, some, arith, leb}
use capacityos.Authorization.{
  UserRole, owner, admin, manager, member, viewer, Permission, role_permissions, ResourceScope,
  has_permission, access_manage, organization_manage, membership_manage, prioritization_manage,
  export_use, user_read, user_write, audit_read, person_read, team_read, project_read,
  allocation_read, schedule_read, skill_read, risk_read, stakeholder_read, scenario_read,
  insight_read, ai_use, prioritization_read,
}

-- The roles from the least to the most powerful.
abbrev pub rank : UserRole → ℕ
rank viewer = 0
rank member = 1
rank manager = 2
rank admin = 3
rank owner = 4

role_permissions_mono :
    (a b : UserRole) (p : Permission)
    → rank a ≤ rank b
    → role_permissions a p ≡ true
    → role_permissions b p ≡ true
unfolding role_permissions
role_permissions_mono viewer b p r h = ground arith
role_permissions_mono member b p r h = ground arith
role_permissions_mono manager b p r h = ground arith
role_permissions_mono admin b p r h = ground arith
role_permissions_mono owner b p r h = ground arith

-- The roles are ordered: whatever Viewer, Member, Manager, Admin and Owner may do, with or without
-- a resource's scope, each role after it in this order may do under the same scope.
pub has_permission_mono :
    (a b : UserRole) (permission : Permission) (resource : Option ResourceScope)
    → rank a ≤ rank b
    → has_permission a permission resource ≡ true
    → has_permission b permission resource ≡ true
unfolding has_permission
has_permission_mono a b p resource r h = ground (arith, role_permissions_mono a b p r)

-- On one resource, a permission is held exactly by a role that has it at all and is Owner or Admin
-- or has an explicit grant for the resource.
pub has_permission_iff :
    (role : UserRole) (permission : Permission) (resource : ResourceScope)
    → (has_permission role permission (some resource) ≡ true) ↔ (
        (role_permissions role permission ≡ true)
        × ((rank admin ≤ rank role) ⊎ (resource.granted ≡ true)))
unfolding has_permission
has_permission_iff owner p resource = ground arith
has_permission_iff admin p resource = ground arith
has_permission_iff manager p resource = ground arith
has_permission_iff member p resource = ground arith
has_permission_iff viewer p resource = ground arith

-- The rank from which on a role has a permission. Reading takes any role and exporting a Member;
-- changing the plan, importing and scoring take a Manager; accounts, the audit trail, grants,
-- memberships and frameworks an Admin; and the organization itself its Owner.
abbrev pub required_rank : Permission → ℕ
required_rank export_use = rank member
required_rank organization_manage = rank owner
required_rank access_manage = rank admin
required_rank membership_manage = rank admin
required_rank prioritization_manage = rank admin
required_rank user_read = rank admin
required_rank user_write = rank admin
required_rank audit_read = rank admin
required_rank person_read = rank viewer
required_rank team_read = rank viewer
required_rank project_read = rank viewer
required_rank allocation_read = rank viewer
required_rank schedule_read = rank viewer
required_rank skill_read = rank viewer
required_rank risk_read = rank viewer
required_rank stakeholder_read = rank viewer
required_rank scenario_read = rank viewer
required_rank insight_read = rank viewer
required_rank ai_use = rank viewer
required_rank prioritization_read = rank viewer
required_rank _ = rank manager

-- Without a scope a role has a permission exactly from the permission's rank on: any role may read
-- and use the AI layer, a Member may export, a Manager may change the plan, import and score, an
-- Admin may manage accounts, grants, memberships and frameworks, and only the Owner the
-- organization.
pub has_permission-required_rank :
    (role : UserRole) (permission : Permission)
    → has_permission role permission none ≡ leb (required_rank permission) (rank role)
unfolding has_permission
has_permission-required_rank owner export_use = refl
has_permission-required_rank owner _ = refl
has_permission-required_rank admin export_use = refl
has_permission-required_rank admin _ = refl
has_permission-required_rank manager export_use = refl
has_permission-required_rank manager _ = refl
has_permission-required_rank member export_use = refl
has_permission-required_rank member _ = refl
has_permission-required_rank viewer export_use = refl
has_permission-required_rank viewer _ = refl
