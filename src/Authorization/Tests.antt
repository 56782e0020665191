-- ===== src/Authorization/Tests.antt =====
-- The theorems on roles at concrete roles and permissions.
use capacityos.Base.{◌≡◌, refl, false, none, some, leb}
use capacityos.Authorization.{manager, admin, team_write, organization_manage, has_permission}
use capacityos.Authorization.Roles.{rank, required_rank, has_permission-required_rank}

manager_needs_grant : has_permission manager team_write (some (record { granted = false })) ≡ false
unfolding has_permission
manager_needs_grant = refl

has_permission-required_rank_example :
    has_permission admin organization_manage none
    ≡ leb (required_rank organization_manage) (rank admin)
has_permission-required_rank_example = has_permission-required_rank admin organization_manage
