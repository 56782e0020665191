-- ===== src/Organizations.antt =====
-- Organizations and their lifecycle: apps/api/app/services/organization.py, the guarded update of
-- apps/api/app/repositories/organization.py, the caller's membership of apps/api/app/api/deps.py,
-- and the routes of apps/api/app/api/v1/organizations.py that change an organization. A request is
-- one transaction. The database makes the ids, names and slugs are only compared and stored, and
-- the caller's session names the active organization.
pub mod Owned
pub mod Recovery
pub mod Deactivation
mod Tests
use capacityos.Base.{
  ℕ, Bool, true, false, ◌&&◌, not, Option, none, some, List, [], ◌∷◌, ◌++◌, ltb, ◌==◌,
  if◌then◌else◌, find, any, map, keep,
}
use capacityos.Base.Errors.{
  not_found_error, conflict_error, domain_validation_error, forbidden_error,
  no_active_organization_error, Result, ok, err, ◌>>=◌, ◌>>◌, raise_if, or_raise,
}
use capacityos.Capacity.{Uuid}
use capacityos.Authorization.{owner, organization_manage, has_permission}
use capacityos.Membership.{
  Membership, MembershipStatus, Directory, is_in_effect, is_owner, get_by_user_and_org,
  count_active_owners, update_rows, or_keep,
}

pub record Organization : Type 0 where
  pub id : Uuid
  pub name : ℕ
  pub slug : ℕ
  pub is_active : Bool

pub record Tables : Type 0 where
  pub organizations : List Organization
  pub directory : Directory

abbrev pub has_id : Uuid → Organization → Bool
has_id org o = o.id == org

-- `create_organization` and `OrganizationService.create`; `new_id` is the id of the new row.
unfoldable pub create_organization : Uuid → ℕ → ℕ → Uuid → Tables → Result Tables
create_organization new_id name slug creator t = do
  raise_if (any (λ o. o.slug == slug) t.organizations) conflict_error
  let organization : Organization = record {
    id = new_id;
    name = name;
    slug = slug;
    is_active = true;
  }
  let membership : Membership = record {
    user_id = creator;
    organization_id = new_id;
    role = owner;
    status = MembershipStatus.active;
  }
  ok (record {
    organizations = t.organizations ++ organization ∷ [];
    directory = record t.directory { memberships = t.directory.memberships ++ membership ∷ [] };
  })

abbrev pub get_organization : Uuid → Tables → Result Organization
get_organization org t = or_raise (find (has_id org) t.organizations) not_found_error

-- `list_mine`, with `list_active_for_user` and `list_by_ids` of the repositories.
unfoldable pub list_mine : Uuid → Tables → List Organization
list_mine user t =
    let memberships =
      keep (λ m. m.user_id == user && is_in_effect m.status) t.directory.memberships in
    let organization_ids = map (λ m. m.organization_id) memberships in
    keep (λ o. any (λ i. i == o.id) organization_ids) t.organizations

-- `get_current_membership`, with the active organization of the caller's session.
unfoldable pub get_current_membership : Option Uuid → Uuid → Tables → Result Membership
get_current_membership active_organization caller t = do
  org ← or_raise active_organization no_active_organization_error
  m ← or_raise (get_by_user_and_org caller org t.directory) no_active_organization_error
  raise_if (not (is_in_effect m.status)) no_active_organization_error
  organization ← or_raise (find (has_id org) t.organizations) no_active_organization_error
  raise_if (not organization.is_active) no_active_organization_error
  ok m

-- `_require_active_organization` and `_require_manage`
abbrev pub require_manager : Uuid → Membership → Result (Unit {0})
require_manager org m =
    raise_if (not (org == m.organization_id)) not_found_error
    >> raise_if (not (has_permission m.role organization_manage none)) forbidden_error

-- `update_organization` and `OrganizationService.update`; the name is the only field that a request
-- sets.
unfoldable pub update_organization : Option Uuid → Uuid → Uuid → Option ℕ → Tables → Result Tables
unfolding get_current_membership
update_organization active_organization caller org name t = do
  m ← get_current_membership active_organization caller t
  require_manager org m
  organization ← get_organization org t
  ok (record t {
    organizations =
        map (λ o. if has_id org o then record o { name = or_keep name o.name } else o)
          t.organizations;
  })

unfoldable pub deactivate_if_safe : Uuid → Tables → Tables × Bool
deactivate_if_safe org t =
    let (rows, updated) =
      update_rows (λ o. has_id org o && ltb 1 (count_active_owners org t.directory))
        (λ o. record o { is_active = false }) t.organizations in
    (record t { organizations = rows }, updated)

-- `OrganizationService.deactivate`
unfoldable pub deactivate : Uuid → Tables → Result Tables
unfolding deactivate_if_safe
deactivate org t = do
  organization ← get_organization org t
  let changed = deactivate_if_safe org t
  raise_if (not changed.1) domain_validation_error
  ok changed.0

unfoldable pub deactivate_organization : Option Uuid → Uuid → Uuid → Tables → Result Tables
unfolding get_current_membership deactivate
deactivate_organization active_organization caller org t = do
  m ← get_current_membership active_organization caller t
  require_manager org m
  deactivate org t

-- `OrganizationService.reactivate`
unfoldable pub reactivate : Uuid → Tables → Result Tables
reactivate org t = do
  organization ← get_organization org t
  let rows = map (λ o. if has_id org o then record o { is_active = true } else o) t.organizations
  ok (if organization.is_active then t else record t { organizations = rows })

-- The route asks for the caller's own membership of the organization, which no session can have as
-- its active one.
unfoldable pub reactivate_organization : Uuid → Uuid → Tables → Result Tables
unfolding reactivate
reactivate_organization caller org t = do
  m ← or_raise (get_by_user_and_org caller org t.directory) not_found_error
  raise_if (not (is_in_effect m.status)) not_found_error
  raise_if (not (is_owner m.role)) forbidden_error
  reactivate org t
