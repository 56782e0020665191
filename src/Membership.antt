-- ===== src/Membership.antt =====
-- Accounts and their memberships of organizations: apps/api/app/services/organization_membership.py
-- and user.py, with the guarded updates of apps/api/app/repositories/organization_membership.py and
-- user.py. A table is the list of its rows, and an UPDATE rewrites the rows that its WHERE clause
-- selects. A request is one transaction, so an exception leaves the tables as they were. Emails and
-- display names are only compared and stored: they are numbers.
pub mod Counting
pub mod Owners
pub mod Accounts
pub mod Refusals
pub mod Keys
pub mod Reach
mod Tests
use capacityos.Base.{
  ℕ, suc, ◌+◌, Bool, true, false, ◌&&◌, ◌||◌, not, Option, none, some, List, [], ◌∷◌, ◌++◌, map,
  ltb, ◌==◌, if◌then◌else◌, find, any, total,
}
use capacityos.Base.Errors.{
  Error, not_found_error, conflict_error, domain_validation_error, forbidden_error, Result, ok, err,
  ◌>>=◌, ◌>>◌, raise_if, or_raise,
}
use capacityos.Capacity.{Uuid}
use capacityos.Authorization.{
  UserRole, owner, admin, Permission, membership_manage, has_permission, is_owner_or_admin,
}

pub data UserStatus : Type 0 where
  active invited disabled : UserStatus

pub data MembershipStatus : Type 0 where
  active revoked : MembershipStatus

abbrev pub is_user_active : UserStatus → Bool
is_user_active UserStatus.active = true
is_user_active _ = false

abbrev pub is_disabled : UserStatus → Bool
is_disabled UserStatus.disabled = true
is_disabled _ = false

abbrev pub is_in_effect : MembershipStatus → Bool
is_in_effect MembershipStatus.active = true
is_in_effect MembershipStatus.revoked = false

abbrev pub is_owner : UserRole → Bool
is_owner owner = true
is_owner _ = false

pub record User : Type 0 where
  pub id : Uuid
  pub email : ℕ
  pub display_name : ℕ
  pub status : UserStatus
  pub person_id : Option Uuid

-- OrganizationMembership
pub record Membership : Type 0 where
  pub user_id : Uuid
  pub organization_id : Uuid
  pub role : UserRole
  pub status : MembershipStatus

-- The tables that these services read and write. `people` has the organization of each person.
pub record Directory : Type 0 where
  pub users : List User
  pub memberships : List Membership
  pub people : List (Uuid × Uuid)

abbrev pub is_of : Uuid → Uuid → Membership → Bool
is_of user org m = m.user_id == user && m.organization_id == org

abbrev pub has_active_account : List User → Uuid → Bool
has_active_account users i = any (λ u. u.id == i && is_user_active u.status) users

-- The row counts as an active Owner of the organization.
abbrev pub is_active_owner : List User → Uuid → Membership → Bool
is_active_owner users org m =
    m.organization_id == org
    && is_owner m.role
    && is_in_effect m.status
    && has_active_account users m.user_id

abbrev pub count {ℓ} : {A : Type ℓ} → (A → Bool) → List A → ℕ
count test xs = total (λ x. if test x then 1 else 0) xs

abbrev pub count_active_owners : Uuid → Directory → ℕ
count_active_owners org d = count (is_active_owner d.users org) d.memberships

abbrev pub get_by_user_and_org : Uuid → Uuid → Directory → Option Membership
get_by_user_and_org user org d = find (is_of user org) d.memberships

-- UPDATE on the rows that `where_test` selects; the second result is `rowcount == 1`.
abbrev pub update_rows {ℓ} : {A : Type ℓ} → (A → Bool) → (A → A) → List A → List A × Bool
update_rows where_test change rows =
    (map (λ r. if where_test r then change r else r) rows, count where_test rows == 1)

abbrev pub role_change_allowed : Uuid → Uuid → Directory → Membership → Bool
role_change_allowed org user d m =
    is_of user org m && (not (is_owner m.role) || ltb 1 (count_active_owners org d))

unfoldable pub change_role_if_safe : Uuid → Uuid → UserRole → Directory → Directory × Bool
change_role_if_safe org user new_role d =
    let (rows, updated) =
      update_rows (role_change_allowed org user d) (λ m. record m { role = new_role })
        d.memberships in
    (record d { memberships = rows }, updated)

abbrev pub revocation_allowed : Uuid → Uuid → Directory → Membership → Bool
revocation_allowed org user d m =
    is_of user org m
    && (not (is_owner m.role) || not (is_in_effect m.status) || ltb 1 (count_active_owners org d))

unfoldable pub revoke_if_safe : Uuid → Uuid → Directory → Directory × Bool
revoke_if_safe org user d =
    let (rows, updated) =
      update_rows (revocation_allowed org user d)
        (λ m. record m { status = MembershipStatus.revoked }) d.memberships in
    (record d { memberships = rows }, updated)

-- `OrganizationMembershipService.add_member`
unfoldable pub add_member : Uuid → ℕ → UserRole → Directory → Result Directory
add_member org email role d = do
  user ← or_raise (find (λ u. u.email == email) d.users) not_found_error
  raise_if (any (is_of user.id org) d.memberships) conflict_error
  let membership : Membership = record {
    user_id = user.id;
    organization_id = org;
    role = role;
    status = MembershipStatus.active;
  }
  ok (record d { memberships = d.memberships ++ membership ∷ [] })

-- The check of the route `add_membership`, on the acting member's role, and the service's method.
unfoldable pub add_membership : UserRole → Uuid → ℕ → UserRole → Directory → Result Directory
add_membership acting_role org email role d = do
  raise_if (not (has_permission acting_role membership_manage none)) forbidden_error
  add_member org email role d

unfoldable pub change_role : Uuid → Uuid → UserRole → UserRole → Directory → Result Directory
change_role org user new_role acting_role d = do
  membership ← or_raise (get_by_user_and_org user org d) not_found_error
  raise_if
      ((is_owner_or_admin membership.role || is_owner_or_admin new_role)
        && not (is_owner acting_role))
      forbidden_error
  let changed = change_role_if_safe org user new_role d
  raise_if (not changed.1) domain_validation_error
  ok changed.0

unfoldable pub revoke : Uuid → Uuid → Directory → Result Directory
revoke org user d = do
  membership ← or_raise (get_by_user_and_org user org d) not_found_error
  let changed = revoke_if_safe org user d
  raise_if (not changed.1) domain_validation_error
  ok changed.0

unfoldable pub reactivate : Uuid → Uuid → Directory → Result Directory
reactivate org user d = do
  membership ← or_raise (get_by_user_and_org user org d) not_found_error
  ok (record d {
    memberships =
        map (λ m. if is_of user org m then record m { status = MembershipStatus.active } else m)
          d.memberships;
  })

-- Another account than the user's is an active Owner of the organization.
abbrev pub another_active_owner_exists : Uuid → Uuid → Directory → Bool
another_active_owner_exists user org d =
    any (λ m. is_active_owner d.users org m && not (m.user_id == user)) d.memberships

abbrev pub would_orphan_an_organization : Uuid → Directory → Bool
would_orphan_an_organization user d =
    any
      (λ m.
        m.user_id == user
        && is_owner m.role
        && is_in_effect m.status
        && not (another_active_owner_exists user m.organization_id d))
      d.memberships

unfoldable pub disable_if_safe : Uuid → Directory → Directory × Bool
disable_if_safe user d =
    let (rows, updated) =
      update_rows
        (λ u. u.id == user && (is_disabled u.status || not (would_orphan_an_organization user d)))
        (λ u. record u { status = UserStatus.disabled }) d.users in
    (record d { users = rows }, updated)

-- The fields that a request sets; a person that is set to null unlinks the account. A display name
-- or a status that is set to null is left out: their columns are not nullable, so the flush raises.
pub record UserUpdate : Type 0 where
  pub display_name : Option ℕ
  pub status : Option UserStatus
  pub person_id : Option (Option Uuid)

abbrev pub links_to : Uuid → User → Bool
links_to person u = elim u.person_id [ none ↦ false | some p ↦ p == person ]

abbrev pub in_organization : Uuid → Uuid → Uuid × Uuid → Bool
in_organization person org row = row.0 == person && row.1 == org

-- A new link must be to a person of the organization whom no other account is linked to.
abbrev pub check_person : Uuid → User → Option (Option Uuid) → Directory → Result (Unit {0})
check_person org user none d = ok tt
check_person org user (some none) d = ok tt
check_person org user (some (some person)) d =
    if links_to person user
    then ok tt
    else (raise_if (not (any (in_organization person org) d.people)) not_found_error
        >> raise_if (any (λ u. links_to person u && not (u.id == user.id)) d.users) conflict_error)

abbrev pub or_keep {ℓ} : {A : Type ℓ} → Option A → A → A
or_keep none old = old
or_keep (some new) old = new

abbrev pub sets_disabled : Option UserStatus → Bool
sets_disabled none = false
sets_disabled (some s) = is_disabled s

-- The `setattr` loop; the status is left for the guarded update if the account is to be disabled.
abbrev pub assign_fields : Uuid → UserUpdate → Bool → List User → List User
assign_fields user_id changes disabling users =
    map
      (λ u.
        if u.id == user_id
        then record u {
          display_name = or_keep changes.display_name u.display_name;
          status = if disabling then u.status else or_keep changes.status u.status;
          person_id = or_keep changes.person_id u.person_id;
        }
        else u)
      users

-- `UserService.update`
unfoldable pub update_user : Uuid → Uuid → UserUpdate → Directory → Result Directory
update_user org user_id changes d = do
  user ← or_raise (find (λ u. u.id == user_id) d.users) not_found_error
  check_person org user changes.person_id d
  let disabling = sets_disabled changes.status && not (is_disabled user.status)
  let assigned = record d { users = assign_fields user_id changes disabling d.users }
  let changed = if disabling then disable_if_safe user_id assigned else (assigned, true)
  raise_if (not changed.1) domain_validation_error
  ok changed.0
