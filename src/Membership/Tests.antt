-- ===== src/Membership/Tests.antt =====
-- The theorems on accounts and memberships at a small organization.
use capacityos.Base.{ℕ, ◌+◌, ◌≡◌, refl, none, some, [], ◌∷◌, arith}
use capacityos.Base.Errors.{domain_validation_error, forbidden_error, ok, err}
use capacityos.Authorization.{owner, admin, member}
use capacityos.Membership.{
  User, UserStatus, UserUpdate, Membership, MembershipStatus, Directory, count_active_owners,
  revoke_if_safe, disable_if_safe, add_membership, change_role, revoke, update_user,
}
use capacityos.Membership.Refusals.{
  change_role_lem, add_membership_by_admin, update_user-invite_orphans, invite,
}
use capacityos.Membership.Reach.{IsSound, here, next, was_revoked, Reach-IsSound}

abbrev account : ℕ → User
account i = record {
  id = i;
  email = 100 + i;
  display_name = 0;
  status = UserStatus.active;
  person_id = none;
}

abbrev owner_of_one : Membership
owner_of_one = record {
  user_id = 1;
  organization_id = 9;
  role = owner;
  status = MembershipStatus.active;
}

abbrev second_owner : Membership
second_owner = record owner_of_one { user_id = 2 }

-- Two accounts, of which the first is an Owner of organization 9.
abbrev small : Directory
small = record { users = account 1 ∷ account 2 ∷ []; memberships = owner_of_one ∷ []; people = [] }

-- Both are Owners.
abbrev shared : Directory
shared = record small { memberships = owner_of_one ∷ second_owner ∷ [] }

abbrev shared_after : Directory
shared_after = record small {
  memberships = owner_of_one ∷ record second_owner { status = MembershipStatus.revoked } ∷ [];
}

revoke_run : revoke 9 2 shared ≡ ok shared_after
unfolding revoke revoke_if_safe
revoke_run = refl

last_owner_run : revoke 9 1 small ≡ err domain_validation_error
unfolding revoke revoke_if_safe
last_owner_run = refl

Reach-IsSound_example : IsSound 9 shared_after
Reach-IsSound_example =
    Reach-IsSound 9
      (record {
        unique = ((refl, tt), (tt, tt));
        keyed = ((refl, tt), (tt, tt));
        owned = omega arith;
      })
      (next here (was_revoked 9 2 revoke_run))

abbrev rename : UserUpdate
rename = record { display_name = some 3; status = some UserStatus.disabled; person_id = none }

abbrev shared_disabled : Directory
shared_disabled = record shared {
  users = record (account 1) { display_name = 3; status = UserStatus.disabled } ∷ account 2 ∷ [];
}

disable_run : update_user 9 1 rename shared ≡ ok shared_disabled
unfolding update_user disable_if_safe
disable_run = refl

change_role_lem_example :
    change_role 9 1 member owner shared
    ≡ ok (record shared { memberships = record owner_of_one { role = member } ∷ second_owner ∷ [] })
change_role_lem_example = change_role_lem 9 1 member shared owner_of_one ((refl, tt), (tt, tt)) refl

add_membership_by_admin_example :
    (change_role 9 1 owner admin small ≡ err forbidden_error)
    × (add_membership admin 9 102 owner small
        ≡ ok (record small { memberships = owner_of_one ∷ second_owner ∷ [] }))
add_membership_by_admin_example =
    add_membership_by_admin 9 1 102 owner small owner_of_one (account 2) refl refl refl

update_user-invite_orphans_example :
    (d' : Directory) × (update_user 9 1 invite small ≡ ok d') × (count_active_owners 9 d' ≡ 0)
update_user-invite_orphans_example = update_user-invite_orphans 9 9 1 small (account 1) refl refl
