-- ===== src/Organizations/Tests.antt =====
-- Tests of the lifecycle of organizations, and the theorems on it at concrete inputs.
use capacityos.Base.{ℕ, ◌+◌, ◌≡◌, refl, true, false, none, some, [], ◌∷◌, arith}
use capacityos.Base.Errors.{ok, err, conflict_error, domain_validation_error}
use capacityos.Capacity.{Uuid}
use capacityos.Authorization.{owner, has_permission}
use capacityos.Membership.{User, UserStatus, Membership, MembershipStatus, has_active_account}
use capacityos.Organizations.{
  Organization, Tables, create_organization, deactivate, deactivate_organization,
  reactivate_organization, get_current_membership, list_mine,
}
use capacityos.Organizations.Owned.{IsOwned}
use capacityos.Organizations.Recovery.{
  start, next, deactivated, Reactivates, reactivation_stays_possible,
}
use capacityos.Organizations.Deactivation.{deactivate_organization_lem}

abbrev account : ℕ → User
account i = record {
  id = i;
  email = 100 + i;
  display_name = 0;
  status = UserStatus.active;
  person_id = none;
}

abbrev ownership : ℕ → Membership
ownership i = record {
  user_id = i;
  organization_id = 9;
  role = owner;
  status = MembershipStatus.active;
}

abbrev studio : Organization
studio = record { id = 9; name = 5; slug = 6; is_active = true }

-- Organization 9 has two Owners.
abbrev two_owners : Tables
two_owners = record {
  organizations = studio ∷ [];
  directory = record {
    users = account 1 ∷ account 2 ∷ [];
    memberships = ownership 1 ∷ ownership 2 ∷ [];
    people = [];
  };
}

abbrev asleep : Tables
asleep = record two_owners { organizations = record studio { is_active = false } ∷ [] }

abbrev one_owner : Tables
one_owner = record two_owners {
  directory = record two_owners.directory { memberships = ownership 1 ∷ [] };
}

membership_run : get_current_membership (some 9) 1 two_owners ≡ ok (ownership 1)
unfolding get_current_membership
membership_run = refl

deactivate_run : deactivate_organization (some 9) 1 9 two_owners ≡ ok asleep
unfolding deactivate_organization has_permission
deactivate_run = refl

last_owner_run : deactivate 9 one_owner ≡ err domain_validation_error
unfolding deactivate
last_owner_run = refl

slug_taken_run : create_organization 10 5 6 1 two_owners ≡ err conflict_error
unfolding create_organization
slug_taken_run = refl

list_mine_run : list_mine 2 asleep ≡ record studio { is_active = false } ∷ []
unfolding list_mine
list_mine_run = refl

two_owners-IsOwned : IsOwned two_owners
two_owners-IsOwned = record {
  unique = ((refl, tt), (tt, tt));
  keyed = ((refl, tt), (tt, tt));
  owned = (omega arith, tt);
}

reactivation_stays_possible_example :
    (caller : Uuid) × (u : Tables) × (has_active_account asleep.directory.users caller ≡ true)
    × (reactivate_organization caller 9 asleep ≡ ok u)
    × Reactivates 9 asleep (record studio { is_active = false }) u
reactivation_stays_possible_example =
    reactivation_stays_possible 9 (record studio { is_active = false }) two_owners-IsOwned
      (next start (deactivated (some 9) 1 9 deactivate_run)) refl

deactivate_organization_lem_example : deactivate_organization (some 9) 1 9 two_owners ≡ ok asleep
unfolding has_permission
deactivate_organization_lem_example =
    deactivate_organization_lem (some 9) 1 9 two_owners (ownership 1) membership_run refl studio
      refl refl
