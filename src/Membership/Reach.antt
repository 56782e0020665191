-- ===== src/Membership/Reach.antt =====
-- Requests one after the other: what holds of the tables after any number of them. The guards are
-- part of the UPDATE statements, which the database runs one at a time, so that concurrent requests
-- are such a sequence too.
use capacityos.Base.{ℕ, ◌≡◌, ◌≢◌, some, subst}
use capacityos.Base.Errors.{ok}
use capacityos.Capacity.{Uuid}
use capacityos.Authorization.{UserRole}
use capacityos.Membership.{
  UserStatus, UserUpdate, Directory, add_membership, change_role, revoke, reactivate, update_user,
}
use capacityos.Membership.Owners.{
  HasOwner, IsUnique, change_role-eq, change_role_if_safe-HasOwner, revoke-eq,
  revoke_if_safe-HasOwner, reactivate-HasOwner, add_member-HasOwner,
}
use capacityos.Membership.Accounts.{IsKeyed, update_user-HasOwner}
use capacityos.Membership.Keys.{
  KeepsKeys, change_role_if_safe-KeepsKeys, revoke_if_safe-KeepsKeys, reactivate-KeepsKeys,
  add_member-KeepsKeys, update_user-KeepsKeys, add_membership-eq,
}

-- One request that succeeds. No update sets an account to `invited`.
pub data Step (d d' : Directory) : Type 0 where
  added :
      (acting_role : UserRole) (org : Uuid) (email : ℕ) (role : UserRole)
      → add_membership acting_role org email role d ≡ ok d'
      → Step d d'
  role_changed :
      (org user : Uuid) (new_role acting_role : UserRole)
      → change_role org user new_role acting_role d ≡ ok d'
      → Step d d'
  was_revoked : (org user : Uuid) → revoke org user d ≡ ok d' → Step d d'
  reactivated : (org user : Uuid) → reactivate org user d ≡ ok d' → Step d d'
  updated :
      (org user : Uuid) (changes : UserUpdate)
      → changes.status ≢ some UserStatus.invited
      → update_user org user changes d ≡ ok d'
      → Step d d'

pub data Reach (d : Directory) : Directory → Type 0 where
  here : Reach d d
  next : {e f : Directory} → Reach d e → Step e f → Reach d f

-- The keys of both tables are distinct, and the organization has an active Owner.
pub record IsSound (org : Uuid) (d : Directory) : Type 0 where
  pub unique : IsUnique d.memberships
  pub keyed : IsKeyed d.users
  pub owned : HasOwner org d

pub Step-KeepsKeys : {d d' : Directory} → Step d d' → KeepsKeys d d'
Step-KeepsKeys {d} {d'} (added acting_role o email role h) =
    add_member-KeepsKeys o email role d d' (add_membership-eq acting_role o email role d d' h)
Step-KeepsKeys {d} {d'} (role_changed o user new_role acting_role h) =
    subst (KeepsKeys d) (change_role-eq o user new_role acting_role d d' h)
      (change_role_if_safe-KeepsKeys o user new_role d)
Step-KeepsKeys {d} {d'} (was_revoked o user h) =
    subst (KeepsKeys d) (revoke-eq o user d d' h) (revoke_if_safe-KeepsKeys o user d)
Step-KeepsKeys {d} {d'} (reactivated o user h) = reactivate-KeepsKeys o user d d' h
Step-KeepsKeys {d} {d'} (updated o user changes not_invited h) =
    update_user-KeepsKeys o user changes d d' h

-- The organization keeps an active Owner.
Step-HasOwner :
    (org : Uuid) {d d' : Directory}
    → Step d d'
    → IsUnique d.memberships
    → IsKeyed d.users
    → HasOwner org d
    → HasOwner org d'
Step-HasOwner org {d} {d'} (added acting_role o email role h) u k owned =
    add_member-HasOwner d u o 0 org owned email role d'
      (add_membership-eq acting_role o email role d d' h)
Step-HasOwner org {d} {d'} (role_changed o user new_role acting_role h) u k owned =
    subst (HasOwner org) (change_role-eq o user new_role acting_role d d' h)
      (change_role_if_safe-HasOwner d u o user org owned new_role)
Step-HasOwner org {d} {d'} (was_revoked o user h) u k owned =
    subst (HasOwner org) (revoke-eq o user d d' h) (revoke_if_safe-HasOwner d u o user org owned)
Step-HasOwner org {d} {d'} (reactivated o user h) u k owned =
    reactivate-HasOwner d u o user org owned d' h
Step-HasOwner org {d} {d'} (updated o user changes not_invited h) u k owned =
    update_user-HasOwner o user changes d d' org k owned not_invited h

pub Step-IsSound : (org : Uuid) {d d' : Directory} → Step d d' → IsSound org d → IsSound org d'
Step-IsSound org step s = record {
  unique = (Step-KeepsKeys step).0 s.unique;
  keyed = (Step-KeepsKeys step).1 s.keyed;
  owned = Step-HasOwner org step s.unique s.keyed s.owned;
}

-- From tables with distinct keys, an organization that has an active Owner still has one after any
-- number of successful requests that add members, change roles, revoke and reactivate memberships
-- and update accounts, in any order, by anyone and in any organization, as long as no update sets
-- an account to `invited`; and the keys stay distinct.
pub Reach-IsSound : (org : Uuid) {d d' : Directory} → IsSound org d → Reach d d' → IsSound org d'
Reach-IsSound org s here = s
Reach-IsSound org s (next r step) = Step-IsSound org step (Reach-IsSound org s r)
