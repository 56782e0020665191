-- ===== src/Membership/Refusals.antt =====
-- Which changes are refused, and which are let through although an Owner's authority is at stake.
use capacityos.Base.{
  ℕ, ◌≡◌, ◌≢◌, refl, inl, inr, Bool, true, false, ◌&&◌, ◌||◌, not, none, some, List, [], ◌∷◌, ◌++◌,
  map, subst, sym, arith, any, find, if◌then◌else◌, All, Bool-cases, ◌==◌, ltb,
}
use capacityos.Base.Errors.{domain_validation_error, forbidden_error, ok, err}
use capacityos.Capacity.{Uuid}
use capacityos.Authorization.{UserRole, owner, admin, is_owner_or_admin, has_permission}
use capacityos.Membership.{
  User, UserStatus, UserUpdate, Membership, MembershipStatus, Directory, is_of, is_owner,
  is_active_owner, has_active_account, count, count_active_owners, get_by_user_and_org,
  change_role_if_safe, change_role, add_member, add_membership, another_active_owner_exists,
  update_user, assign_fields,
}
use capacityos.Membership.Owners.{IsUnique}

count_none :
    (user org : Uuid) (test : Membership → Bool) (m : Membership) (ms : List Membership)
    → ((n : Membership) → test n ≡ true → is_of user org n ≡ true)
    → is_of user org m ≡ true
    → All (λ n. is_of m.user_id m.organization_id n ≡ false) ms
    → count test ms ≡ 0
count_none user org test m [] h e a = refl
count_none user org test m (n ∷ ms) h e a =
    ground (arith, h n, count_none user org test m ms h e a.1)

-- Where one membership is found for a pair, an UPDATE of the pair's row that also asks for a test
-- updates one row exactly when the row found passes the test.
count_found :
    (user org : Uuid) (test : Membership → Bool) (m : Membership) (ms : List Membership)
    → IsUnique ms
    → find (is_of user org) ms ≡ some m
    → count (λ n. is_of user org n && test n) ms ≡ (if test m then 1 else 0)
count_found user org test m [] u f = cc
count_found user org test m (n ∷ ms) u f = elim (Bool-cases (is_of user org n)) [
  | inl here ↦
      let e : n ≡ m = ground arith in
      let rest =
        count_none user org (λ k. is_of user org k && test k) n ms (λ k t. ground arith) here u.0 in
      ground arith
  | inr later ↦ ground (arith, count_found user org test m ms u.1)
]

rows_none :
    (user org : Uuid) (test : Membership → Bool) (g : Membership → Membership) (m : Membership)
    (ms : List Membership)
    → is_of user org m ≡ true
    → All (λ n. is_of m.user_id m.organization_id n ≡ false) ms
    → map (λ n. if is_of user org n && test n then g n else n) ms
      ≡ map (λ n. if is_of user org n then g n else n) ms
rows_none user org test g m [] h a = refl
rows_none user org test g m (n ∷ ms) h a = ground (arith, rows_none user org test g m ms h a.1, a.0)

-- Where the row found passes the test, the UPDATE changes the rows of the pair.
rows_found :
    (user org : Uuid) (test : Membership → Bool) (g : Membership → Membership) (m : Membership)
    (ms : List Membership)
    → IsUnique ms
    → find (is_of user org) ms ≡ some m
    → test m ≡ true
    → map (λ n. if is_of user org n && test n then g n else n) ms
      ≡ map (λ n. if is_of user org n then g n else n) ms
rows_found user org test g m [] u f t = cc
rows_found user org test g m (n ∷ ms) u f t = elim (Bool-cases (is_of user org n)) [
  | inl here ↦
      let e : n ≡ m = ground arith in
      let passes : test n ≡ true = subst (λ k. test k ≡ true) (sym e) t in
      let rest = rows_none user org test g n ms here u.0 in ground arith
  | inr later ↦ ground (arith, rows_found user org test g m ms u.1)
]

-- Where no two memberships are of one user in one organization, a role change by an Owner on a
-- membership that exists is refused exactly when the membership has the role Owner and the
-- organization has at most one active Owner, whoever that is; otherwise the membership has the new
-- role, and nothing else is changed.
pub change_role_lem :
    (org user : Uuid) (new_role : UserRole) (d : Directory) (m : Membership)
    → IsUnique d.memberships
    → get_by_user_and_org user org d ≡ some m
    → change_role org user new_role owner d ≡ (
        if is_owner m.role && not (ltb 1 (count_active_owners org d))
        then err domain_validation_error
        else ok (record d {
          memberships =
              map (λ n. if is_of user org n then record n { role = new_role } else n) d.memberships;
        }))
unfolding change_role change_role_if_safe
change_role_lem org user new_role d m u f =
    let test = λ (n : Membership). not (is_owner n.role) || ltb 1 (count_active_owners org d) in
    let one = count_found user org test m d.memberships u f in
    elim (Bool-cases (test m)) [
      | inl passes ↦
          let rows =
            rows_found user org test (λ n. record n { role = new_role }) m d.memberships u f
              passes in
          ground (arith, one, rows)
      | inr fails ↦ ground (arith, one)
    ]

-- A role change by anyone else is refused as soon as the old or the new role is Owner or Admin.
pub change_role_forbidden :
    (org user : Uuid) (new_role acting_role : UserRole) (d : Directory) (m : Membership)
    → get_by_user_and_org user org d ≡ some m
    → acting_role ≢ owner
    → (is_owner_or_admin m.role || is_owner_or_admin new_role) ≡ true
    → change_role org user new_role acting_role d ≡ err forbidden_error
unfolding change_role
change_role_forbidden org user new_role acting_role d m f other e = ground arith

-- An Admin may not change the role of a membership to Owner, but adds any account that has no
-- membership of the organization yet with the role Owner, or any other role.
pub add_membership_by_admin :
    (org other : Uuid) (email : ℕ) (role : UserRole) (d : Directory) (m : Membership) (u : User)
    → get_by_user_and_org other org d ≡ some m
    → find (λ v. v.email == email) d.users ≡ some u
    → any (is_of u.id org) d.memberships ≡ false
    → (change_role org other owner admin d ≡ err forbidden_error)
      × (add_membership admin org email role d
          ≡ ok (record d {
            memberships =
                d.memberships
                ++ record {
                  user_id = u.id;
                  organization_id = org;
                  role = role;
                  status = MembershipStatus.active;
                }
                  ∷ [];
          }))
unfolding change_role add_membership add_member has_permission
add_membership_by_admin org other email role d m u g f a = (ground arith, ground arith)

abbrev pub invite : UserUpdate
invite = record { display_name = none; status = some UserStatus.invited; person_id = none }

module _ (user_id : Uuid) (d : Directory) where
  abbrev invited_users : List User
  invited_users = assign_fields user_id invite false d.users

  invited_inactive :
      (i : Uuid) (users : List User)
      → has_active_account (assign_fields user_id invite false users) i ≡ true
      → (i ≢ user_id) × (has_active_account users i ≡ true)
  invited_inactive i [] e = cc
  invited_inactive i (u ∷ users) e = ground (arith, invited_inactive i users)

  none_left :
      (org : Uuid) (ms : List Membership)
      → any (λ m. is_active_owner d.users org m && not (m.user_id == user_id)) ms ≡ false
      → count (is_active_owner invited_users org) ms ≡ 0
  none_left org [] h = refl
  none_left org (m ∷ ms) h = ground (arith, none_left org ms, invited_inactive m.user_id d.users)

-- Setting an account to `invited` is not guarded: where no other account is an active Owner of an
-- organization, the update succeeds and leaves the organization without one.
pub update_user-invite_orphans :
    (acting_org org user_id : Uuid) (d : Directory) (u : User)
    → find (λ v. v.id == user_id) d.users ≡ some u
    → another_active_owner_exists user_id org d ≡ false
    → (d' : Directory) × (update_user acting_org user_id invite d ≡ ok d')
      × (count_active_owners org d' ≡ 0)
unfolding update_user
update_user-invite_orphans acting_org org user_id d u f alone = (
  record d { users = invited_users user_id d },
  ground arith,
  none_left user_id d org d.memberships alone,
)
