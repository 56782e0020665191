-- ===== src/Membership/Keys.antt =====
-- The keys of the tables of memberships and accounts stay distinct: apps/api/app/services/
-- organization_membership.py and user.py.
use capacityos.Base.{
  ℕ, ◌≡◌, refl, inl, inr, Bool, true, false, List, [], ◌∷◌, ◌++◌, map, arith, any, find,
  if◌then◌else◌, All, ◌==◌, Option-cases, subst,
}
use capacityos.Base.Errors.{ok}
use capacityos.Capacity.{Uuid}
use capacityos.Authorization.{UserRole}
use capacityos.Membership.{
  User, UserUpdate, Membership, MembershipStatus, Directory, is_of, change_role_if_safe,
  revoke_if_safe, add_member, add_membership, reactivate, disable_if_safe, assign_fields,
  update_user, get_by_user_and_org,
}
use capacityos.Membership.Owners.{IsUnique}
use capacityos.Membership.Accounts.{IsKeyed, update_user_cases}

module _ (f : Membership → Membership)
    (same : (m : Membership)
      → ((f m).user_id ≡ m.user_id) × ((f m).organization_id ≡ m.organization_id)) where
  All-map :
      (m : Membership) (ms : List Membership)
      → All (λ n. is_of m.user_id m.organization_id n ≡ false) ms
      → All (λ n. is_of (f m).user_id (f m).organization_id n ≡ false) (map f ms)
  All-map m [] a = tt
  All-map m (n ∷ ms) a = (ground (arith, same m, same n, a.0), All-map m ms a.1)

  IsUnique-map : (ms : List Membership) → IsUnique ms → IsUnique (map f ms)
  IsUnique-map [] u = tt
  IsUnique-map (m ∷ ms) u = (All-map m ms u.0, IsUnique-map ms u.1)

pub IsUnique-snoc :
    (ms : List Membership) (n : Membership)
    → IsUnique ms
    → any (is_of n.user_id n.organization_id) ms ≡ false
    → IsUnique (ms ++ n ∷ [])
IsUnique-snoc [] n u a = (tt, tt)
IsUnique-snoc (m ∷ ms) n u a = (All-snoc ms u.0, IsUnique-snoc ms n u.1 (ground arith))
  where
    All-snoc :
        (l : List Membership)
        → All (λ k. is_of m.user_id m.organization_id k ≡ false) l
        → All (λ k. is_of m.user_id m.organization_id k ≡ false) (l ++ n ∷ [])
    All-snoc [] h = (ground arith, tt)
    All-snoc (k ∷ l) h = (h.0, All-snoc l h.1)

module _ (f : User → User) (same : (u : User) → (f u).id ≡ u.id) where
  All-map_id :
      (u : User) (us : List User)
      → All (λ v. (v.id == u.id) ≡ false) us
      → All (λ v. (v.id == (f u).id) ≡ false) (map f us)
  All-map_id u [] a = tt
  All-map_id u (v ∷ us) a = (ground (arith, same u, same v, a.0), All-map_id u us a.1)

  IsKeyed-map : (us : List User) → IsKeyed us → IsKeyed (map f us)
  IsKeyed-map [] k = tt
  IsKeyed-map (u ∷ us) k = (All-map_id u us k.0, IsKeyed-map us k.1)

abbrev pub KeepsKeys : Directory → Directory → Type 0
KeepsKeys d d' =
    (IsUnique d.memberships → IsUnique d'.memberships) × (IsKeyed d.users → IsKeyed d'.users)

pub change_role_if_safe-KeepsKeys :
    (org user : Uuid) (new_role : UserRole) (d : Directory)
    → KeepsKeys d (change_role_if_safe org user new_role d).0
unfolding change_role_if_safe
change_role_if_safe-KeepsKeys org user new_role d =
    (IsUnique-map _ (λ m. ground arith) d.memberships, λ k. k)

pub revoke_if_safe-KeepsKeys :
    (org user : Uuid) (d : Directory) → KeepsKeys d (revoke_if_safe org user d).0
unfolding revoke_if_safe
revoke_if_safe-KeepsKeys org user d = (IsUnique-map _ (λ m. ground arith) d.memberships, λ k. k)

pub reactivate-KeepsKeys :
    (org user : Uuid) (d d' : Directory) → reactivate org user d ≡ ok d' → KeepsKeys d d'
unfolding reactivate
reactivate-KeepsKeys org user d d' h = elim (Option-cases (get_by_user_and_org user org d)) [
  | inl missing ↦ ground arith
  | inr (m, found) ↦
      let change = λ (n : Membership).
        if is_of user org n then record n { status = MembershipStatus.active } else n in
      let eq : record d { memberships = map change d.memberships } ≡ d' = ground arith in
      subst (KeepsKeys d) eq (IsUnique-map change (λ n. ground arith) d.memberships, λ k. k)
]

pub add_member-KeepsKeys :
    (org : Uuid) (email : ℕ) (role : UserRole) (d d' : Directory)
    → add_member org email role d ≡ ok d'
    → KeepsKeys d d'
unfolding add_member
add_member-KeepsKeys org email role d d' h =
    elim (Option-cases (find (λ u. u.email == email) d.users)) [
      | inl missing ↦ ground arith
      | inr (u, found) ↦
          let row : Membership = record {
            user_id = u.id;
            organization_id = org;
            role = role;
            status = MembershipStatus.active;
          } in
          let fresh : any (is_of u.id org) d.memberships ≡ false = ground arith in
          let eq : record d { memberships = d.memberships ++ row ∷ [] } ≡ d' = ground arith in
          subst (KeepsKeys d) eq (λ v. IsUnique-snoc d.memberships row v fresh, λ k. k)
    ]

assign_fields-IsKeyed :
    (i : Uuid) (changes : UserUpdate) (disabling : Bool) (users : List User)
    → IsKeyed users
    → IsKeyed (assign_fields i changes disabling users)
assign_fields-IsKeyed i changes disabling users = IsKeyed-map _ (λ u. ground arith) users

disable_if_safe-IsKeyed :
    (i : Uuid) (d : Directory) → IsKeyed d.users → IsKeyed (disable_if_safe i d).0.users
unfolding disable_if_safe
disable_if_safe-IsKeyed i d = IsKeyed-map _ (λ u. ground arith) d.users

disable_if_safe-memberships :
    (i : Uuid) (d : Directory) → (disable_if_safe i d).0.memberships ≡ d.memberships
unfolding disable_if_safe
disable_if_safe-memberships i d = refl

pub update_user-KeepsKeys :
    (org user : Uuid) (changes : UserUpdate) (d d' : Directory)
    → update_user org user changes d ≡ ok d'
    → KeepsKeys d d'
update_user-KeepsKeys org user changes d d' h =
    let (u, found, how) = update_user_cases org user changes d d' h in
    let assigned = λ (b : Bool). record d { users = assign_fields user changes b d.users } in
    elim how [
      | inl (disabling, eq) ↦ subst (KeepsKeys d) eq (
        λ v. rw (disable_if_safe-memberships user (assigned true)) v,
        λ k.
            disable_if_safe-IsKeyed user (assigned true)
              (assign_fields-IsKeyed user changes true d.users k),
      )
      | inr (keeping, eq) ↦
          subst (KeepsKeys d) eq (λ v. v, λ k. assign_fields-IsKeyed user changes false d.users k)
    ]

pub add_membership-eq :
    (acting_role : UserRole) (org : Uuid) (email : ℕ) (role : UserRole) (d d' : Directory)
    → add_membership acting_role org email role d ≡ ok d'
    → add_member org email role d ≡ ok d'
unfolding add_membership
add_membership-eq acting_role org email role d d' h = ground arith
