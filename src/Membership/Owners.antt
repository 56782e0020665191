-- ===== src/Membership/Owners.antt =====
-- Every organization keeps an active Owner when memberships change.
use capacityos.Base.{
  ℕ, ◌<◌, ◌≡◌, inl, inr, Bool, true, false, List, [], ◌∷◌, ◌++◌, map, arith, if◌then◌else◌, All,
  Bool-cases, ltb, ◌==◌, find, Option-cases, ℕ_discrete, subst, sym, ltb→lt,
}
use capacityos.Base.Errors.{ok}
use capacityos.Capacity.{Uuid}
use capacityos.Authorization.{UserRole}
use capacityos.Membership.{
  Membership, Directory, MembershipStatus, is_of, is_active_owner, count_active_owners,
  get_by_user_and_org, role_change_allowed, change_role_if_safe, revocation_allowed, revoke_if_safe,
  add_member, change_role, revoke, reactivate,
}
use capacityos.Membership.Counting.{count-map_keeps, AtMostOne, count-map_loses_one, count-append}

-- The organization has an active Owner with an active account.
abbrev pub HasOwner : Uuid → Directory → Type 0
HasOwner org d = 0 < count_active_owners org d

-- A user has at most one membership of an organization (a unique constraint of the table).
abbrev pub IsUnique : List Membership → Type 0
IsUnique [] = Unit
IsUnique (m ∷ ms) = All (λ n. is_of m.user_id m.organization_id n ≡ false) ms × IsUnique ms

All-not_of :
    (user org : Uuid) (m : Membership) (test : Membership → Bool) (ms : List Membership)
    → ((n : Membership) → test n ≡ true → is_of user org n ≡ true)
    → is_of user org m ≡ true
    → All (λ n. is_of m.user_id m.organization_id n ≡ false) ms
    → All (λ n. test n ≡ false) ms
All-not_of user org m test [] h e a = tt
All-not_of user org m test (n ∷ ms) h e a =
    (ground (arith, h n), All-not_of user org m test ms h e a.1)

IsUnique→AtMostOne :
    (user org : Uuid) (test : Membership → Bool) (ms : List Membership)
    → ((n : Membership) → test n ≡ true → is_of user org n ≡ true)
    → IsUnique ms
    → AtMostOne test ms
IsUnique→AtMostOne user org test [] h u = tt
IsUnique→AtMostOne user org test (m ∷ ms) h u =
    (λ e. All-not_of user org m test ms h (h m e) u.0, IsUnique→AtMostOne user org test ms h u.1)

-- An update of one membership, which is no Owner's or is made while there is another active Owner,
-- leaves an active Owner in every organization.
module _ (d : Directory) (unique : IsUnique d.memberships) (org user other : Uuid)
    (selected : Membership → Bool) (change : Membership → Membership)
    (of_pair : (m : Membership) → selected m ≡ true → is_of user org m ≡ true)
    (harmless : ltb 1 (count_active_owners org d) ≡ false
      → (m : Membership) → is_active_owner d.users other m ≡ true
      → selected m ≡ true
      → is_active_owner d.users other (change m) ≡ true) where
  abbrev updated : Directory
  updated = record d { memberships = map (λ m. if selected m then change m else m) d.memberships }

  update_keeps_owner : HasOwner other d → HasOwner other updated
  update_keeps_owner h = elim (Bool-cases (ltb 1 (count_active_owners org d))) [
    | inr single ↦ omega (
      arith,
      count-map_keeps (is_active_owner d.users other) (is_active_owner d.users other)
          (λ m. if selected m then change m else m) (λ m e. ground (arith, harmless single m e))
          d.memberships,
    )
    | inl several ↦ elim (ℕ_discrete other org) [
      | yes same ↦
          let two = subst (λ o. 1 < count_active_owners o d) (sym same) (ltb→lt _ _ several) in
          omega (
            arith,
            two,
            count-map_loses_one (is_active_owner d.users other) selected change d.memberships
                (IsUnique→AtMostOne user org selected d.memberships of_pair unique),
          )
      | no different ↦ omega (
        arith,
        count-map_keeps (is_active_owner d.users other) (is_active_owner d.users other)
            (λ m. if selected m then change m else m) (λ m e. ground (arith, of_pair m, different))
            d.memberships,
      )
    ]
  ]

pub change_role-eq :
    (org user : Uuid) (new_role acting_role : UserRole) (d d' : Directory)
    → change_role org user new_role acting_role d ≡ ok d'
    → (change_role_if_safe org user new_role d).0 ≡ d'
unfolding change_role
change_role-eq org user new_role acting_role d d' h =
    elim (Option-cases (get_by_user_and_org user org d)) [
      | inl missing ↦ ground arith
      | inr (m, found) ↦ ground arith
    ]

pub revoke-eq :
    (org user : Uuid) (d d' : Directory)
    → revoke org user d ≡ ok d'
    → (revoke_if_safe org user d).0 ≡ d'
unfolding revoke
revoke-eq org user d d' h = elim (Option-cases (get_by_user_and_org user org d)) [
  | inl missing ↦ ground arith
  | inr (m, found) ↦ ground arith
]

module _ (d : Directory) (unique : IsUnique d.memberships) (org user other : Uuid)
    (owned : HasOwner other d) where
  pub change_role_if_safe-HasOwner :
      (new_role : UserRole) → HasOwner other (change_role_if_safe org user new_role d).0
  unfolding change_role_if_safe
  change_role_if_safe-HasOwner new_role =
      update_keeps_owner d unique org user other (role_change_allowed org user d)
        (λ m. record m { role = new_role }) (λ m e. ground arith) (λ single m e k. ground arith)
        owned

  pub revoke_if_safe-HasOwner : HasOwner other (revoke_if_safe org user d).0
  unfolding revoke_if_safe
  revoke_if_safe-HasOwner =
      update_keeps_owner d unique org user other (revocation_allowed org user d)
        (λ m. record m { status = MembershipStatus.revoked }) (λ m e. ground arith)
        (λ single m e k. ground arith) owned

  pub reactivate-HasOwner : (d' : Directory) → reactivate org user d ≡ ok d' → HasOwner other d'
  unfolding reactivate
  reactivate-HasOwner d' h =
      let change = λ (m : Membership).
        if is_of user org m then record m { status = MembershipStatus.active } else m in
      let kept =
        count-map_keeps (is_active_owner d.users other) (is_active_owner d.users other) change
          (λ m e. ground arith) d.memberships in
      elim (Option-cases (get_by_user_and_org user org d)) [
        | inl missing ↦ ground arith
        | inr (m, found) ↦
            let eq : record d { memberships = map change d.memberships } ≡ d' = ground arith in
            subst (HasOwner other) eq (omega arith)
      ]

  pub add_member-HasOwner :
      (email : ℕ) (role : UserRole) (d' : Directory)
      → add_member org email role d ≡ ok d'
      → HasOwner other d'
  unfolding add_member
  add_member-HasOwner email role d' h = elim (Option-cases (find (λ u. u.email == email) d.users)) [
    | inl missing ↦ ground arith
    | inr (u, found) ↦
        let row : Membership = record {
          user_id = u.id;
          organization_id = org;
          role = role;
          status = MembershipStatus.active;
        } in
        let more = count-append (is_active_owner d.users other) d.memberships (row ∷ []) in
        let eq : record d { memberships = d.memberships ++ row ∷ [] } ≡ d' = ground arith in
        subst (HasOwner other) eq (omega arith)
  ]
