-- ===== src/Organizations/Owned.antt =====
-- What the requests of apps/api/app/services/organization.py do to the Owners of the organizations.
use capacityos.Base.{
  ℕ, ◌≡◌, refl, inl, inr, Bool, true, false, Option, some, List, [], ◌∷◌, ◌++◌, map, arith, any,
  find, if◌then◌else◌, All, ◌==◌, Option-cases, Bool-cases, subst, sym,
}
use capacityos.Base.Errors.{ok, Result-cases}
use capacityos.Capacity.{Uuid}
use capacityos.Authorization.{owner}
use capacityos.Membership.{
  Membership, MembershipStatus, Directory, is_of, is_active_owner, has_active_account, count,
  get_by_user_and_org, or_keep,
}
use capacityos.Membership.Counting.{count-append}
use capacityos.Membership.Owners.{HasOwner, IsUnique}
use capacityos.Membership.Accounts.{IsKeyed}
use capacityos.Membership.Keys.{IsUnique-snoc}
use capacityos.Membership.Reach.{Step, IsSound, Step-IsSound, Step-KeepsKeys}
use capacityos.Organizations.{
  Organization, Tables, has_id, create_organization, update_organization, deactivate_if_safe,
  deactivate, deactivate_organization, reactivate, reactivate_organization, get_current_membership,
}

-- The keys are distinct, and every organization, active or not, has an active Owner.
pub record IsOwned (t : Tables) : Type 0 where
  pub unique : IsUnique t.directory.memberships
  pub keyed : IsKeyed t.directory.users
  pub owned : All (λ o. HasOwner o.id t.directory) t.organizations

All-map_ids :
    (P : Uuid → Type 0) (f : Organization → Organization)
    → ((o : Organization) → (f o).id ≡ o.id)
    → (os : List Organization) → All (λ o. P o.id) os
    → All (λ o. P o.id) (map f os)
All-map_ids P f same [] h = tt
All-map_ids P f same (o ∷ os) h = (subst P (sym (same o)) h.0, All-map_ids P f same os h.1)

All-mono :
    (P Q : Organization → Type 0)
    → ((o : Organization) → P o → Q o)
    → (os : List Organization) → All P os
    → All Q os
All-mono P Q h [] a = tt
All-mono P Q h (o ∷ os) a = (h o a.0, All-mono P Q h os a.1)

All-snoc :
    (P : Organization → Type 0) (n : Organization) (os : List Organization)
    → All P os
    → P n
    → All P (os ++ n ∷ [])
All-snoc P n [] a p = (p, tt)
All-snoc P n (o ∷ os) a p = (a.0, All-snoc P n os a.1 p)

pub find-All {ℓ} :
    {A : Type ℓ} (P : A → Type 0) (test : A → Bool) (xs : List A) (x : A)
    → find test xs ≡ some x
    → All P xs
    → P x
find-All P test [] x e a = cc
find-All P test (y ∷ ys) x e a = elim (Bool-cases (test y)) [
  | inl hit ↦ let eq : y ≡ x = ground arith in subst P eq a.0
  | inr miss ↦ find-All P test ys x (ground arith) a.1
]

-- The organizations change and the tables of the memberships do not.
IsOwned-map :
    (t : Tables) (f : Organization → Organization)
    → ((o : Organization) → (f o).id ≡ o.id)
    → IsOwned t
    → IsOwned (record t { organizations = map f t.organizations })
IsOwned-map t f same s = record {
  unique = s.unique;
  keyed = s.keyed;
  owned = All-map_ids (λ i. HasOwner i t.directory) f same t.organizations s.owned;
}

pub deactivate_if_safe-IsOwned :
    (org : Uuid) (t : Tables) → IsOwned t → IsOwned (deactivate_if_safe org t).0
unfolding deactivate_if_safe
deactivate_if_safe-IsOwned org t = IsOwned-map t _ (λ o. ground arith)

pub deactivate_organization-eq :
    (active_organization : Option Uuid) (caller org : Uuid) (t t' : Tables)
    → deactivate_organization active_organization caller org t ≡ ok t'
    → (deactivate_if_safe org t).0 ≡ t'
unfolding deactivate_organization deactivate
deactivate_organization-eq active_organization caller org t t' h =
    elim (Result-cases (get_current_membership active_organization caller t)) [
      | inl (m, e) ↦ elim (Option-cases (find (has_id org) t.organizations)) [
        | inl missing ↦ ground arith
        | inr (o, found) ↦ ground arith
      ]
      | inr (error, e) ↦ ground arith
    ]

pub update_organization-IsOwned :
    (active_organization : Option Uuid) (caller org : Uuid) (name : Option ℕ) (t t' : Tables)
    → update_organization active_organization caller org name t ≡ ok t'
    → IsOwned t
    → IsOwned t'
unfolding update_organization
update_organization-IsOwned active_organization caller org name t t' h s =
    let rename =
      λ (o : Organization). if has_id org o then record o { name = or_keep name o.name } else o in
    elim (Result-cases (get_current_membership active_organization caller t)) [
      | inl (m, e) ↦ elim (Option-cases (find (has_id org) t.organizations)) [
        | inl missing ↦ ground arith
        | inr (o, found) ↦
            let eq : record t { organizations = map rename t.organizations } ≡ t' = ground arith in
            subst IsOwned eq (IsOwned-map t rename (λ o. ground arith) s)
      ]
      | inr (error, e) ↦ ground arith
    ]

pub reactivate-IsOwned :
    (org : Uuid) (t t' : Tables) → reactivate org t ≡ ok t' → IsOwned t → IsOwned t'
unfolding reactivate
reactivate-IsOwned org t t' h s =
    let wake = λ (o : Organization). if has_id org o then record o { is_active = true } else o in
    elim (Option-cases (find (has_id org) t.organizations)) [
      | inl missing ↦ ground arith
      | inr (o, found) ↦ elim (Bool-cases o.is_active) [
        | inl awake ↦ let eq : t ≡ t' = ground arith in subst IsOwned eq s
        | inr asleep ↦
            let eq : record t { organizations = map wake t.organizations } ≡ t' = ground arith in
            subst IsOwned eq (IsOwned-map t wake (λ o. ground arith) s)
      ]
    ]

pub reactivate_organization-eq :
    (caller org : Uuid) (t t' : Tables)
    → reactivate_organization caller org t ≡ ok t'
    → reactivate org t ≡ ok t'
unfolding reactivate_organization
reactivate_organization-eq caller org t t' h =
    elim (Option-cases (get_by_user_and_org caller org t.directory)) [
      | inl missing ↦ ground arith
      | inr (m, found) ↦ ground arith
    ]

-- No membership is of an organization that does not exist.
fresh_of :
    (user org : Uuid) (ms : List Membership)
    → any (λ m. m.organization_id == org) ms ≡ false
    → any (is_of user org) ms ≡ false
fresh_of user org [] h = refl
fresh_of user org (m ∷ ms) h = ground (arith, fresh_of user org ms)

pub create_organization-IsOwned :
    (new_id : Uuid) (name slug : ℕ) (creator : Uuid) (t t' : Tables)
    → any (λ m. m.organization_id == new_id) t.directory.memberships ≡ false
    → has_active_account t.directory.users creator ≡ true
    → create_organization new_id name slug creator t ≡ ok t'
    → IsOwned t
    → IsOwned t'
unfolding create_organization
create_organization-IsOwned new_id name slug creator t t' fresh logged_in h s =
    let organization : Organization = record {
      id = new_id;
      name = name;
      slug = slug;
      is_active = true;
    } in
    let row : Membership = record {
      user_id = creator;
      organization_id = new_id;
      role = owner;
      status = MembershipStatus.active;
    } in
    let d : Directory = record t.directory { memberships = t.directory.memberships ++ row ∷ [] } in
    let more = λ (org : Uuid).
      count-append (is_active_owner t.directory.users org) t.directory.memberships (row ∷ []) in
    let kept = λ (o : Organization) (owned : HasOwner o.id t.directory).
      let now : HasOwner o.id d = omega (arith, more o.id) in now in
    let counted : count (is_active_owner t.directory.users new_id) (row ∷ []) ≡ 1 = ground arith in
    let new_owned : HasOwner new_id d = omega (arith, more new_id, counted) in
    let eq : record { organizations = t.organizations ++ organization ∷ []; directory = d } ≡ t' =
      ground arith in
    subst IsOwned eq (record {
      unique = IsUnique-snoc t.directory.memberships row s.unique (fresh_of creator new_id _ fresh);
      keyed = s.keyed;
      owned =
          All-snoc (λ o. HasOwner o.id d) organization t.organizations
            (All-mono (λ o. HasOwner o.id t.directory) (λ o. HasOwner o.id d) kept t.organizations
              s.owned)
            new_owned;
    })

pub Step-IsOwned :
    (t : Tables) (d : Directory)
    → Step t.directory d
    → IsOwned t
    → IsOwned (record t { directory = d })
Step-IsOwned t d step s =
    let kept = λ (o : Organization) (owned : HasOwner o.id t.directory).
      let sound : IsSound o.id t.directory = record {
        unique = s.unique;
        keyed = s.keyed;
        owned = owned;
      } in
      (Step-IsSound o.id step sound).owned in
    record {
      unique = (Step-KeepsKeys step).0 s.unique;
      keyed = (Step-KeepsKeys step).1 s.keyed;
      owned =
          All-mono (λ o. HasOwner o.id t.directory) (λ o. HasOwner o.id d) kept t.organizations
            s.owned;
    }
