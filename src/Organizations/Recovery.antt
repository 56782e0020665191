-- ===== src/Organizations/Recovery.antt =====
-- Every organization has an Owner who can take it back: apps/api/app/services/organization.py with
-- the requests on memberships and accounts of apps/api/app/services/organization_membership.py and
-- user.py, one after the other.
use capacityos.Base.{
  ℕ, ◌<◌, ◌≡◌, refl, inl, inr, true, false, Option, some, List, [], ◌∷◌, map, arith, any, find,
  if◌then◌else◌, ◌==◌, Bool-cases, subst, ◌∙◌,
}
use capacityos.Base.Errors.{ok}
use capacityos.Capacity.{Uuid}
use capacityos.Membership.{
  User, Membership, Directory, is_of, is_active_owner, has_active_account, count,
}
use capacityos.Membership.Owners.{HasOwner, IsUnique}
use capacityos.Membership.Reach.{Step}
use capacityos.Organizations.{
  Organization, Tables, has_id, create_organization, update_organization, deactivate_organization,
  reactivate, reactivate_organization,
}
use capacityos.Organizations.Owned.{
  IsOwned, find-All, deactivate_if_safe-IsOwned, deactivate_organization-eq,
  update_organization-IsOwned, reactivate-IsOwned, reactivate_organization-eq,
  create_organization-IsOwned, Step-IsOwned,
}

-- One request that succeeds. The id of a new organization is fresh, and its creator is logged in,
-- which takes an active account.
pub data Request (t t' : Tables) : Type 0 where
  created :
      (new_id : Uuid) (name slug : ℕ) (creator : Uuid)
      → any (λ m. m.organization_id == new_id) t.directory.memberships ≡ false
      → has_active_account t.directory.users creator ≡ true
      → create_organization new_id name slug creator t ≡ ok t'
      → Request t t'
  renamed :
      (active_organization : Option Uuid) (caller org : Uuid) (name : Option ℕ)
      → update_organization active_organization caller org name t ≡ ok t'
      → Request t t'
  deactivated :
      (active_organization : Option Uuid) (caller org : Uuid)
      → deactivate_organization active_organization caller org t ≡ ok t'
      → Request t t'
  reactivated : (caller org : Uuid) → reactivate_organization caller org t ≡ ok t' → Request t t'
  on_members : {d : Directory} → Step t.directory d → record t { directory = d } ≡ t' → Request t t'

pub data History (t : Tables) : Tables → Type 0 where
  start : History t t
  next : {u v : Tables} → History t u → Request u v → History t v

Request-IsOwned : {t t' : Tables} → Request t t' → IsOwned t → IsOwned t'
Request-IsOwned {t} {t'} (created new_id name slug creator fresh logged_in h) s =
    create_organization-IsOwned new_id name slug creator t t' fresh logged_in h s
Request-IsOwned {t} {t'} (renamed active_organization caller org name h) s =
    update_organization-IsOwned active_organization caller org name t t' h s
Request-IsOwned {t} {t'} (deactivated active_organization caller org h) s =
    subst IsOwned (deactivate_organization-eq active_organization caller org t t' h)
      (deactivate_if_safe-IsOwned org t s)
Request-IsOwned {t} {t'} (reactivated caller org h) s =
    reactivate-IsOwned org t t' (reactivate_organization-eq caller org t t' h) s
Request-IsOwned {t} {t'} (on_members {d} step eq) s = subst IsOwned eq (Step-IsOwned t d step s)

-- From tables whose keys are distinct and where every organization has an active Owner (empty
-- tables, for one), every organization, active or deactivated, has an active Owner with an active
-- account after any number of successful requests that create, rename, deactivate and reactivate
-- organizations and change their memberships and accounts, as long as a new organization has a
-- fresh id and a creator with an active account and no update sets an account to `invited`.
pub History-IsOwned : {t t' : Tables} → IsOwned t → History t t' → IsOwned t'
History-IsOwned s start = s
History-IsOwned s (next r q) = Request-IsOwned q (History-IsOwned s r)

-- An Owner's membership is the one that is found for the account.
owner_is_found :
    (users : List User) (org : Uuid) (ms : List Membership)
    → IsUnique ms
    → 0 < count (is_active_owner users org) ms
    → (m : Membership) × (find (is_of m.user_id org) ms ≡ some m)
      × (is_active_owner users org m ≡ true)
owner_is_found users org [] u h = absurd (omega arith)
owner_is_found users org (m ∷ ms) u h = elim (Bool-cases (is_active_owner users org m)) [
  | inl yes_owner ↦ (m, ground arith, yes_owner)
  | inr no_owner ↦
      let (n, found, owns) = owner_is_found users org ms u.1 (ground arith) in
      let apart =
        find-All (λ k. is_of m.user_id m.organization_id k ≡ false) (is_of n.user_id org) ms n found
          u.0 in
      (n, ground arith, owns)
]

find-wake :
    (org : Uuid) (os : List Organization) (o : Organization)
    → find (has_id org) os ≡ some o
    → find (has_id org) (map (λ p. if has_id org p then record p { is_active = true } else p) os)
      ≡ some (record o { is_active = true })
find-wake org [] o h = cc
find-wake org (p ∷ os) o h = elim (Bool-cases (has_id org p)) [
  | inl hit ↦ ground arith
  | inr miss ↦ ground (arith, find-wake org os o)
]

find-id :
    (org : Uuid) (os : List Organization) (o : Organization)
    → find (has_id org) os ≡ some o
    → o.id ≡ org
find-id org [] o h = cc
find-id org (p ∷ os) o h = ground (arith, find-id org os o)

-- What the reactivation leaves: the same memberships, and the organization as it was, but active.
abbrev pub Reactivates : Uuid → Tables → Organization → Tables → Type 0
Reactivates org t o t' =
    (t'.directory ≡ t.directory)
    × (find (has_id org) t'.organizations ≡ some (record o { is_active = true }))

reactivate_lem :
    (org : Uuid) (t : Tables) (o : Organization)
    → find (has_id org) t.organizations ≡ some o
    → (t' : Tables) × (reactivate org t ≡ ok t') × Reactivates org t o t'
unfolding reactivate
reactivate_lem org t o h = elim (Bool-cases o.is_active) [
  | inl awake ↦ (t, ground arith, (refl, ground arith))
  | inr asleep ↦
      let wake = λ (p : Organization). if has_id org p then record p { is_active = true } else p in
      (
        record t { organizations = map wake t.organizations },
        ground arith,
        (refl, find-wake org t.organizations o h),
      )
]

reactivate_organization_by_owner :
    (caller org : Uuid) (t : Tables) (m : Membership)
    → find (is_of caller org) t.directory.memberships ≡ some m
    → is_active_owner t.directory.users org m ≡ true
    → reactivate_organization caller org t ≡ reactivate org t
unfolding reactivate_organization
reactivate_organization_by_owner caller org t m found owns = ground arith

-- From tables whose keys are distinct and where every organization has an active Owner, after any
-- number of successful requests that create, rename, deactivate and reactivate organizations and
-- change their memberships and accounts, as long as a new organization has a fresh id and a creator
-- with an active account and no update sets an account to `invited`, an organization that exists,
-- deactivated or not, can be taken back: some account is active and its request to reactivate the
-- organization succeeds, after which the organization is as it was but active, and the memberships
-- and accounts are unchanged.
pub reactivation_stays_possible :
    {t t' : Tables} (org : Uuid) (o : Organization)
    → IsOwned t
    → History t t'
    → find (has_id org) t'.organizations ≡ some o
    → (caller : Uuid) × (u : Tables) × (has_active_account t'.directory.users caller ≡ true)
      × (reactivate_organization caller org t' ≡ ok u)
      × Reactivates org t' o u
reactivation_stays_possible {t} {t'} org o s r h =
    let now = History-IsOwned s r in
    let owned : HasOwner o.id t'.directory =
      find-All (λ p. HasOwner p.id t'.directory) (has_id org) t'.organizations o h now.owned in
    let owned' = subst (λ i. HasOwner i t'.directory) (find-id org t'.organizations o h) owned in
    let (m, found, owns) =
      owner_is_found t'.directory.users org t'.directory.memberships now.unique owned' in
    let (u, done, left) = reactivate_lem org t' o h in
    (
      m.user_id,
      u,
      ground arith,
      reactivate_organization_by_owner m.user_id org t' m found owns ∙ done,
      left,
    )
