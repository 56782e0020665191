-- ===== src/Organizations/Deactivation.antt =====
-- The guard of the deactivation: `deactivate` of apps/api/app/services/organization.py and
-- `deactivate_if_safe` of apps/api/app/repositories/organization.py.
use capacityos.Base.{
  ◌≡◌, refl, Bool, true, false, ◌&&◌, Option, some, List, [], ◌∷◌, map, arith, find, if◌then◌else◌,
  ltb,
}
use capacityos.Base.Errors.{ok, err, domain_validation_error}
use capacityos.Capacity.{Uuid}
use capacityos.Membership.{Membership, count_active_owners, count}
use capacityos.Organizations.{
  Organization, Tables, has_id, deactivate_if_safe, deactivate, deactivate_organization,
  get_current_membership, require_manager,
}

-- An UPDATE whose WHERE clause also asks for a condition that is the same for every row.
module _ (test : Organization → Bool) (change : Organization → Organization) where
  map_guarded :
      (b : Bool) (os : List Organization)
      → map (λ o. if test o && b then change o else o) os
        ≡ (if b then map (λ o. if test o then change o else o) os else os)
  map_guarded true [] = refl
  map_guarded false [] = refl
  map_guarded true (o ∷ os) = ground (arith, map_guarded true os)
  map_guarded false (o ∷ os) = ground (arith, map_guarded false os)

count_guarded :
    (test : Organization → Bool) (b : Bool) (os : List Organization)
    → count (λ o. test o && b) os ≡ (if b then count test os else 0)
count_guarded test true [] = refl
count_guarded test false [] = refl
count_guarded test true (o ∷ os) = ground (arith, count_guarded test true os)
count_guarded test false (o ∷ os) = ground (arith, count_guarded test false os)

deactivate_lem :
    (org : Uuid) (t : Tables) (o : Organization)
    → find (has_id org) t.organizations ≡ some o
    → count (has_id org) t.organizations ≡ 1
    → deactivate org t ≡ (
        if ltb 1 (count_active_owners org t.directory)
        then ok (record t {
          organizations =
              map (λ p. if has_id org p then record p { is_active = false } else p) t.organizations;
        })
        else err domain_validation_error)
unfolding deactivate deactivate_if_safe
deactivate_lem org t o found single =
    let b = ltb 1 (count_active_owners org t.directory) in
    ground (
      arith,
      map_guarded (has_id org) (λ p. record p { is_active = false }) b t.organizations,
      count_guarded (has_id org) b t.organizations,
    )

-- For a caller whose current membership is found and may manage the organization, which exists
-- once, the route makes the organization inactive and changes nothing else if it has at least two
-- active Owners, and raises a domain error otherwise.
pub deactivate_organization_lem :
    (active_organization : Option Uuid) (caller org : Uuid) (t : Tables) (m : Membership)
    → get_current_membership active_organization caller t ≡ ok m
    → require_manager org m ≡ ok tt
    → (o : Organization) → find (has_id org) t.organizations ≡ some o
    → count (has_id org) t.organizations ≡ 1
    → deactivate_organization active_organization caller org t ≡ (
        if ltb 1 (count_active_owners org t.directory)
        then ok (record t {
          organizations =
              map (λ p. if has_id org p then record p { is_active = false } else p) t.organizations;
        })
        else err domain_validation_error)
unfolding deactivate_organization
deactivate_organization_lem active_organization caller org t m h k o found single =
    rw h (rw k (deactivate_lem org t o found single))
