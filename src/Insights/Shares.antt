-- ===== src/Insights/Shares.antt =====
-- How a project's hours are shared among its people.
use capacityos.Base.{
  ℕ, zero, suc, ◌≤◌, ◌<◌, ◌≡◌, refl, some, List, [], ◌∷◌, arith, ltb, total, keep,
}
use capacityos.Base.Sort.{sorted, total-sorted}
use capacityos.Capacity.{ProjectPersonDemand}
use capacityos.Insights.{ConcentrationResult, calculate_concentration, by_hours, take}

total-take :
    (n : ℕ) (xs : List ProjectPersonDemand)
    → total (λ e. e.allocated_hours) (take n xs) ≤ total (λ e. e.allocated_hours) xs
total-take zero xs = omega arith
total-take (suc n) [] = omega arith
total-take (suc n) (x ∷ xs) = omega (arith, total-take n xs)

keep-total :
    (xs : List ProjectPersonDemand)
    → total (λ e. e.allocated_hours) (keep (λ e. ltb 0 e.allocated_hours) xs)
      ≡ total (λ e. e.allocated_hours) xs
keep-total [] = refl
keep-total (x ∷ xs) = ground (arith, keep-total xs)

-- A concentration that is reported is on all of the project's hours, which are positive, and its
-- top contributors have at most all of them.
pub calculate_concentration-share :
    (by_person : List ProjectPersonDemand) (top_n : ℕ) (r : ConcentrationResult)
    → calculate_concentration by_person top_n ≡ some r
    → (r.total_hours ≡ total (λ e. e.allocated_hours) by_person)
      × (0 < r.total_hours)
      × (r.top_contributor_hours ≤ r.total_hours)
unfolding calculate_concentration
calculate_concentration-share by_person top_n r h =
    let contributors = keep (λ e. ltb 0 e.allocated_hours) by_person in
    let same = keep-total by_person in
    let bound = total-take top_n (sorted by_hours contributors) in
    let order = total-sorted by_hours (λ e. e.allocated_hours) contributors in ground arith
