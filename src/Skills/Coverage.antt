-- ===== src/Skills/Coverage.antt =====
-- What the coverage and the concentration of a skill add up to: apps/api/app/domain/skills.py.
use capacityos.Base.{
  ℕ, ◌+◌, ◌≤◌, ◌<◌, ◌≡◌, ◌↔◌, ◌⊎◌, none, some, Option, Bool, true, ◌||◌, ◌&&◌, List, arith, keep,
  total, ltb, length, any, All, min, ◌==◌, if◌then◌else◌,
}
use capacityos.Capacity.{Hours, Uuid}
use capacityos.Skills.{
  SkillConcentrationResult, QualifiedPerson, qualified_available_hours, calculate_skill_coverage,
}

-- For a requirement of some hours, the spare hours and the gap are together at least the
-- requirement, and there is no gap exactly if the spare hours alone are.
pub calculate_skill_coverage_lem :
    (required : Hours) (people : List QualifiedPerson)
    → 0 < required
    → let r = calculate_skill_coverage required people in
      (required ≤ r.qualified_available_hours + r.gap_hours)
      × ((r.gap_hours ≡ 0) ↔ (required ≤ r.qualified_available_hours))
unfolding calculate_skill_coverage
calculate_skill_coverage_lem required people h = (omega arith, (λ e. omega arith, λ e. omega arith))

-- How many people have spare hours.
abbrev pub holders : List QualifiedPerson → ℕ
holders people = total (λ p. if ltb 0 (qualified_available_hours p) then 1 else 0) people

-- Someone of that id has spare hours.
abbrev pub is_holder : List QualifiedPerson → Uuid → Bool
is_holder people i = any (λ p. p.person_id == i && ltb 0 (qualified_available_hours p)) people

-- How many people have more spare hours than some number.
abbrev pub with_more : Hours → List QualifiedPerson → ℕ
with_more hours people =
    total (λ p. if ltb hours (qualified_available_hours p) then 1 else 0) people

abbrev with_spare : List QualifiedPerson → List QualifiedPerson
with_spare people = keep (λ p. ltb 0 (qualified_available_hours p)) people

-- What a concentration says of the people; without one, nobody or more than two have spare hours.
abbrev pub IsConcentration : List QualifiedPerson → ℕ → Option SkillConcentrationResult → Type 0
IsConcentration people top_n none = (holders people == 0 || ltb 2 (holders people)) ≡ true
IsConcentration people top_n (some r) =
    (r.holder_count ≡ holders people)
    × (1 ≤ r.holder_count)
    × (r.holder_count ≤ 2)
    × (r.total_hours ≡ total qualified_available_hours people)
    × (0 < r.total_hours)
    × All (λ i. is_holder people i ≡ true) r.top_contributor_ids
    × (length r.top_contributor_ids ≡ min top_n r.holder_count)
    × (r.top_contributor_hours ≤ r.total_hours)
    × ((top_n ≡ 0) ⊎ (with_more r.top_contributor_hours people ≡ 0))
