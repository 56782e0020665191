-- ===== src/Skills.antt =====
-- apps/api/app/domain/skills.py: who is qualified for a skill, how far their spare hours cover a
-- requirement, and how few people hold them. Hours are hundredths of an hour and ratios are
-- ten-thousandths, as in Capacity.antt, so that a sum of hours needs no rounding.
pub mod Coverage
mod Tests
use capacityos.Base.{
  ℕ, ◌+◌, ◌-◌, ◌*◌, Bool, true, false, ◌||◌, ◌&&◌, not, Option, none, some, List, [], ◌∷◌, map, ltb,
  leb, ◌==◌, if◌then◌else◌, keep, total, length,
}
use capacityos.Base.Int.{ℤ, pos_part}
use capacityos.Base.Sort.{sorted}
use capacityos.Capacity.{Hours, Uuid, round_div}
use capacityos.Insights.{take}

pub data SkillProficiency : Type 0 where
  beginner working proficient advanced expert : SkillProficiency

-- PROFICIENCY_RANK
abbrev pub proficiency_rank : SkillProficiency → ℕ
proficiency_rank beginner = 1
proficiency_rank working = 2
proficiency_rank proficient = 3
proficiency_rank advanced = 4
proficiency_rank expert = 5

unfoldable pub is_qualified : SkillProficiency → Option SkillProficiency → Bool
is_qualified person_proficiency none = true
is_qualified person_proficiency (some minimum) =
    leb (proficiency_rank minimum) (proficiency_rank person_proficiency)

pub record QualifiedPerson : Type 0 where
  pub person_id : Uuid
  pub proficiency : SkillProficiency
  pub remaining_capacity : ℤ

-- `max(remaining_capacity, 0)`
abbrev pub qualified_available_hours : QualifiedPerson → Hours
qualified_available_hours p = pos_part p.remaining_capacity

pub record SkillCoverageResult : Type 0 where
  pub required_hours : Hours
  pub qualified_available_hours : Hours
  pub coverage_ratio : ℕ
  pub gap_hours : Hours
  pub qualified_person_ids : List Uuid

-- The required hours are positive. A gap stops at zero, as subtraction on ℕ does.
unfoldable pub calculate_skill_coverage : Hours → List QualifiedPerson → SkillCoverageResult
calculate_skill_coverage required people =
    let available = total qualified_available_hours people in
    record {
      required_hours = required;
      qualified_available_hours = available;
      coverage_ratio = round_div (10000 * available) required;
      gap_hours = required - available;
      qualified_person_ids = map (λ p. p.person_id) people;
    }

pub record SkillConcentrationResult : Type 0 where
  pub holder_count : ℕ
  pub top_contributor_ids : List Uuid
  pub top_contributor_hours : Hours
  pub total_hours : Hours
  pub ratio : ℕ

-- The key `(-p.qualified_available_hours, str(p.person_id))`.
abbrev pub by_available : QualifiedPerson → QualifiedPerson → Bool
by_available p q =
    ltb (qualified_available_hours q) (qualified_available_hours p)
    || (qualified_available_hours p == qualified_available_hours q && leb p.person_id q.person_id)

unfoldable pub calculate_skill_concentration :
    List QualifiedPerson → ℕ → Option SkillConcentrationResult
calculate_skill_concentration people top_n =
    let contributors = keep (λ p. ltb 0 (qualified_available_hours p)) people in
    let sum = total qualified_available_hours contributors in
    let top = take top_n (sorted by_available contributors) in
    let top_hours = total qualified_available_hours top in
    if length contributors == 0 || ltb 2 (length contributors)
    then none
    else if leb sum 0
    then none
    else some (record {
      holder_count = length contributors;
      top_contributor_ids = map (λ p. p.person_id) top;
      top_contributor_hours = top_hours;
      total_hours = sum;
      ratio = round_div (10000 * top_hours) sum;
    })
