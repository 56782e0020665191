-- ===== src/Skills/Tests.antt =====
-- Tests of the coverage of skills, and the theorem on the concentration at concrete people.
use capacityos.Base.{◌≡◌, refl, some, [], ◌∷◌}
use capacityos.Base.Int.{pos, negsuc}
use capacityos.Base.Sort.{sorted}
use capacityos.Skills.{
  QualifiedPerson, proficient, expert, calculate_skill_coverage, SkillConcentrationResult,
  calculate_skill_concentration,
}

abbrev spare : QualifiedPerson
spare = record { person_id = 1; proficiency = proficient; remaining_capacity = pos 3000 }

abbrev overbooked : QualifiedPerson
overbooked = record { person_id = 2; proficiency = expert; remaining_capacity = negsuc 499 }

coverage_run : calculate_skill_coverage 4000 (spare ∷ overbooked ∷ []) ≡ record {
  required_hours = 4000;
  qualified_available_hours = 3000;
  coverage_ratio = 7500;
  gap_hours = 1000;
  qualified_person_ids = 1 ∷ 2 ∷ [];
}
unfolding calculate_skill_coverage
coverage_run = refl

abbrev one_holder : SkillConcentrationResult
one_holder = record {
  holder_count = 1;
  top_contributor_ids = 1 ∷ [];
  top_contributor_hours = 3000;
  total_hours = 3000;
  ratio = 10000;
}

concentration_run : calculate_skill_concentration (spare ∷ overbooked ∷ []) 1 ≡ some one_holder
unfolding calculate_skill_concentration sorted
concentration_run = refl
