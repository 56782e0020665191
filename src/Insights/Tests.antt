-- ===== src/Insights/Tests.antt =====
-- The theorems on signals at concrete numbers.
use capacityos.Base.{◌≡◌, refl, some, List, [], ◌∷◌}
use capacityos.Base.Sort.{sorted}
use capacityos.Capacity.{ProjectPersonDemand}
use capacityos.Insights.{ConcentrationResult, calculate_concentration}

abbrev people : List ProjectPersonDemand
people =
    record { person_id = 1; allocated_hours = 100 }
    ∷ record { person_id = 2; allocated_hours = 300 }
    ∷ record { person_id = 3; allocated_hours = 200 }
    ∷ []

abbrev concentration : ConcentrationResult
concentration = record {
  top_contributor_ids = 2 ∷ 3 ∷ [];
  top_contributor_hours = 500;
  total_hours = 600;
  ratio = 8333;
}

concentration_run : calculate_concentration people 2 ≡ some concentration
unfolding calculate_concentration sorted
concentration_run = refl
