-- ===== src/Import/Classified/Matched.antt =====
-- The id that an outcome carries is that of the record that the lookup has for the row: the
-- `normalize_…_row` functions of apps/api/app/domain/import_export_diff.py.
use Prim.Native.String.{String}
use capacityos.Base.{ℕ, ◌≡◌, refl, Bool, Option, none, some, List, arith}
use capacityos.Capacity.{Uuid}
use capacityos.Dependencies.{ProjectDependencyType}
use capacityos.Import.{Row}
use capacityos.Import.References.{
  Reference, refused, found, resolve_person_reference, resolve_skill_reference,
  resolve_optional_person_reference, ProjectFact, SkillFact, ReferenceLookup,
  resolve_project_reference, resolve_framework_reference,
}
use capacityos.Import.Outcomes.{
  Model, Validated, valid, invalid, Payload, Outcome, create_outcome, update_outcome,
}
use capacityos.Import.Directory.{
  normalize_person_row, normalize_team_row, normalize_project_row, normalize_skill_row,
  normalize_team_membership_row,
}
use capacityos.Import.Planning.{
  AllocationFact, ExceptionFact, PersonSkillFact, RequirementFact, normalize_allocation_row,
  normalize_availability_exception_row, normalize_person_skill_row,
  normalize_project_skill_requirement_row,
}
use capacityos.Import.Fields.{match_by}
use capacityos.Import.Cells.{coerce_optional_str}
use capacityos.Import.Decisions.{
  id_of_match, match_pair, optional_of, failed, given, RiskFact, StakeholderFact,
  normalize_risk_row, normalize_stakeholder_row, normalize_project_dependency_row,
}
use capacityos.Import.Packed.{
  WorkingScheduleFact, normalize_working_schedule_row, normalize_schedule_fields, ScoreFact,
  normalize_score_fields, normalize_project_priority_score_row,
}

-- The id of the record that a mapping has for the text of a column.
abbrev pub of_column : {F : Type 0} → (F → Uuid) → (String → Option F) → Row → String → Option Uuid
of_column id_of existing row column =
    id_of_match id_of (match_by existing (coerce_optional_str (row column)))

-- The id of the record that a mapping has for a pair of references.
abbrev pub of_pair :
    {F : Type 0} → (F → Uuid) → (Uuid → Uuid → Option F) → Reference → Reference → Option Uuid
of_pair id_of existing (refused error) second = none
of_pair id_of existing (found a) (refused error) = none
of_pair id_of existing (found a) (found b) = id_of_match id_of (existing a b)

create_outcome-matched :
    {C D : Type 0} (U : Type 0) (wrap : D → C) (identity : Option String) (v : Validated D)
    → (create_outcome {U = U} wrap identity v).matched_id ≡ none
create_outcome-matched U wrap identity (valid p) = refl
create_outcome-matched U wrap identity (invalid d ds) = refl

update_outcome-matched :
    {U D : Type 0} (C : Type 0) (wrap : D → U) (i : Uuid) (identity : Option String)
    (same : D → Bool) (v : Validated D)
    → (update_outcome {C = C} wrap i identity same v).matched_id ≡ some i
update_outcome-matched C wrap i identity same (valid p) = refl
update_outcome-matched C wrap i identity same (invalid d ds) = refl

ruleset matches = (arith, create_outcome-matched, update_outcome-matched)

module _ {C U : Type 0} (create_model : Model C) (update_model : Model U) (row : Row) where
  pub normalize_person_row-matched :
      (lookup : ReferenceLookup)
      → (normalize_person_row create_model update_model row lookup).matched_id
        ≡ of_column (λ f. f.id) lookup.people_by_email row "email"
  unfolding normalize_person_row
  normalize_person_row-matched lookup = grind matches

  pub normalize_team_row-matched :
      (lookup : ReferenceLookup)
      → (normalize_team_row create_model update_model row lookup).matched_id
        ≡ of_column (λ f. f.id) lookup.teams_by_name row "name"
  unfolding normalize_team_row
  normalize_team_row-matched lookup = grind matches

  pub normalize_project_row-matched :
      (existing : String → Option ProjectFact)
      → (normalize_project_row create_model update_model row existing).matched_id
        ≡ of_column (λ f. f.id) existing row "external_id"
  unfolding normalize_project_row
  normalize_project_row-matched existing = grind matches

  pub normalize_skill_row-matched :
      (existing : String → Option SkillFact)
      → (normalize_skill_row create_model update_model row existing).matched_id
        ≡ of_column (λ f. f.id) existing row "name"
  unfolding normalize_skill_row
  normalize_skill_row-matched existing = grind matches

module _ {C U : Type 0} (create_model : Model C) (update_model : Model U)
    (read_uuid : String → Option Uuid) (row : Row) (lookup : ReferenceLookup) where
  pub normalize_allocation_row-matched :
      (existing : String → Option AllocationFact)
      → (normalize_allocation_row create_model update_model read_uuid row lookup
          existing).matched_id
        ≡ of_column (λ f. f.id) existing row "external_id"
  unfolding normalize_allocation_row
  normalize_allocation_row-matched existing = grind matches

  pub normalize_availability_exception_row-matched :
      (existing : String → Option ExceptionFact)
      → (normalize_availability_exception_row create_model update_model read_uuid row lookup
          existing).matched_id
        ≡ of_column (λ f. f.id) existing row "external_id"
  unfolding normalize_availability_exception_row
  normalize_availability_exception_row-matched existing = grind matches

  pub normalize_person_skill_row-matched :
      (existing : Uuid → Uuid → Option PersonSkillFact)
      → (normalize_person_skill_row create_model update_model read_uuid row lookup
          existing).matched_id
        ≡ of_pair
            (λ f. f.id)
            existing
            (resolve_person_reference read_uuid row lookup)
            (resolve_skill_reference read_uuid row lookup)
  unfolding normalize_person_skill_row
  normalize_person_skill_row-matched existing = grind matches

  pub normalize_project_skill_requirement_row-matched :
      (existing : Uuid → Uuid → Option RequirementFact)
      → (normalize_project_skill_requirement_row create_model update_model read_uuid row lookup
          existing).matched_id
        ≡ of_pair
            (λ f. f.id)
            existing
            (resolve_project_reference read_uuid row lookup)
            (resolve_skill_reference read_uuid row lookup)
  unfolding normalize_project_skill_requirement_row
  normalize_project_skill_requirement_row-matched existing = grind matches

  pub normalize_risk_row-matched :
      (existing : String → Option RiskFact)
      → (normalize_risk_row create_model update_model read_uuid row lookup existing).matched_id
        ≡ of_column (λ f. f.id) existing row "external_id"
  unfolding normalize_risk_row
  normalize_risk_row-matched existing = grind matches

  -- The pair of the project and the optional person of a stakeholder.
  abbrev pub of_stakeholder : (Uuid → Uuid → Option StakeholderFact) → Option Uuid
  of_stakeholder existing = elim (resolve_project_reference read_uuid row lookup) [
    | refused error ↦ none
    | found project ↦
        elim (optional_of
          (resolve_optional_person_reference read_uuid row lookup "person_id" "person_email")) [
            | failed error ↦ none
            | given person ↦ id_of_match (λ f. f.id) (match_pair existing project person)
          ]
  ]

  pub normalize_stakeholder_row-matched :
      (existing : Uuid → Uuid → Option StakeholderFact)
      → (normalize_stakeholder_row create_model update_model read_uuid row lookup
          existing).matched_id
        ≡ of_stakeholder existing
  unfolding normalize_stakeholder_row
  normalize_stakeholder_row-matched existing = grind matches

  pub normalize_schedule_fields-matched :
      (matched : Option WorkingScheduleFact) (entries : Option (List (ℕ × String)))
      → (normalize_schedule_fields create_model update_model read_uuid row lookup matched
          entries).matched_id
        ≡ id_of_match (λ f. f.id) matched
  unfolding normalize_schedule_fields
  normalize_schedule_fields-matched matched entries = grind matches

  pub normalize_working_schedule_row-matched :
      (validate_entry : List (String × String) → Validated (ℕ × String))
      (existing : String → Option WorkingScheduleFact)
      → (normalize_working_schedule_row create_model update_model read_uuid validate_entry row
          lookup existing).matched_id
        ≡ of_column (λ f. f.id) existing row "external_id"
  unfolding normalize_working_schedule_row
  normalize_working_schedule_row-matched validate_entry existing =
      grind (arith, normalize_schedule_fields-matched)

  pub normalize_score_fields-matched :
      (matched : Option ScoreFact) (project framework : Uuid) (identity : Option String)
      (values : Option (List (String × String)))
      → (normalize_score_fields create_model update_model read_uuid row matched project framework
          identity values).matched_id
        ≡ id_of_match (λ f. f.id) matched
  unfolding normalize_score_fields
  normalize_score_fields-matched matched project framework identity values = grind matches

  pub normalize_project_priority_score_row-matched :
      (validate_value : List (String × String) → Validated (String × String))
      (existing : Uuid → Uuid → Option ScoreFact) (o : Outcome (Payload (Uuid × C) (Uuid × U)))
      → normalize_project_priority_score_row create_model update_model read_uuid validate_value row
          lookup existing
        ≡ some o
      → o.matched_id
        ≡ of_pair
            (λ f. f.id)
            existing
            (resolve_project_reference read_uuid row lookup)
            (resolve_framework_reference read_uuid row lookup)
  unfolding normalize_project_priority_score_row
  normalize_project_priority_score_row-matched validate_value existing o h =
      grind (arith, normalize_score_fields-matched)

module _ (read_uuid : String → Option Uuid) (row : Row) (lookup : ReferenceLookup) where
  pub normalize_team_membership_row-matched :
      (is_member : Uuid → Uuid → Bool)
      → (normalize_team_membership_row read_uuid row lookup is_member).matched_id ≡ none
  unfolding normalize_team_membership_row
  normalize_team_membership_row-matched is_member = ground arith

  pub normalize_project_dependency_row-matched :
      (read_type : Option String → Validated ProjectDependencyType)
      (exists : Uuid → Uuid → ProjectDependencyType → Bool)
      → (normalize_project_dependency_row read_type read_uuid row lookup exists).matched_id ≡ none
  unfolding normalize_project_dependency_row
  normalize_project_dependency_row-matched read_type exists = ground arith
