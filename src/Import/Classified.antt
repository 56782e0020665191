-- ===== src/Import/Classified.antt =====
-- Every row is classified, or has errors: the `normalize_…_row` functions of
-- apps/api/app/domain/import_export_diff.py.
pub mod Matched
pub mod Rows
use Prim.Native.String.{String}
use capacityos.Base.{
  ℕ, ◌≡◌, ◌≢◌, refl, inl, inr, Bool, true, false, Option, none, some, List, [], ◌∷◌, arith,
  Option-cases, Bool-cases, if◌then◌else◌,
}
use capacityos.Capacity.{Uuid}
use capacityos.Dependencies.{ProjectDependencyType}
use capacityos.Import.{Row, FieldError}
use capacityos.Import.References.{
  ProjectFact, SkillFact, ReferenceLookup, resolve_project_reference, resolve_framework_reference,
}
use capacityos.Import.References.Resolved.{IsConsistent, framework_is_known, Reference-cases}
use capacityos.Import.Outcomes.{
  Model, Validated, valid, invalid, Payload, for_create, for_update, Outcome, Action, create,
  update, unchanged, create_outcome, update_outcome, no_outcome, unchanged_outcome,
}
use capacityos.Import.Directory.{
  normalize_person_row, normalize_team_row, normalize_project_row, normalize_skill_row,
  normalize_team_membership_row,
}
use capacityos.Import.Planning.{
  AllocationFact, ExceptionFact, PersonSkillFact, RequirementFact, normalize_allocation_row,
  normalize_availability_exception_row, normalize_person_skill_row,
  normalize_project_skill_requirement_row,
}
use capacityos.Import.Decisions.{
  RiskFact, StakeholderFact, normalize_risk_row, normalize_stakeholder_row,
  normalize_project_dependency_row,
}
use capacityos.Import.Packed.{
  WorkingScheduleFact, normalize_working_schedule_row, normalize_schedule_fields, ScoreFact,
  normalize_score_fields, normalize_project_priority_score_row,
}

-- No action and no payload with at least one error; or no error, and for a creation the payload of
-- a creation and no id, for an update the payload of an update and the id that was matched.
abbrev pub has_shape :
    {C U : Type 0} → Option Action → Option (Payload C U) → Option Uuid → List FieldError → Bool
has_shape none none m (e ∷ es) = true
has_shape (some create) (some (for_create c)) none [] = true
has_shape (some update) (some (for_update u)) (some i) [] = true
has_shape (some unchanged) payload m [] = true
has_shape _ _ _ _ = false

abbrev pub IsClassified : {C U : Type 0} → Outcome (Payload C U) → Type 0
IsClassified o = has_shape o.action o.payload o.matched_id o.errors ≡ true

create_outcome-IsClassified :
    {C D : Type 0} (U : Type 0) (wrap : D → C) (identity : Option String) (v : Validated D)
    → IsClassified (create_outcome {U = U} wrap identity v)
create_outcome-IsClassified U wrap identity (valid p) = refl
create_outcome-IsClassified U wrap identity (invalid d ds) = refl

update_outcome-IsClassified :
    {U D : Type 0} (C : Type 0) (wrap : D → U) (i : Uuid) (identity : Option String)
    (same : D → Bool) (v : Validated D)
    → IsClassified (update_outcome {C = C} wrap i identity same v)
update_outcome-IsClassified C wrap i identity same (valid p) = elim (Bool-cases (same p)) [
  | inl e ↦ rw e refl
  | inr e ↦ rw e refl
]
update_outcome-IsClassified C wrap i identity same (invalid d ds) = refl

ruleset outcomes = (arith, create_outcome-IsClassified, update_outcome-IsClassified)

module _ {C U : Type 0} (create_model : Model C) (update_model : Model U) (row : Row) where
  pub normalize_person_row-IsClassified :
      (lookup : ReferenceLookup)
      → IsClassified (normalize_person_row create_model update_model row lookup)
  unfolding normalize_person_row
  normalize_person_row-IsClassified lookup = grind outcomes

  pub normalize_team_row-IsClassified :
      (lookup : ReferenceLookup)
      → IsClassified (normalize_team_row create_model update_model row lookup)
  unfolding normalize_team_row
  normalize_team_row-IsClassified lookup = grind outcomes

  pub normalize_project_row-IsClassified :
      (existing : String → Option ProjectFact)
      → IsClassified (normalize_project_row create_model update_model row existing)
  unfolding normalize_project_row
  normalize_project_row-IsClassified existing = grind outcomes

  pub normalize_skill_row-IsClassified :
      (existing : String → Option SkillFact)
      → IsClassified (normalize_skill_row create_model update_model row existing)
  unfolding normalize_skill_row
  normalize_skill_row-IsClassified existing = grind outcomes

module _ {C U : Type 0} (create_model : Model C) (update_model : Model U)
    (read_uuid : String → Option Uuid) (row : Row) (lookup : ReferenceLookup) where
  pub normalize_allocation_row-IsClassified :
      (existing : String → Option AllocationFact)
      → IsClassified
          (normalize_allocation_row create_model update_model read_uuid row lookup existing)
  unfolding normalize_allocation_row
  normalize_allocation_row-IsClassified existing = grind outcomes

  pub normalize_availability_exception_row-IsClassified :
      (existing : String → Option ExceptionFact)
      → IsClassified (
          normalize_availability_exception_row create_model update_model read_uuid row lookup
            existing)
  unfolding normalize_availability_exception_row
  normalize_availability_exception_row-IsClassified existing = grind outcomes

  pub normalize_person_skill_row-IsClassified :
      (existing : Uuid → Uuid → Option PersonSkillFact)
      → IsClassified
          (normalize_person_skill_row create_model update_model read_uuid row lookup existing)
  unfolding normalize_person_skill_row
  normalize_person_skill_row-IsClassified existing = grind outcomes

  pub normalize_project_skill_requirement_row-IsClassified :
      (existing : Uuid → Uuid → Option RequirementFact)
      → IsClassified (
          normalize_project_skill_requirement_row create_model update_model read_uuid row lookup
            existing)
  unfolding normalize_project_skill_requirement_row
  normalize_project_skill_requirement_row-IsClassified existing = grind outcomes

  pub normalize_risk_row-IsClassified :
      (existing : String → Option RiskFact)
      → IsClassified (normalize_risk_row create_model update_model read_uuid row lookup existing)
  unfolding normalize_risk_row
  normalize_risk_row-IsClassified existing = grind outcomes

  pub normalize_stakeholder_row-IsClassified :
      (existing : Uuid → Uuid → Option StakeholderFact)
      → IsClassified
          (normalize_stakeholder_row create_model update_model read_uuid row lookup existing)
  unfolding normalize_stakeholder_row
  normalize_stakeholder_row-IsClassified existing = grind outcomes

  pub normalize_schedule_fields-IsClassified :
      (matched : Option WorkingScheduleFact) (entries : Option (List (ℕ × String)))
      → IsClassified
          (normalize_schedule_fields create_model update_model read_uuid row lookup matched entries)
  unfolding normalize_schedule_fields
  normalize_schedule_fields-IsClassified matched entries = grind outcomes

  pub normalize_working_schedule_row-IsClassified :
      (validate_entry : List (String × String) → Validated (ℕ × String))
      (existing : String → Option WorkingScheduleFact)
      → IsClassified (
          normalize_working_schedule_row create_model update_model read_uuid validate_entry row
            lookup existing)
  unfolding normalize_working_schedule_row
  normalize_working_schedule_row-IsClassified validate_entry existing =
      grind (arith, normalize_schedule_fields-IsClassified)

  pub normalize_score_fields-IsClassified :
      (matched : Option ScoreFact) (project framework : Uuid) (identity : Option String)
      (values : Option (List (String × String)))
      → IsClassified (
          normalize_score_fields create_model update_model read_uuid row matched project framework
            identity values)
  unfolding normalize_score_fields
  normalize_score_fields-IsClassified matched project framework identity values = grind outcomes

  pub normalize_project_priority_score_row-IsClassified :
      (validate_value : List (String × String) → Validated (String × String))
      (existing : Uuid → Uuid → Option ScoreFact) (o : Outcome (Payload (Uuid × C) (Uuid × U)))
      → normalize_project_priority_score_row create_model update_model read_uuid validate_value row
          lookup existing
        ≡ some o
      → IsClassified o
  unfolding normalize_project_priority_score_row
  normalize_project_priority_score_row-IsClassified validate_value existing o h =
      grind (arith, normalize_score_fields-IsClassified)

module _ (read_uuid : String → Option Uuid) (row : Row) (lookup : ReferenceLookup) where
  pub normalize_team_membership_row-IsClassified :
      (is_member : Uuid → Uuid → Bool)
      → IsClassified (normalize_team_membership_row read_uuid row lookup is_member)
  unfolding normalize_team_membership_row
  normalize_team_membership_row-IsClassified is_member = ground arith

  pub normalize_project_dependency_row-IsClassified :
      (read_type : Option String → Validated ProjectDependencyType)
      (exists : Uuid → Uuid → ProjectDependencyType → Bool)
      → IsClassified (normalize_project_dependency_row read_type read_uuid row lookup exists)
  unfolding normalize_project_dependency_row
  normalize_project_dependency_row-IsClassified read_type exists = ground arith
