-- ===== src/Import/Classified/Rows.antt =====
-- The rows of all entities: apps/api/app/domain/import_export_diff.py.
use Prim.Native.String.{String}
use capacityos.Base.{ℕ, ◌≡◌, ◌≢◌, inl, inr, Bool, Option, none, some, List, arith, Option-cases}
use capacityos.Capacity.{Uuid}
use capacityos.Dependencies.{ProjectDependencyType}
use capacityos.Import.{Row}
use capacityos.Import.References.{
  ProjectFact, SkillFact, ReferenceLookup, resolve_project_reference, resolve_framework_reference,
  resolve_person_reference, resolve_skill_reference,
}
use capacityos.Import.References.Resolved.{IsConsistent, framework_is_known, Reference-cases}
use capacityos.Import.Outcomes.{Model, Validated, Payload, Outcome}
use capacityos.Import.Directory.{
  normalize_person_row, normalize_team_row, normalize_project_row, normalize_skill_row,
  normalize_team_membership_row,
}
use capacityos.Import.Planning.{
  AllocationFact, ExceptionFact, PersonSkillFact, RequirementFact, normalize_allocation_row,
  normalize_availability_exception_row, normalize_person_skill_row,
  normalize_project_skill_requirement_row,
}
use capacityos.Import.Decisions.{
  RiskFact, StakeholderFact, normalize_risk_row, normalize_stakeholder_row,
  normalize_project_dependency_row,
}
use capacityos.Import.Packed.{
  WorkingScheduleFact, normalize_working_schedule_row, ScoreFact,
  normalize_project_priority_score_row,
}
use capacityos.Import.Lookups.{Catalog, Needs, build_lookup}
use capacityos.Import.Lookups.Consistent.{build_lookup-IsConsistent}
use capacityos.Import.Classified.Matched.{
  of_column, of_pair, of_stakeholder, normalize_person_row-matched, normalize_team_row-matched,
  normalize_project_row-matched, normalize_skill_row-matched, normalize_allocation_row-matched,
  normalize_availability_exception_row-matched, normalize_person_skill_row-matched,
  normalize_project_skill_requirement_row-matched, normalize_risk_row-matched,
  normalize_stakeholder_row-matched, normalize_working_schedule_row-matched,
  normalize_project_priority_score_row-matched, normalize_team_membership_row-matched,
  normalize_project_dependency_row-matched,
}
use capacityos.Import.Classified.{
  IsClassified, normalize_person_row-IsClassified, normalize_team_row-IsClassified,
  normalize_project_row-IsClassified, normalize_skill_row-IsClassified,
  normalize_allocation_row-IsClassified, normalize_availability_exception_row-IsClassified,
  normalize_person_skill_row-IsClassified, normalize_project_skill_requirement_row-IsClassified,
  normalize_risk_row-IsClassified, normalize_stakeholder_row-IsClassified,
  normalize_working_schedule_row-IsClassified, normalize_project_priority_score_row-IsClassified,
  normalize_team_membership_row-IsClassified, normalize_project_dependency_row-IsClassified,
}

-- The subscript `lookup.frameworks_by_id[framework_ref]` finds the framework.
module _ {C U : Type 0} (create_model : Model C) (update_model : Model U)
    (read_uuid : String → Option Uuid) (row : Row) (lookup : ReferenceLookup)
    (consistent : IsConsistent lookup) where
  normalize_project_priority_score_row-ne-none :
      (validate_value : List (String × String) → Validated (String × String))
      (existing : Uuid → Uuid → Option ScoreFact)
      → normalize_project_priority_score_row create_model update_model read_uuid validate_value row
          lookup existing
        ≢ none
  unfolding normalize_project_priority_score_row
  normalize_project_priority_score_row-ne-none validate_value existing h =
      elim (Reference-cases (resolve_project_reference read_uuid row lookup)) [
        | inl (error, e) ↦ ground arith
        | inr (project, e) ↦
            elim (Reference-cases (resolve_framework_reference read_uuid row lookup)) [
              | inl (error, f) ↦ ground arith
              | inr (framework, f) ↦
                  let (fact, known) =
                    framework_is_known read_uuid row lookup framework consistent f in
                  ground arith
            ]
      ]

-- Classified, and with that id.
abbrev pub IsClassifiedAs : {C U : Type 0} → Option Uuid → Outcome (Payload C U) → Type 0
IsClassifiedAs expected o = IsClassified o × (o.matched_id ≡ expected)

module _ {C U : Type 0} (create_model : Model C) (update_model : Model U)
    (read_uuid : String → Option Uuid) (row : Row) (lookup : ReferenceLookup) where
  abbrev pub AllClassified :
      (own : ReferenceLookup) (projects : String → Option ProjectFact)
      (skills : String → Option SkillFact) (allocations : String → Option AllocationFact)
      (exceptions : String → Option ExceptionFact) (schedules : String → Option WorkingScheduleFact)
      (risks : String → Option RiskFact) (person_skills : Uuid → Uuid → Option PersonSkillFact)
      (requirements : Uuid → Uuid → Option RequirementFact)
      (stakeholders : Uuid → Uuid → Option StakeholderFact)
      (scores : Uuid → Uuid → Option ScoreFact) (is_member : Uuid → Uuid → Bool)
      (exists : Uuid → Uuid → ProjectDependencyType → Bool)
      (validate_entry : List (String × String) → Validated (ℕ × String))
      (validate_value : List (String × String) → Validated (String × String))
      (read_type : Option String → Validated ProjectDependencyType)
      → Type 0
  AllClassified own projects skills allocations exceptions schedules risks person_skills
        requirements stakeholders scores is_member exists validate_entry validate_value read_type =
      IsClassifiedAs (of_column (λ f. f.id) own.people_by_email row "email")
        (normalize_person_row create_model update_model row own)
      × IsClassifiedAs (of_column (λ f. f.id) own.teams_by_name row "name")
          (normalize_team_row create_model update_model row own)
      × IsClassifiedAs none (normalize_team_membership_row read_uuid row lookup is_member)
      × IsClassifiedAs (of_column (λ f. f.id) projects row "external_id")
          (normalize_project_row create_model update_model row projects)
      × IsClassifiedAs (of_column (λ f. f.id) allocations row "external_id")
          (normalize_allocation_row create_model update_model read_uuid row lookup allocations)
      × IsClassifiedAs (of_column (λ f. f.id) schedules row "external_id") (
          normalize_working_schedule_row create_model update_model read_uuid validate_entry row
            lookup schedules)
      × IsClassifiedAs (of_column (λ f. f.id) exceptions row "external_id") (
          normalize_availability_exception_row create_model update_model read_uuid row lookup
            exceptions)
      × IsClassifiedAs (of_column (λ f. f.id) skills row "name")
          (normalize_skill_row create_model update_model row skills)
      × IsClassifiedAs
          (of_pair (λ f. f.id) person_skills (resolve_person_reference read_uuid row lookup)
            (resolve_skill_reference read_uuid row lookup))
          (normalize_person_skill_row create_model update_model read_uuid row lookup person_skills)
      × IsClassifiedAs
          (of_pair (λ f. f.id) requirements (resolve_project_reference read_uuid row lookup)
            (resolve_skill_reference read_uuid row lookup))
          (normalize_project_skill_requirement_row create_model update_model read_uuid row lookup
            requirements)
      × IsClassifiedAs (of_column (λ f. f.id) risks row "external_id")
          (normalize_risk_row create_model update_model read_uuid row lookup risks)
      × IsClassifiedAs (of_stakeholder create_model update_model read_uuid row lookup stakeholders)
          (normalize_stakeholder_row create_model update_model read_uuid row lookup stakeholders)
      × ((o : Outcome (Payload (Uuid × C) (Uuid × U))) × (normalize_project_priority_score_row
              create_model update_model read_uuid validate_value row lookup scores
            ≡ some o)
          × IsClassifiedAs
              (of_pair (λ f. f.id) scores (resolve_project_reference read_uuid row lookup)
                (resolve_framework_reference read_uuid row lookup))
              o)
      × IsClassifiedAs none (normalize_project_dependency_row read_type read_uuid row lookup exists)

  score_row :
      (validate_value : List (String × String) → Validated (String × String))
      (scores : Uuid → Uuid → Option ScoreFact)
      → IsConsistent lookup
      → (o : Outcome (Payload (Uuid × C) (Uuid × U))) × (normalize_project_priority_score_row
            create_model update_model read_uuid validate_value row lookup scores
          ≡ some o)
        × IsClassifiedAs
            (of_pair
              (λ f. f.id)
              scores
              (resolve_project_reference read_uuid row lookup)
              (resolve_framework_reference read_uuid row lookup))
            o
  score_row validate_value scores consistent =
      elim (Option-cases (
        normalize_project_priority_score_row create_model update_model read_uuid validate_value row
          lookup scores)) [
            | inl missing ↦ absurd (
                normalize_project_priority_score_row-ne-none create_model update_model read_uuid row
                  lookup consistent validate_value scores missing)
            | inr (o, e) ↦ (
              o,
              e,
              (
                normalize_project_priority_score_row-IsClassified create_model update_model
                    read_uuid row lookup validate_value scores o e,
                normalize_project_priority_score_row-matched create_model update_model read_uuid row
                    lookup validate_value scores o e,
              ),
            )
          ]

module _ {C U : Type 0} (create_model : Model C) (update_model : Model U)
    (read_uuid : String → Option Uuid) (file : List Row) (catalog : Catalog) (needs : Needs)
    (row : Row) where
  -- Each of the fourteen functions that normalize a row classifies it, whatever the cells and the
  -- existing records are, with the references that the service looks up for any file and, for a person
  -- or a team, with any lookup of its own, for schemas that accept the values of existing records: the
  -- outcome has no action and no payload and at least one error, or no error and an action, which for
  -- a creation comes with a creation's payload and no id, and for an update with an update's payload
  -- and an id. The id is that of the existing record that the row's key finds, a column or a pair of
  -- references, and there is none if it finds none; a row of a team membership or of a dependency,
  -- which is never updated, has none. For a priority score there always is an outcome.
  pub normalize_rows-IsClassified :
      (own : ReferenceLookup) (projects : String → Option ProjectFact)
      (skills : String → Option SkillFact) (allocations : String → Option AllocationFact)
      (exceptions : String → Option ExceptionFact) (schedules : String → Option WorkingScheduleFact)
      (risks : String → Option RiskFact) (person_skills : Uuid → Uuid → Option PersonSkillFact)
      (requirements : Uuid → Uuid → Option RequirementFact)
      (stakeholders : Uuid → Uuid → Option StakeholderFact)
      (scores : Uuid → Uuid → Option ScoreFact) (is_member : Uuid → Uuid → Bool)
      (exists : Uuid → Uuid → ProjectDependencyType → Bool)
      (validate_entry : List (String × String) → Validated (ℕ × String))
      (validate_value : List (String × String) → Validated (String × String))
      (read_type : Option String → Validated ProjectDependencyType)
      → AllClassified create_model update_model read_uuid row
          (build_lookup read_uuid file catalog needs)
          own
          projects
          skills
          allocations
          exceptions
          schedules
          risks
          person_skills
          requirements
          stakeholders
          scores
          is_member
          exists
          validate_entry
          validate_value
          read_type
  normalize_rows-IsClassified own projects skills allocations exceptions schedules risks
        person_skills requirements stakeholders scores is_member exists validate_entry
        validate_value read_type =
      let lookup = build_lookup read_uuid file catalog needs in
      (
        (
          normalize_person_row-IsClassified create_model update_model row own,
          normalize_person_row-matched create_model update_model row own,
        ),
        (
          normalize_team_row-IsClassified create_model update_model row own,
          normalize_team_row-matched create_model update_model row own,
        ),
        (
          normalize_team_membership_row-IsClassified read_uuid row lookup is_member,
          normalize_team_membership_row-matched read_uuid row lookup is_member,
        ),
        (
          normalize_project_row-IsClassified create_model update_model row projects,
          normalize_project_row-matched create_model update_model row projects,
        ),
        (
          normalize_allocation_row-IsClassified create_model update_model read_uuid row lookup
              allocations,
          normalize_allocation_row-matched create_model update_model read_uuid row lookup
              allocations,
        ),
        (
          normalize_working_schedule_row-IsClassified create_model update_model read_uuid row lookup
              validate_entry schedules,
          normalize_working_schedule_row-matched create_model update_model read_uuid row lookup
              validate_entry schedules,
        ),
        (
          normalize_availability_exception_row-IsClassified create_model update_model read_uuid row
              lookup exceptions,
          normalize_availability_exception_row-matched create_model update_model read_uuid row
              lookup exceptions,
        ),
        (
          normalize_skill_row-IsClassified create_model update_model row skills,
          normalize_skill_row-matched create_model update_model row skills,
        ),
        (
          normalize_person_skill_row-IsClassified create_model update_model read_uuid row lookup
              person_skills,
          normalize_person_skill_row-matched create_model update_model read_uuid row lookup
              person_skills,
        ),
        (
          normalize_project_skill_requirement_row-IsClassified create_model update_model read_uuid
              row lookup requirements,
          normalize_project_skill_requirement_row-matched create_model update_model read_uuid row
              lookup requirements,
        ),
        (
          normalize_risk_row-IsClassified create_model update_model read_uuid row lookup risks,
          normalize_risk_row-matched create_model update_model read_uuid row lookup risks,
        ),
        (
          normalize_stakeholder_row-IsClassified create_model update_model read_uuid row lookup
              stakeholders,
          normalize_stakeholder_row-matched create_model update_model read_uuid row lookup
              stakeholders,
        ),
        score_row create_model update_model read_uuid row lookup validate_value scores
            (build_lookup-IsConsistent read_uuid file catalog needs),
        (
          normalize_project_dependency_row-IsClassified read_uuid row lookup read_type exists,
          normalize_project_dependency_row-matched read_uuid row lookup read_type exists,
        ),
      )
