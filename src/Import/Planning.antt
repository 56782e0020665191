-- ===== src/Import/Planning.antt =====
-- Rows of allocations, availability exceptions, skills of people and skill requirements:
-- `normalize_allocation_row`, `normalize_availability_exception_row`, `normalize_person_skill_row`
-- and `normalize_project_skill_requirement_row` of apps/api/app/domain/import_export_diff.py.
use Prim.Native.String.{String, ◌++◌}
use capacityos.Base.{Bool, true, false, Option, none, some, [], ◌∷◌}
use capacityos.Capacity.{Uuid}
use capacityos.Import.{Row, Json, FieldError, domain_rule_violated}
use capacityos.Import.Cells.{coerce_optional_str}
use capacityos.Import.References.{
  ReferenceLookup, SkillFact, refused, found, resolve_person_reference, resolve_project_reference,
  resolve_skill_reference, reference_display,
}
use capacityos.Import.Outcomes.{
  Model, Payload, Outcome, present_fields, is_unchanged, no_outcome, create_outcome, update_outcome,
}
use capacityos.Import.Fields.{cells, or_null, match_by, identity_by}

pub record AllocationFact : Type 0 where
  pub id : Uuid
  pub external_id : Option String
  pub person_id : Uuid
  pub project_id : Uuid
  pub start_date : String
  pub end_date : String
  pub allocation_hours : String
  pub allocation_unit : String
  pub notes : Option String

-- AvailabilityExceptionFact
pub record ExceptionFact : Type 0 where
  pub id : Uuid
  pub external_id : Option String
  pub person_id : Uuid
  pub start_date : String
  pub end_date : String
  pub availability_type : String
  pub hours : Option String
  pub notes : Option String

pub record PersonSkillFact : Type 0 where
  pub id : Uuid
  pub person_id : Uuid
  pub skill_id : Uuid
  pub proficiency : String
  pub notes : Option String

-- ProjectSkillRequirementFact
pub record RequirementFact : Type 0 where
  pub id : Uuid
  pub project_id : Uuid
  pub skill_id : Uuid
  pub required_hours : String
  pub minimum_proficiency : Option String
  pub notes : Option String

-- `skill_fact is not None and not skill_fact.is_active`
abbrev pub is_inactive : Option SkillFact → Bool
is_inactive none = false
is_inactive (some f) = elim f.is_active [ true ↦ false | false ↦ true ]

abbrev pub inactive_skill : FieldError
inactive_skill = record { field = some "skill_id"; code = domain_rule_violated }

module _ {C U : Type 0} (create_model : Model C) (update_model : Model U)
    (read_uuid : String → Option Uuid) where
  unfoldable pub current_allocation : AllocationFact → U
  current_allocation f = update_model.construct (
      ("start_date", Json.text f.start_date)
      ∷ ("end_date", Json.text f.end_date)
      ∷ ("allocation_hours", Json.text f.allocation_hours)
      ∷ ("allocation_unit", Json.text f.allocation_unit)
      ∷ ("notes", or_null f.notes)
      ∷ ("external_id", or_null f.external_id)
      ∷ [])

  unfoldable pub normalize_allocation_row :
      Row → ReferenceLookup → (String → Option AllocationFact) → Outcome (Payload C U)
  normalize_allocation_row row lookup existing_by_external_id =
      let external_id = coerce_optional_str (row "external_id") in
      let identity = identity_by "external_id" external_id in
      let fields = present_fields (
        cells row (
          "start_date" ∷ "end_date" ∷ "allocation_hours" ∷ "allocation_unit" ∷ "notes"
          ∷ "external_id" ∷ [])) in
      elim (match_by existing_by_external_id external_id) [
        | none ↦ elim (resolve_person_reference read_uuid row lookup) [
          | refused error ↦ no_outcome none identity error []
          | found person ↦ elim (resolve_project_reference read_uuid row lookup) [
            | refused error ↦ no_outcome none identity error []
            | found project ↦
                create_outcome (λ p. p) identity
                  (create_model.validate
                    (("person_id", Json.ref person) ∷ ("project_id", Json.ref project) ∷ fields))
          ]
        ]
        | some existing ↦
            update_outcome (λ p. p) existing.id identity
              (λ p. is_unchanged update_model [] p (current_allocation existing))
              (update_model.validate fields)
      ]

  unfoldable pub current_exception : ExceptionFact → U
  current_exception f = update_model.construct (
      ("start_date", Json.text f.start_date)
      ∷ ("end_date", Json.text f.end_date)
      ∷ ("availability_type", Json.text f.availability_type)
      ∷ ("hours", or_null f.hours)
      ∷ ("notes", or_null f.notes)
      ∷ ("external_id", or_null f.external_id)
      ∷ [])

  unfoldable pub normalize_availability_exception_row :
      Row → ReferenceLookup → (String → Option ExceptionFact) → Outcome (Payload C U)
  normalize_availability_exception_row row lookup existing_by_external_id =
      let external_id = coerce_optional_str (row "external_id") in
      let identity = identity_by "external_id" external_id in
      let fields = present_fields (
        cells row (
          "start_date" ∷ "end_date" ∷ "availability_type" ∷ "hours" ∷ "notes" ∷ "external_id"
          ∷ [])) in
      elim (match_by existing_by_external_id external_id) [
        | none ↦ elim (resolve_person_reference read_uuid row lookup) [
          | refused error ↦ no_outcome none identity error []
          | found person ↦
              create_outcome (λ p. p) identity
                (create_model.validate (("person_id", Json.ref person) ∷ fields))
        ]
        | some existing ↦
            update_outcome (λ p. p) existing.id identity
              (λ p. is_unchanged update_model [] p (current_exception existing))
              (update_model.validate fields)
      ]

  unfoldable pub current_person_skill : PersonSkillFact → U
  current_person_skill f =
      update_model.construct
        (("proficiency", Json.text f.proficiency) ∷ ("notes", or_null f.notes) ∷ [])

  -- The payloads carry the person (`PersonSkillPayload`).
  unfoldable pub normalize_person_skill_row :
      Row
      → ReferenceLookup
      → (Uuid → Uuid → Option PersonSkillFact)
      → Outcome (Payload (Uuid × C) (Uuid × U))
  normalize_person_skill_row row lookup existing_by_pair =
      elim (resolve_person_reference read_uuid row lookup) [
        | refused error ↦ no_outcome none none error []
        | found person ↦ elim (resolve_skill_reference read_uuid row lookup) [
          | refused error ↦ no_outcome none none error []
          | found skill ↦
              let identity : Option String = some (
                reference_display row "person_id" "person_email"
                ++ ("," ++ reference_display row "skill_id" "skill_name")) in
              let fields = present_fields (cells row ("proficiency" ∷ "notes" ∷ [])) in
              elim (existing_by_pair person skill) [
                | none ↦ elim (is_inactive (lookup.skills_by_id skill)) [
                  | true ↦ no_outcome none identity inactive_skill []
                  | false ↦
                      create_outcome (λ p. (person, p)) identity
                        (create_model.validate (("skill_id", Json.ref skill) ∷ fields))
                ]
                | some existing ↦
                    update_outcome (λ p. (person, p)) existing.id identity
                      (λ p. is_unchanged update_model [] p (current_person_skill existing))
                      (update_model.validate fields)
              ]
        ]
      ]

  unfoldable pub current_requirement : RequirementFact → U
  current_requirement f = update_model.construct (
      ("required_hours", Json.text f.required_hours)
      ∷ ("minimum_proficiency", or_null f.minimum_proficiency)
      ∷ ("notes", or_null f.notes)
      ∷ [])

  -- The payloads carry the project (`ProjectSkillRequirementPayload`).
  unfoldable pub normalize_project_skill_requirement_row :
      Row
      → ReferenceLookup
      → (Uuid → Uuid → Option RequirementFact)
      → Outcome (Payload (Uuid × C) (Uuid × U))
  normalize_project_skill_requirement_row row lookup existing_by_pair =
      elim (resolve_project_reference read_uuid row lookup) [
        | refused error ↦ no_outcome none none error []
        | found project ↦ elim (resolve_skill_reference read_uuid row lookup) [
          | refused error ↦ no_outcome none none error []
          | found skill ↦
              let identity : Option String = some (
                reference_display row "project_id" "project_external_id"
                ++ ("," ++ reference_display row "skill_id" "skill_name")) in
              let fields =
                present_fields
                  (cells row ("required_hours" ∷ "minimum_proficiency" ∷ "notes" ∷ [])) in
              elim (existing_by_pair project skill) [
                | none ↦ elim (is_inactive (lookup.skills_by_id skill)) [
                  | true ↦ no_outcome none identity inactive_skill []
                  | false ↦
                      create_outcome (λ p. (project, p)) identity
                        (create_model.validate (("skill_id", Json.ref skill) ∷ fields))
                ]
                | some existing ↦
                    update_outcome (λ p. (project, p)) existing.id identity
                      (λ p. is_unchanged update_model [] p (current_requirement existing))
                      (update_model.validate fields)
              ]
        ]
      ]
