-- ===== src/Import/Directory.antt =====
-- Rows of people, teams, team memberships, projects and skills: `normalize_person_row`,
-- `normalize_team_row`, `normalize_team_membership_row`, `normalize_project_row` and
-- `normalize_skill_row` of apps/api/app/domain/import_export_diff.py.
use Prim.Native.String.{String, ◌++◌}
use capacityos.Base.{Bool, true, false, Option, none, some, [], ◌∷◌}
use capacityos.Capacity.{Uuid}
use capacityos.Import.{Row, Json}
use capacityos.Import.Cells.{coerce_optional_str}
use capacityos.Import.References.{
  PersonFact, TeamFact, ProjectFact, SkillFact, ReferenceLookup, refused, found,
  resolve_person_reference, resolve_team_reference, reference_display,
}
use capacityos.Import.Outcomes.{
  Model, Payload, for_create, Outcome, Action, present_fields, is_unchanged, no_outcome,
  create_outcome, update_outcome, unchanged_outcome,
}
use capacityos.Import.Fields.{cells, or_null, match_by, identity_by}

module _ {C U : Type 0} (create_model : Model C) (update_model : Model U) where
  unfoldable pub current_person : PersonFact → U
  current_person f = update_model.construct (
      ("first_name", Json.text f.first_name)
      ∷ ("last_name", Json.text f.last_name)
      ∷ ("display_name", Json.text f.display_name)
      ∷ ("email", Json.text f.email)
      ∷ ("job_title", or_null f.job_title)
      ∷ ("timezone", Json.text f.timezone)
      ∷ ("employment_status", Json.text f.employment_status)
      ∷ [])

  unfoldable pub normalize_person_row : Row → ReferenceLookup → Outcome (Payload C U)
  normalize_person_row row lookup =
      let email = coerce_optional_str (row "email") in
      let identity = identity_by "email" email in
      let fields = present_fields (
        cells row (
          "first_name" ∷ "last_name" ∷ "display_name" ∷ "email" ∷ "job_title" ∷ "timezone"
          ∷ "employment_status" ∷ [])) in
      elim (match_by lookup.people_by_email email) [
        | none ↦ create_outcome (λ p. p) identity (create_model.validate fields)
        | some existing ↦
            update_outcome (λ p. p) existing.id identity
              (λ p. is_unchanged update_model [] p (current_person existing))
              (update_model.validate fields)
      ]

  unfoldable pub current_team : TeamFact → U
  current_team f =
      update_model.construct
        (("name", Json.text f.name) ∷ ("description", or_null f.description) ∷ [])

  unfoldable pub normalize_team_row : Row → ReferenceLookup → Outcome (Payload C U)
  normalize_team_row row lookup =
      let name = coerce_optional_str (row "name") in
      let identity = identity_by "name" name in
      let fields = present_fields (cells row ("name" ∷ "description" ∷ [])) in
      elim (match_by lookup.teams_by_name name) [
        | none ↦ create_outcome (λ p. p) identity (create_model.validate fields)
        | some existing ↦
            update_outcome (λ p. p) existing.id identity
              (λ p. is_unchanged update_model [] p (current_team existing))
              (update_model.validate fields)
      ]

  unfoldable pub current_project : ProjectFact → U
  current_project f = update_model.construct (
      ("name", Json.text f.name)
      ∷ ("description", or_null f.description)
      ∷ ("status", Json.text f.status)
      ∷ ("start_date", or_null f.start_date)
      ∷ ("end_date", or_null f.end_date)
      ∷ ("external_id", or_null f.external_id)
      ∷ [])

  unfoldable pub normalize_project_row : Row → (String → Option ProjectFact) → Outcome (Payload C U)
  normalize_project_row row existing_by_external_id =
      let external_id = coerce_optional_str (row "external_id") in
      let identity = identity_by "external_id" external_id in
      let fields = present_fields (
        cells row
          ("name" ∷ "description" ∷ "status" ∷ "start_date" ∷ "end_date" ∷ "external_id" ∷ [])) in
      elim (match_by existing_by_external_id external_id) [
        | none ↦ create_outcome (λ p. p) identity (create_model.validate fields)
        | some existing ↦
            update_outcome (λ p. p) existing.id identity
              (λ p. is_unchanged update_model [] p (current_project existing))
              (update_model.validate fields)
      ]

  unfoldable pub current_skill : SkillFact → U
  current_skill f = update_model.construct (
      ("name", Json.text f.name)
      ∷ ("description", or_null f.description)
      ∷ ("category", or_null f.category)
      ∷ ("is_active", Json.flag f.is_active)
      ∷ [])

  -- A row that creates a skill has its `is_active` ignored.
  unfoldable pub normalize_skill_row : Row → (String → Option SkillFact) → Outcome (Payload C U)
  normalize_skill_row row existing_by_name =
      let name = coerce_optional_str (row "name") in
      let identity = identity_by "name" name in
      let fields = "name" ∷ "description" ∷ "category" ∷ [] in
      elim (match_by existing_by_name name) [
        | none ↦
            create_outcome (λ p. p) identity
              (create_model.validate (present_fields (cells row fields)))
        | some existing ↦
            update_outcome (λ p. p) existing.id identity
              (λ p. is_unchanged update_model [] p (current_skill existing))
              (update_model.validate (
                present_fields
                  (cells row ("name" ∷ "description" ∷ "category" ∷ "is_active" ∷ []))))
      ]

-- TeamMembershipPayload
pub record TeamMembershipPayload : Type 0 where
  pub team_id : Uuid
  pub person_id : Uuid

-- `(person_ref, team_ref) in existing_memberships` is the test `is_member`. There is no update.
unfoldable pub normalize_team_membership_row :
    (String → Option Uuid)
    → Row
    → ReferenceLookup
    → (Uuid → Uuid → Bool)
    → Outcome (Payload TeamMembershipPayload (Unit {0}))
normalize_team_membership_row read_uuid row lookup is_member =
    elim (resolve_person_reference read_uuid row lookup) [
      | refused error ↦ no_outcome none none error []
      | found person ↦ elim (resolve_team_reference read_uuid row lookup) [
        | refused error ↦ no_outcome none none error []
        | found team ↦
            let identity : Option String = some (
              reference_display row "person_id" "person_email"
              ++ ("," ++ reference_display row "team_id" "team_name")) in
            elim (is_member person team) [
              | true ↦ unchanged_outcome identity
              | false ↦ record {
                action = some Action.create;
                payload = some (for_create (record { team_id = team; person_id = person }));
                matched_id = none;
                identity = identity;
                errors = [];
              }
            ]
      ]
    ]
