-- ===== src/Import/Decisions.antt =====
-- Rows of risks, stakeholders and project dependencies: `normalize_risk_row`,
-- `normalize_stakeholder_row` and `normalize_project_dependency_row` of
-- apps/api/app/domain/import_export_diff.py.
use Prim.Native.String.{String, ◌++◌}
use capacityos.Base.{Bool, true, false, Option, none, some, [], ◌∷◌, ◌==◌}
use capacityos.Capacity.{Uuid}
use capacityos.Dependencies.{ProjectDependencyType, blocks, related, enables}
use capacityos.Import.{Row, Json, FieldError, domain_rule_violated}
use capacityos.Import.Cells.{coerce_optional_str}
use capacityos.Import.References.{
  ReferenceLookup, Reference, refused, found, resolve_project_reference,
  resolve_named_project_reference, resolve_optional_person_reference, reference_display,
}
use capacityos.Import.Outcomes.{
  Model, Validated, valid, invalid, Payload, for_create, Outcome, Action, present_fields,
  is_unchanged, no_outcome, create_outcome, update_outcome, unchanged_outcome, validation_errors,
  error_of,
}
use capacityos.Import.Fields.{cell, or_null, ref_or_null, match_by, identity_by}

pub record RiskFact : Type 0 where
  pub id : Uuid
  pub external_id : Option String
  pub project_id : Uuid
  pub description : String
  pub cause : Option String
  pub potential_effect : Option String
  pub probability : String
  pub impact : String
  pub response : Option String
  pub owner_person_id : Option Uuid
  pub status : String
  pub review_date : Option String

pub record StakeholderFact : Type 0 where
  pub id : Uuid
  pub project_id : Uuid
  pub name : String
  pub person_id : Option Uuid
  pub role : String
  pub influence : String
  pub interest : String
  pub decision_authority : String
  pub communication_needs : Option String

-- What is left of an optional reference that is no error.
pub data Optional : Type 0 where
  failed : FieldError → Optional
  given : Option Uuid → Optional

abbrev pub optional_of : Option Reference → Optional
optional_of none = given none
optional_of (some (refused error)) = failed error
optional_of (some (found i)) = given (some i)

abbrev pub ref_json : Option Uuid → Option Json
ref_json none = none
ref_json (some i) = some (Json.ref i)

abbrev pub id_of_match : {F : Type 0} → (F → Uuid) → Option F → Option Uuid
id_of_match id_of none = none
id_of_match id_of (some f) = some (id_of f)

abbrev pub match_pair : {F : Type 0} → (Uuid → Uuid → Option F) → Uuid → Option Uuid → Option F
match_pair mapping i none = none
match_pair mapping i (some j) = mapping i j

module _ {C U : Type 0} (create_model : Model C) (update_model : Model U)
    (read_uuid : String → Option Uuid) where
  unfoldable pub current_risk : RiskFact → U
  current_risk f = update_model.construct (
      ("description", Json.text f.description)
      ∷ ("cause", or_null f.cause)
      ∷ ("potential_effect", or_null f.potential_effect)
      ∷ ("probability", Json.text f.probability)
      ∷ ("impact", Json.text f.impact)
      ∷ ("response", or_null f.response)
      ∷ ("owner_person_id", ref_or_null f.owner_person_id)
      ∷ ("status", Json.text f.status)
      ∷ ("review_date", or_null f.review_date)
      ∷ ("external_id", or_null f.external_id)
      ∷ [])

  -- The payloads carry the project (`RiskPayload`); an update has the project that the risk has.
  unfoldable pub normalize_risk_row :
      Row → ReferenceLookup → (String → Option RiskFact) → Outcome (Payload (Uuid × C) (Uuid × U))
  normalize_risk_row row lookup existing_by_external_id =
      let external_id = coerce_optional_str (row "external_id") in
      let identity = identity_by "external_id" external_id in
      let matched = match_by existing_by_external_id external_id in
      elim (optional_of (
        resolve_optional_person_reference read_uuid row lookup "owner_person_id"
          "owner_person_email")) [
            | failed error ↦ no_outcome (id_of_match (λ f. f.id) matched) identity error []
            | given owner ↦
                let fields = present_fields (
                  cell row "description"
                  ∷ cell row "cause"
                  ∷ cell row "potential_effect"
                  ∷ cell row "probability"
                  ∷ cell row "impact"
                  ∷ cell row "response"
                  ∷ ("owner_person_id", ref_json owner)
                  ∷ cell row "status"
                  ∷ cell row "review_date"
                  ∷ cell row "external_id"
                  ∷ []) in
                elim matched [
                  | none ↦ elim (resolve_project_reference read_uuid row lookup) [
                    | refused error ↦ no_outcome none identity error []
                    | found project ↦
                        create_outcome (λ p. (project, p)) identity (create_model.validate fields)
                  ]
                  | some existing ↦
                      update_outcome (λ p. (existing.project_id, p)) existing.id identity
                        (λ p. is_unchanged update_model [] p (current_risk existing))
                        (update_model.validate fields)
                ]
          ]

  unfoldable pub current_stakeholder : StakeholderFact → U
  current_stakeholder f = update_model.construct (
      ("name", Json.text f.name)
      ∷ ("person_id", ref_or_null f.person_id)
      ∷ ("role", Json.text f.role)
      ∷ ("influence", Json.text f.influence)
      ∷ ("interest", Json.text f.interest)
      ∷ ("decision_authority", Json.text f.decision_authority)
      ∷ ("communication_needs", or_null f.communication_needs)
      ∷ [])

  abbrev pub stakeholder_identity : Row → Option Uuid → Option String
  stakeholder_identity row none = none
  stakeholder_identity row (some _) = some (
      reference_display row "project_id" "project_external_id"
      ++ ("," ++ reference_display row "person_id" "person_email"))

  -- The payloads carry the project (`StakeholderPayload`). A row without a person has no identity.
  unfoldable pub normalize_stakeholder_row :
      Row
      → ReferenceLookup
      → (Uuid → Uuid → Option StakeholderFact)
      → Outcome (Payload (Uuid × C) (Uuid × U))
  normalize_stakeholder_row row lookup existing_by_pair =
      elim (resolve_project_reference read_uuid row lookup) [
        | refused error ↦ no_outcome none none error []
        | found project ↦
            elim (optional_of
              (resolve_optional_person_reference read_uuid row lookup "person_id" "person_email")) [
                | failed error ↦ no_outcome none none error []
                | given person ↦
                    let identity = stakeholder_identity row person in
                    let fields = present_fields (
                      cell row "name"
                      ∷ ("person_id", ref_json person)
                      ∷ cell row "role"
                      ∷ cell row "influence"
                      ∷ cell row "interest"
                      ∷ cell row "decision_authority"
                      ∷ cell row "communication_needs"
                      ∷ []) in
                    elim (match_pair existing_by_pair project person) [
                      | none ↦
                          create_outcome (λ p. (project, p)) identity (create_model.validate fields)
                      | some existing ↦
                          update_outcome (λ p. (project, p)) existing.id identity
                            (λ p. is_unchanged update_model [] p (current_stakeholder existing))
                            (update_model.validate fields)
                    ]
              ]
      ]

-- ProjectDependencyCreate, with the project that `ProjectDependencyPayload` carries.
pub record DependencyPayload : Type 0 where
  pub from_project_id : Uuid
  pub to_project_id : Uuid
  pub dependency_type : ProjectDependencyType

abbrev pub type_text : ProjectDependencyType → String
type_text blocks = "blocks"
type_text related = "related"
type_text enables = "enables"

abbrev pub self_dependency : FieldError
self_dependency = record { field = none; code = domain_rule_violated }

-- `read_type` is what ProjectDependencyCreate makes of the type's cell; the other field is the id
-- that was found. `(from_ref, to_ref, type) in existing` is the test `exists`. There is no update.
unfoldable pub normalize_project_dependency_row :
    (Option String → Validated ProjectDependencyType)
    → (String → Option Uuid)
    → Row
    → ReferenceLookup
    → (Uuid → Uuid → ProjectDependencyType → Bool)
    → Outcome (Payload DependencyPayload (Unit {0}))
normalize_project_dependency_row read_type read_uuid row lookup exists =
    elim (resolve_named_project_reference read_uuid row lookup "from_project_id"
      "from_project_external_id") [
        | refused error ↦ no_outcome none none error []
        | found from ↦
            elim (resolve_named_project_reference read_uuid row lookup "to_project_id"
              "to_project_external_id") [
                | refused error ↦ no_outcome none none error []
                | found to ↦
                    let prefix =
                      reference_display row "from_project_id" "from_project_external_id"
                      ++ ("," ++ reference_display row "to_project_id" "to_project_external_id") in
                    elim (read_type (coerce_optional_str (row "dependency_type"))) [
                      | invalid d ds ↦
                          no_outcome none (some prefix) (error_of d) (validation_errors ds)
                      | valid type ↦
                          let identity : Option String = some (prefix ++ ("," ++ type_text type)) in
                          elim (from == to) [
                            | true ↦ no_outcome none identity self_dependency []
                            | false ↦ elim (exists from to type) [
                              | true ↦ unchanged_outcome identity
                              | false ↦ record {
                                action = some Action.create;
                                payload = some (
                                    for_create (record {
                                      from_project_id = from;
                                      to_project_id = to;
                                      dependency_type = type;
                                    }));
                                matched_id = none;
                                identity = identity;
                                errors = [];
                              }
                            ]
                          ]
                    ]
              ]
      ]
