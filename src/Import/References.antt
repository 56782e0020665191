-- ===== src/Import/References.antt =====
-- References of a row to other records: the facts, `ReferenceLookup` and the `resolve_…` functions
-- of apps/api/app/domain/import_export_diff.py. A mapping is a function; `read_uuid` is Python's
-- reading of a text as a UUID, which raises (`none`) or gives the id.
pub mod Resolved
use Prim.Native.String.{String, ◌++◌}
use capacityos.Base.{ℕ, Bool, Option, none, some, List}
use capacityos.Capacity.{Uuid}
use capacityos.Import.{FieldError, invalid_reference, Row}
use capacityos.Import.Cells.{coerce_optional_str}

pub record PersonFact : Type 0 where
  pub id : Uuid
  pub email : String
  pub first_name : String
  pub last_name : String
  pub display_name : String
  pub job_title : Option String
  pub timezone : String
  pub employment_status : String

pub record TeamFact : Type 0 where
  pub id : Uuid
  pub name : String
  pub description : Option String

pub record ProjectFact : Type 0 where
  pub id : Uuid
  pub external_id : Option String
  pub name : String
  pub description : Option String
  pub status : String
  pub start_date : Option String
  pub end_date : Option String

pub record SkillFact : Type 0 where
  pub id : Uuid
  pub name : String
  pub description : Option String
  pub category : Option String
  pub is_active : Bool

-- PrioritizationFrameworkFact
pub record FrameworkFact : Type 0 where
  pub id : Uuid
  pub name : String
  pub framework_type : String
  pub criterion_keys : List String

pub record ReferenceLookup : Type 0 where
  pub people_by_id : Uuid → Option PersonFact
  pub people_by_email : String → Option PersonFact
  pub teams_by_id : Uuid → Option TeamFact
  pub teams_by_name : String → Option TeamFact
  pub projects_by_id : Uuid → Option ProjectFact
  pub projects_by_external_id : String → Option ProjectFact
  pub skills_by_id : Uuid → Option SkillFact
  pub skills_by_name : String → Option SkillFact
  pub frameworks_by_id : Uuid → Option FrameworkFact
  pub frameworks_by_name : String → Option FrameworkFact

pub data Reference : Type 0 where
  refused : FieldError → Reference
  found : Uuid → Reference

abbrev pub invalid : Option String → Reference
invalid field = refused (record { field = field; code = invalid_reference })

module _ {F : Type 0} (id_of : F → Uuid) where
  -- `fact = mapping.get(key)`, an error on the field if there is none.
  abbrev pub id_or_refuse : String → Option F → Reference
  id_or_refuse field none = invalid (some field)
  id_or_refuse field (some fact) = found (id_of fact)

  -- `_parse_uuid` and the lookup by id.
  abbrev pub by_literal_id : String → (Uuid → Option F) → Option Uuid → Reference
  by_literal_id id_field by_id none = invalid (some id_field)
  by_literal_id id_field by_id (some i) = id_or_refuse id_field (by_id i)

module _ (read_uuid : String → Option Uuid) where
  module _ {F : Type 0} (id_of : F → Uuid) where
    -- The body that the functions share: the id's column, or else the natural key's.
    unfoldable pub resolve_optional :
        (Uuid → Option F) → (String → Option F) → String → String → Row → Option Reference
    resolve_optional by_id by_key id_field key_field row =
        elim (coerce_optional_str (row id_field)) [
          | some raw ↦ some (by_literal_id id_of id_field by_id (read_uuid raw))
          | none ↦ elim (coerce_optional_str (row key_field)) [
            | some key ↦ some (id_or_refuse id_of key_field (by_key key))
            | none ↦ none
          ]
        ]

    unfoldable pub resolve :
        (Uuid → Option F) → (String → Option F) → String → String → Row → Reference
    unfolding resolve_optional
    resolve by_id by_key id_field key_field row =
        elim (resolve_optional by_id by_key id_field key_field row) [
          | some reference ↦ reference
          | none ↦ invalid none
        ]

  module _ (row : Row) (lookup : ReferenceLookup) where
    unfoldable pub resolve_person_reference : Reference
    unfolding resolve
    resolve_person_reference =
        resolve (λ f. f.id) lookup.people_by_id lookup.people_by_email "person_id" "person_email"
          row

    unfoldable pub resolve_named_project_reference : String → String → Reference
    unfolding resolve
    resolve_named_project_reference id_field external_id_field =
        resolve (λ f. f.id) lookup.projects_by_id lookup.projects_by_external_id id_field
          external_id_field row

    unfoldable pub resolve_project_reference : Reference
    unfolding resolve
    resolve_project_reference =
        resolve (λ f. f.id) lookup.projects_by_id lookup.projects_by_external_id "project_id"
          "project_external_id" row

    unfoldable pub resolve_team_reference : Reference
    unfolding resolve
    resolve_team_reference =
        resolve (λ f. f.id) lookup.teams_by_id lookup.teams_by_name "team_id" "team_name" row

    unfoldable pub resolve_skill_reference : Reference
    unfolding resolve
    resolve_skill_reference =
        resolve (λ f. f.id) lookup.skills_by_id lookup.skills_by_name "skill_id" "skill_name" row

    unfoldable pub resolve_framework_reference : Reference
    unfolding resolve
    resolve_framework_reference =
        resolve (λ f. f.id) lookup.frameworks_by_id lookup.frameworks_by_name "framework_id"
          "framework_name" row

    -- `none` if both columns are blank.
    unfoldable pub resolve_optional_person_reference : String → String → Option Reference
    unfolding resolve_optional
    resolve_optional_person_reference id_field email_field =
        resolve_optional (λ f. f.id) lookup.people_by_id lookup.people_by_email id_field email_field
          row

-- `_reference_display`
unfoldable pub reference_display : Row → String → String → String
reference_display row id_field natural_field = elim (coerce_optional_str (row natural_field)) [
  | some natural ↦ natural_field ++ ("=" ++ natural)
  | none ↦
      id_field
      ++ ("=" ++ elim (coerce_optional_str (row id_field)) [ some raw ↦ raw | none ↦ "None" ])
]
