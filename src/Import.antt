-- ===== src/Import.antt =====
-- Import of files: the tables of apps/api/app/domain/import_export_parsing.py, with the types that
-- the normalization (import_export_diff.py) and the import service (services/import_service.py)
-- share. A file's bytes are decoded and split by Python's csv and json modules, so a row is what
-- `row.get` gives for a column's name. Dates, decimals and enum members are passed on and compared
-- by the text that their JSON form has: they are that text. Messages are left out.
pub mod Cells
pub mod References
pub mod Outcomes
pub mod Lookups
pub mod Fields
pub mod Directory
pub mod Planning
pub mod Decisions
pub mod Packed
pub mod Batch
pub mod Classified
mod Tests
use Prim.Native.String.{String}
use capacityos.Base.{ℕ, Bool, true, false, Option, List, [], ◌∷◌}
use capacityos.Capacity.{Uuid}

pub data ImportEntityType : Type 0 where
  person team team_membership project allocation working_schedule : ImportEntityType
  availability_exception skill person_skill project_skill_requirement risk : ImportEntityType
  stakeholder project_priority_score project_dependency : ImportEntityType

pub data ImportMode : Type 0 where
  upsert create_only update_only : ImportMode

pub data ExportFormat : Type 0 where
  csv json : ExportFormat

pub data ImportErrorCode : Type 0 where
  file_unreadable unsupported_format file_too_large row_limit_exceeded : ImportErrorCode
  duplicate_header missing_required_column field_required field_type_invalid : ImportErrorCode
  field_constraint_violated invalid_reference domain_rule_violated : ImportErrorCode
  duplicate_in_file conflict no_match_for_update_only : ImportErrorCode

-- ImportFieldError
pub record FieldError : Type 0 where
  pub field : Option String
  pub code : ImportErrorCode

-- A value of the dictionaries that the schemas are made from and dumped to.
pub data Json : Type 0 where
  null : Json
  text : String → Json
  flag : Bool → Json
  ref : Uuid → Json
  entries : List (ℕ × String) → Json
  pairs : List (String × String) → Json

-- A cell of a row: nothing (a missing key, or null), a text, or another JSON value, of which the
-- code reads `str(raw)` and, if it is a list, the items. An item is given by its printed fields.
pub data Cell : Type 0 where
  blank : Cell
  written : String → Cell
  other : String → Cell
  listed : String → List (List (String × String)) → Cell

abbrev pub Row : Type 0
Row = String → Cell

pub record ColumnSpec : Type 0 where
  pub name : String
  pub required : Bool

abbrev pub optional : String → ColumnSpec
optional name = record { name = name; required = false }

abbrev pub required_column : String → ColumnSpec
required_column name = record { name = name; required = true }

-- ENTITY_COLUMNS
unfoldable pub entity_columns : ImportEntityType → List ColumnSpec
entity_columns ImportEntityType.person =
    optional "id"
    ∷ required_column "email"
    ∷ required_column "first_name"
    ∷ required_column "last_name"
    ∷ optional "display_name"
    ∷ optional "job_title"
    ∷ optional "timezone"
    ∷ optional "employment_status"
    ∷ optional "created_at"
    ∷ optional "updated_at"
    ∷ []
entity_columns ImportEntityType.team =
    optional "id"
    ∷ required_column "name"
    ∷ optional "description"
    ∷ optional "created_at"
    ∷ optional "updated_at"
    ∷ []
entity_columns ImportEntityType.team_membership =
    optional "id"
    ∷ optional "person_id"
    ∷ optional "person_email"
    ∷ optional "team_id"
    ∷ optional "team_name"
    ∷ optional "created_at"
    ∷ []
entity_columns ImportEntityType.project =
    optional "id"
    ∷ optional "external_id"
    ∷ required_column "name"
    ∷ optional "description"
    ∷ optional "status"
    ∷ optional "start_date"
    ∷ optional "end_date"
    ∷ optional "created_at"
    ∷ optional "updated_at"
    ∷ []
entity_columns ImportEntityType.allocation =
    optional "id"
    ∷ optional "external_id"
    ∷ optional "person_id"
    ∷ optional "person_email"
    ∷ optional "project_id"
    ∷ optional "project_external_id"
    ∷ required_column "start_date"
    ∷ required_column "end_date"
    ∷ required_column "allocation_hours"
    ∷ optional "allocation_unit"
    ∷ optional "notes"
    ∷ optional "created_at"
    ∷ optional "updated_at"
    ∷ []
entity_columns ImportEntityType.working_schedule =
    optional "id"
    ∷ optional "external_id"
    ∷ optional "person_id"
    ∷ optional "person_email"
    ∷ optional "effective_start_date"
    ∷ optional "effective_end_date"
    ∷ required_column "entries"
    ∷ optional "created_at"
    ∷ optional "updated_at"
    ∷ []
entity_columns ImportEntityType.availability_exception =
    optional "id"
    ∷ optional "external_id"
    ∷ optional "person_id"
    ∷ optional "person_email"
    ∷ required_column "start_date"
    ∷ required_column "end_date"
    ∷ required_column "availability_type"
    ∷ optional "hours"
    ∷ optional "notes"
    ∷ optional "created_at"
    ∷ optional "updated_at"
    ∷ []
entity_columns ImportEntityType.skill =
    optional "id"
    ∷ required_column "name"
    ∷ optional "description"
    ∷ optional "category"
    ∷ optional "is_active"
    ∷ optional "created_at"
    ∷ optional "updated_at"
    ∷ []
entity_columns ImportEntityType.person_skill =
    optional "id"
    ∷ optional "person_id"
    ∷ optional "person_email"
    ∷ optional "skill_id"
    ∷ optional "skill_name"
    ∷ required_column "proficiency"
    ∷ optional "notes"
    ∷ optional "created_at"
    ∷ optional "updated_at"
    ∷ []
entity_columns ImportEntityType.project_skill_requirement =
    optional "id"
    ∷ optional "project_id"
    ∷ optional "project_external_id"
    ∷ optional "skill_id"
    ∷ optional "skill_name"
    ∷ required_column "required_hours"
    ∷ optional "minimum_proficiency"
    ∷ optional "notes"
    ∷ optional "created_at"
    ∷ optional "updated_at"
    ∷ []
entity_columns ImportEntityType.risk =
    optional "id"
    ∷ optional "external_id"
    ∷ optional "project_id"
    ∷ optional "project_external_id"
    ∷ required_column "description"
    ∷ optional "cause"
    ∷ optional "potential_effect"
    ∷ optional "probability"
    ∷ optional "impact"
    ∷ optional "response"
    ∷ optional "owner_person_id"
    ∷ optional "owner_person_email"
    ∷ optional "status"
    ∷ optional "review_date"
    ∷ optional "created_at"
    ∷ optional "updated_at"
    ∷ []
entity_columns ImportEntityType.stakeholder =
    optional "id"
    ∷ optional "project_id"
    ∷ optional "project_external_id"
    ∷ required_column "name"
    ∷ optional "person_id"
    ∷ optional "person_email"
    ∷ required_column "role"
    ∷ optional "influence"
    ∷ optional "interest"
    ∷ optional "decision_authority"
    ∷ optional "communication_needs"
    ∷ optional "created_at"
    ∷ optional "updated_at"
    ∷ []
entity_columns ImportEntityType.project_priority_score =
    optional "id"
    ∷ optional "project_id"
    ∷ optional "project_external_id"
    ∷ optional "framework_id"
    ∷ optional "framework_name"
    ∷ optional "category"
    ∷ optional "values"
    ∷ optional "notes"
    ∷ optional "created_at"
    ∷ optional "updated_at"
    ∷ []
entity_columns ImportEntityType.project_dependency =
    optional "id"
    ∷ optional "from_project_id"
    ∷ optional "from_project_external_id"
    ∷ optional "to_project_id"
    ∷ optional "to_project_external_id"
    ∷ required_column "dependency_type"
    ∷ optional "created_at"
    ∷ []

-- _TEMPLATE_EXAMPLES
unfoldable pub template_example : ImportEntityType → List (String × String)
template_example ImportEntityType.person =
    ("email", "jane.doe@example.com")
    ∷ ("first_name", "Jane")
    ∷ ("last_name", "Doe")
    ∷ ("display_name", "Jane Doe")
    ∷ ("job_title", "Product Designer")
    ∷ ("timezone", "UTC")
    ∷ ("employment_status", "active")
    ∷ []
template_example ImportEntityType.team =
    ("name", "Design") ∷ ("description", "Product design team") ∷ []
template_example ImportEntityType.team_membership =
    ("person_email", "jane.doe@example.com") ∷ ("team_name", "Design") ∷ []
template_example ImportEntityType.project =
    ("external_id", "PRJ-100")
    ∷ ("name", "Website Redesign")
    ∷ ("description", "Q4 marketing site refresh")
    ∷ ("status", "active")
    ∷ ("start_date", "2026-09-01")
    ∷ ("end_date", "2026-12-19")
    ∷ []
template_example ImportEntityType.allocation =
    ("external_id", "ALLOC-100")
    ∷ ("person_email", "jane.doe@example.com")
    ∷ ("project_external_id", "PRJ-100")
    ∷ ("start_date", "2026-09-01")
    ∷ ("end_date", "2026-09-30")
    ∷ ("allocation_hours", "40")
    ∷ ("allocation_unit", "total_hours")
    ∷ ("notes", "Design phase")
    ∷ []
template_example ImportEntityType.working_schedule =
    ("external_id", "WS-100")
    ∷ ("person_email", "jane.doe@example.com")
    ∷ ("effective_start_date", "2026-09-01")
    ∷ ("entries", "0:8.00,1:8.00,2:8.00,3:8.00,4:8.00")
    ∷ []
template_example ImportEntityType.availability_exception =
    ("external_id", "AVAIL-100")
    ∷ ("person_email", "jane.doe@example.com")
    ∷ ("start_date", "2026-09-14")
    ∷ ("end_date", "2026-09-18")
    ∷ ("availability_type", "annual_leave")
    ∷ ("notes", "Summer holiday")
    ∷ []
template_example ImportEntityType.skill =
    ("name", "Backend Development")
    ∷ ("description", "Server-side application development")
    ∷ ("category", "Engineering")
    ∷ ("is_active", "true")
    ∷ []
template_example ImportEntityType.person_skill =
    ("person_email", "jane.doe@example.com")
    ∷ ("skill_name", "Backend Development")
    ∷ ("proficiency", "proficient")
    ∷ ("notes", "3 years on the payments platform")
    ∷ []
template_example ImportEntityType.project_skill_requirement =
    ("project_external_id", "PRJ-100")
    ∷ ("skill_name", "Backend Development")
    ∷ ("required_hours", "80")
    ∷ ("minimum_proficiency", "working")
    ∷ []
template_example ImportEntityType.risk =
    ("external_id", "RISK-100")
    ∷ ("project_external_id", "PRJ-100")
    ∷ ("description", "Key vendor may miss the delivery deadline")
    ∷ ("probability", "medium")
    ∷ ("impact", "high")
    ∷ ("status", "open")
    ∷ []
template_example ImportEntityType.stakeholder =
    ("project_external_id", "PRJ-100")
    ∷ ("name", "Jordan Client")
    ∷ ("role", "Sponsor")
    ∷ ("influence", "high")
    ∷ ("interest", "medium")
    ∷ ("decision_authority", "decision_maker")
    ∷ []
template_example ImportEntityType.project_priority_score =
    ("project_external_id", "PRJ-100")
    ∷ ("framework_name", "RICE")
    ∷ ("values", "reach:8000,impact:2,confidence:80,effort:5")
    ∷ []
template_example ImportEntityType.project_dependency =
    ("from_project_external_id", "PRJ-100")
    ∷ ("to_project_external_id", "PRJ-200")
    ∷ ("dependency_type", "blocks")
    ∷ []
