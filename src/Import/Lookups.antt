-- ===== src/Import/Lookups.antt =====
-- The lookups of a file: `_collect`, `_collect_uuids`, the `_…_lookup_maps` and `_build_lookup` of
-- apps/api/app/services/import_service.py. A set is a list, whose order and repetitions no query
-- reads; a dict is a list of its items; and a repository's rows are those of the organization.
pub mod Consistent
use Prim.Native.String.{String}
use text.Mathlib.Text.{◌==◌ as str_eq}
use capacityos.Base.{
  ℕ, Bool, true, false, ◌||◌, Option, none, some, List, [], ◌∷◌, ◌++◌, keep, any, ◌==◌,
  if◌then◌else◌,
}
use capacityos.Capacity.{Uuid}
use capacityos.Import.{Row}
use capacityos.Import.Cells.{coerce_optional_str}
use capacityos.Import.References.{
  PersonFact, TeamFact, ProjectFact, SkillFact, FrameworkFact, ReferenceLookup,
}

abbrev pub add_present : {A : Type 0} → Option A → List A → List A
add_present none values = values
add_present (some value) values = value ∷ values

-- `_collect`
unfoldable pub collect : List Row → String → List String
collect [] column = []
collect (row ∷ rows) column = add_present (coerce_optional_str (row column)) (collect rows column)

abbrev pub read_present : (String → Option Uuid) → Option String → Option Uuid
read_present read_uuid none = none
read_present read_uuid (some raw) = read_uuid raw

-- `_collect_uuids`: a text that is no uuid is left out.
unfoldable pub collect_uuids : (String → Option Uuid) → List Row → String → List Uuid
collect_uuids read_uuid [] column = []
collect_uuids read_uuid (row ∷ rows) column =
    add_present (read_present read_uuid (coerce_optional_str (row column)))
      (collect_uuids read_uuid rows column)

abbrev pub has_key : Option String → String → Bool
has_key none key = false
has_key (some k) key = str_eq k key

module _ {F : Type 0} where
  -- `d[i] = fact`: a key that the dict has keeps its place.
  abbrev pub put : Uuid → F → List (Uuid × F) → List (Uuid × F)
  put i fact [] = (i, fact) ∷ []
  put i fact ((j, old) ∷ d) = if j == i then (i, fact) ∷ d else (j, old) ∷ put i fact d

  -- `d.get(i)`
  abbrev pub get : List (Uuid × F) → Uuid → Option F
  get [] i = none
  get ((j, fact) ∷ d) i = if j == i then some fact else get d i

  abbrev pub put_all : (F → Uuid) → List F → List (Uuid × F) → List (Uuid × F)
  put_all id_of [] d = d
  put_all id_of (fact ∷ facts) d = put_all id_of facts (put (id_of fact) fact d)

  -- `{fact.key: fact for fact in d.values()}.get(key)`: the last fact that has the key.
  abbrev pub get_by_key : (F → Option String) → List (Uuid × F) → String → Option F
  get_by_key key_of [] key = none
  get_by_key key_of ((j, fact) ∷ d) key = elim (get_by_key key_of d key) [
    | some later ↦ some later
    | none ↦ if has_key (key_of fact) key then some fact else none
  ]

  -- The rows of a table by their ids and by their natural keys, in one dict.
  unfoldable pub lookup_map :
      (F → Uuid) → (F → Option String) → List F → List Uuid → List String → List (Uuid × F)
  lookup_map id_of key_of table ids keys =
      put_all id_of (keep (λ f. any (λ k. has_key (key_of f) k) keys) table)
        (put_all id_of (keep (λ f. any (λ i. i == id_of f) ids) table) [])

-- The rows of the organization.
pub record Catalog : Type 0 where
  pub people : List PersonFact
  pub teams : List TeamFact
  pub projects : List ProjectFact
  pub skills : List SkillFact
  pub frameworks : List FrameworkFact

pub record Needs : Type 0 where
  pub people : Bool
  pub teams : Bool
  pub projects : Bool
  pub skills : Bool
  pub frameworks : Bool

module _ (read_uuid : String → Option Uuid) (rows : List Row) where
  unfoldable pub person_lookup_map : List PersonFact → List (Uuid × PersonFact)
  unfolding lookup_map
  person_lookup_map table =
      lookup_map (λ f. f.id) (λ f. some f.email) table
        (collect_uuids read_uuid rows "person_id" ++ collect_uuids read_uuid rows "owner_person_id")
        (collect rows "person_email" ++ collect rows "owner_person_email")

  unfoldable pub team_lookup_map : List TeamFact → List (Uuid × TeamFact)
  unfolding lookup_map
  team_lookup_map table =
      lookup_map (λ f. f.id) (λ f. some f.name) table (collect_uuids read_uuid rows "team_id")
        (collect rows "team_name")

  unfoldable pub project_lookup_map : List ProjectFact → List (Uuid × ProjectFact)
  unfolding lookup_map
  project_lookup_map table =
      lookup_map (λ f. f.id) (λ f. f.external_id) table
        (collect_uuids read_uuid rows "project_id"
          ++ (collect_uuids read_uuid rows "from_project_id"
              ++ collect_uuids read_uuid rows "to_project_id"))
        (collect rows "project_external_id"
          ++ (collect rows "from_project_external_id" ++ collect rows "to_project_external_id"))

  unfoldable pub skill_lookup_map : List SkillFact → List (Uuid × SkillFact)
  unfolding lookup_map
  skill_lookup_map table =
      lookup_map (λ f. f.id) (λ f. some f.name) table (collect_uuids read_uuid rows "skill_id")
        (collect rows "skill_name")

  unfoldable pub framework_lookup_map : List FrameworkFact → List (Uuid × FrameworkFact)
  unfolding lookup_map
  framework_lookup_map table =
      lookup_map (λ f. f.id) (λ f. some f.name) table (collect_uuids read_uuid rows "framework_id")
        (collect rows "framework_name")

  -- `_build_lookup`; a mapping that is not needed is empty.
  unfoldable pub build_lookup : Catalog → Needs → ReferenceLookup
  unfolding framework_lookup_map
  build_lookup catalog needs =
      let people = if needs.people then person_lookup_map catalog.people else [] in
      let teams = if needs.teams then team_lookup_map catalog.teams else [] in
      let projects = if needs.projects then project_lookup_map catalog.projects else [] in
      let skills = if needs.skills then skill_lookup_map catalog.skills else [] in
      let frameworks = if needs.frameworks then framework_lookup_map catalog.frameworks else [] in
      record {
        people_by_id = get people;
        people_by_email = get_by_key (λ f. some f.email) people;
        teams_by_id = get teams;
        teams_by_name = get_by_key (λ f. some f.name) teams;
        projects_by_id = get projects;
        projects_by_external_id = get_by_key (λ f. f.external_id) projects;
        skills_by_id = get skills;
        skills_by_name = get_by_key (λ f. some f.name) skills;
        frameworks_by_id = get frameworks;
        frameworks_by_name = get_by_key (λ f. some f.name) frameworks;
      }
