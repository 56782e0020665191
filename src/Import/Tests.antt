-- ===== src/Import/Tests.antt =====
-- Tests of the import, and the theorems on it at concrete inputs.
use Prim.Native.String.{String}
use text.Mathlib.Text.{◌==◌ as str_eq}
use capacityos.Base.{
  ℕ, ◌≡◌, refl, false, true, Option, none, some, List, [], ◌∷◌, ◌++◌, ◌++◌ as append, arith, All,
  if◌then◌else◌, find, map,
}
use capacityos.Base.Errors.{ok}
use capacityos.Capacity.{Uuid}
use capacityos.Import.{Row, blank, written, Json, upsert, create_only, update_only}
use capacityos.Import.Cells.{
  coerce_optional_str, coerce_entries_cell, coerce_criterion_values_cell, sanitize_csv_cell,
  strip_right,
}
use capacityos.Import.Cells.RoundTrip.{IsPlainPair, print_pairs, coerce-print_pairs}
use capacityos.Import.References.{ReferenceLookup, TeamFact, resolve}
use capacityos.Import.References.Resolved.{Names, resolve-found, IsConsistent}
use capacityos.Import.Outcomes.{
  Model, valid, Payload, for_create, for_update, Outcome, Action, apply_mode_policy, is_unchanged,
  present_fields,
}
use capacityos.Import.Fields.{cell}
use capacityos.Import.Directory.{normalize_team_row, current_team}
use capacityos.Import.Classified.{normalize_team_row-IsClassified}
use capacityos.Import.Lookups.{Catalog, Needs, build_lookup}
use capacityos.Import.Classified.Rows.{AllClassified, normalize_rows-IsClassified}
use capacityos.Import.Batch.{
  PreparedRow, Prepared, prepare_rows, flag_duplicates, Writer, write_row, to_validation_report,
  apply_import,
}
use capacityos.Import.Batch.Identities.{IsDistinct, flag_duplicates-IsDistinct}
use capacityos.Import.Batch.Policy.{Writes, prepared_rows-Writes, apply_mode_policy-write_row}
use capacityos.Import.Batch.Edges.{
  DependencyOutcome, added_edges, check_dependencies, check_dependencies-IsAcyclic,
}
use capacityos.Import.Batch.Overlaps.{Range, ScheduleOutcome, check_schedules}
use capacityos.Import.Batch.Overlaps.Separate.{
  IsSeparate, written_ranges, check_schedules-IsSeparate,
}
use capacityos.Dependencies.{blocks}
use capacityos.Prioritization.{Edge}
use capacityos.Prioritization.Cycles.Walks.{IsAcyclic}

-- The cell of `name` and that of `description`.
abbrev team_row : String → String → Row
team_row name description column =
    if str_eq column "name"
    then written name
    else if str_eq column "description"
    then written description
    else blank

spaces_run : coerce_optional_str (written "  Design ") ≡ some "Design"
unfolding coerce_optional_str
spaces_run = refl

blank_run : coerce_optional_str (written " ") ≡ none
unfolding coerce_optional_str
blank_run = refl

entries_run : coerce_entries_cell "0:8.00, 1 : 7.50,," ≡ ok (("0", "8.00") ∷ ("1", "7.50") ∷ [])
unfolding coerce_entries_cell
entries_run = refl

sanitize_run : sanitize_csv_cell "=1+1" ≡ "'=1+1"
unfolding sanitize_csv_cell
sanitize_run = refl

reach_cell : IsPlainPair ("reach", "8000")
unfolding strip_right
reach_cell = ground arith

impact_cell : IsPlainPair ("impact", "2")
unfolding strip_right
impact_cell = ground arith

coerce-print_pairs_example :
    (coerce_criterion_values_cell "reach:8000,impact:2"
      ≡ ok (("reach", "8000") ∷ ("impact", "2") ∷ []))
    × (coerce_entries_cell "reach:8000,impact:2" ≡ ok (("reach", "8000") ∷ ("impact", "2") ∷ []))
unfolding print_pairs
coerce-print_pairs_example =
    coerce-print_pairs ("reach", "8000") (("impact", "2") ∷ []) (reach_cell, (impact_cell, tt))

abbrev design : TeamFact
design = record { id = 4; name = "Design"; description = none }

abbrev team_by_name : String → Option TeamFact
team_by_name n = if str_eq n "Design" then some design else none

-- A team's row that names it by `team_name`.
abbrev named_row : Row
named_row column = if str_eq column "team_name" then written "Design" else blank

resolve-found_example :
    Names
      (λ (t : TeamFact). t.id)
      (λ _. none)
      (λ _. none)
      team_by_name
      "team_id"
      "team_name"
      named_row
      4
unfolding resolve coerce_optional_str
resolve-found_example =
    resolve-found (λ (t : TeamFact). t.id) (λ _. none) (λ _. none) team_by_name "team_id"
      "team_name" named_row 4 refl

abbrev empty_lookup : ReferenceLookup
empty_lookup = record {
  people_by_id = λ _. none;
  people_by_email = λ _. none;
  teams_by_id = λ _. none;
  teams_by_name = team_by_name;
  projects_by_id = λ _. none;
  projects_by_external_id = λ _. none;
  skills_by_id = λ _. none;
  skills_by_name = λ _. none;
  frameworks_by_id = λ _. none;
  frameworks_by_name = λ _. none;
}

empty_lookup-IsConsistent : IsConsistent empty_lookup
empty_lookup-IsConsistent = record { keyed = λ i f h. cc; named = λ n f h. cc }

-- A schema that keeps the fields, and accepts all.
abbrev lax : Model (List (String × Json))
lax = record {
  validate = λ fields. valid fields;
  construct = λ fields. fields;
  dump = λ fields k. elim (find (λ f. str_eq f.0 k) fields) [ none ↦ Json.null | some f ↦ f.1 ];
  fields_set = λ fields. map (λ f. f.0) fields;
}

abbrev team_outcome : Row → Outcome (Payload (List (String × Json)) (List (String × Json)))
team_outcome row = normalize_team_row lax lax row empty_lookup

abbrev fields_of : String → String → List (String × Json)
fields_of name description = ("name", Json.text name) ∷ ("description", Json.text description) ∷ []

update_run : team_outcome (team_row "Design" "Products") ≡ record {
  action = some Action.update;
  payload = some (for_update (fields_of "Design" "Products"));
  matched_id = some 4;
  identity = some "name=Design";
  errors = [];
}
unfolding normalize_team_row coerce_optional_str is_unchanged present_fields cell current_team
update_run = refl

-- Two rows of one team: the second is a duplicate.
abbrev doubled : List (PreparedRow (Payload (List (String × Json)) (List (String × Json))))
doubled = flag_duplicates [] (
    prepare_rows team_outcome upsert 1
      (team_row "Design" "Products" ∷ team_row " Design" "Brand" ∷ []))

flag_duplicates-IsDistinct_example : IsDistinct doubled
flag_duplicates-IsDistinct_example = flag_duplicates-IsDistinct [] (
    prepare_rows team_outcome upsert 1
      (team_row "Design" "Products" ∷ team_row " Design" "Brand" ∷ []))

-- Services that log what they are called with.
abbrev logging : Writer (List (String × Json)) (List (String × Json)) (List ℕ)
logging = record {
  create_record = λ fields s. ok (0 ∷ s);
  update_record = λ i fields s. ok (i ∷ s);
}

prepared_rows-Writes_example : All (λ p. (s : List ℕ) → Writes logging p.outcome s) doubled
prepared_rows-Writes_example =
    prepared_rows-Writes logging team_outcome upsert
      (team_row "Design" "Products" ∷ team_row " Design" "Brand" ∷ [])
      (λ row. normalize_team_row-IsClassified lax lax row empty_lookup)

-- An outcome that updates record 4.
abbrev updating : Outcome (Payload (List (String × Json)) (List (String × Json)))
updating = record {
  action = some Action.update;
  payload = some (for_update (fields_of "Design" "Products"));
  matched_id = some 4;
  identity = some "name=Design";
  errors = [];
}

-- The same creations, and no updates.
abbrev create_logging : Writer (List (String × Json)) (List (String × Json)) (List ℕ)
create_logging = record logging { update_record = λ i fields s. ok s }

-- In `create_only` mode the row that would update is refused, so nothing is updated.
abbrev SameWrites : Type 0
SameWrites =
    (((c : List (String × Json)) (t : List ℕ)
        → logging.create_record c t ≡ create_logging.create_record c t)
      → write_row logging (apply_mode_policy updating create_only) []
        ≡ write_row create_logging (apply_mode_policy updating create_only) [])
    × (((i : Uuid) (u : List (String × Json)) (t : List ℕ)
          → logging.update_record i u t ≡ create_logging.update_record i u t)
        → write_row logging (apply_mode_policy updating update_only) []
          ≡ write_row create_logging (apply_mode_policy updating update_only) [])

apply_mode_policy-write_row_example : SameWrites
apply_mode_policy-write_row_example =
    apply_mode_policy-write_row logging create_logging updating [] refl

-- A file with one row that updates.
abbrev one_update : Prepared (Payload (List (String × Json)) (List (String × Json)))
one_update = record { file_error = none; rows = record { row_number = 1; outcome = updating } ∷ [] }

apply_run : apply_import logging one_update [] ≡ ok (4 ∷ [], to_validation_report one_update)
unfolding apply_import to_validation_report
apply_run = refl

-- An organization with one team, which the row of a file names.
abbrev one_team : Catalog
one_team = record {
  people = [];
  teams = record { id = 4; name = "Design"; description = none } ∷ [];
  projects = [];
  skills = [];
  frameworks = [];
}

abbrev teams_needed : Needs
teams_needed = record {
  people = false;
  teams = true;
  projects = false;
  skills = false;
  frameworks = false;
}

abbrev own_team : ReferenceLookup
own_team = record empty_lookup {
  teams_by_name = λ name.
      if str_eq name "Design"
      then some (record { id = 4; name = "Design"; description = none })
      else none;
}

normalize_rows-IsClassified_example :
    AllClassified lax lax
      (λ _. none)
      (team_row "Design" "Products")
      (build_lookup (λ _. none) (team_row "Design" "Products" ∷ []) one_team teams_needed)
      own_team
      (λ _. none)
      (λ _. none)
      (λ _. none)
      (λ _. none)
      (λ _. none)
      (λ _. none)
      (λ _ _. none)
      (λ _ _. none)
      (λ _ _. none)
      (λ _ _. none)
      (λ _ _. false)
      (λ _ _ _. false)
      (λ _. valid (0, "8"))
      (λ _. valid ("reach", "8"))
      (λ _. valid blocks)
normalize_rows-IsClassified_example =
    normalize_rows-IsClassified lax lax (λ _. none) (team_row "Design" "Products" ∷ []) one_team
      teams_needed (team_row "Design" "Products") own_team (λ _. none) (λ _. none) (λ _. none)
      (λ _. none) (λ _. none) (λ _. none) (λ _ _. none) (λ _ _. none) (λ _ _. none) (λ _ _. none)
      (λ _ _. false) (λ _ _ _. false) (λ _. valid (0, "8")) (λ _. valid ("reach", "8"))
      (λ _. valid blocks)

-- A row that adds an edge.
abbrev adding : Uuid → Uuid → DependencyOutcome
adding from to = record {
  action = some Action.create;
  payload = some (
      for_create (record { from_project_id = from; to_project_id = to; dependency_type = blocks }));
  matched_id = none;
  identity = none;
  errors = [];
}

-- The second of these rows would close a cycle.
abbrev no_edges : List Edge
no_edges = []

abbrev back_and_forth : List DependencyOutcome
back_and_forth = adding 1 2 ∷ adding 2 1 ∷ []

no_edges-IsAcyclic : IsAcyclic no_edges
no_edges-IsAcyclic a b h = absurd h

check_dependencies-IsAcyclic_example :
    IsAcyclic (append no_edges (added_edges (check_dependencies back_and_forth no_edges).0))
check_dependencies-IsAcyclic_example =
    check_dependencies-IsAcyclic back_and_forth no_edges no_edges-IsAcyclic

abbrev scheduling : ℕ → ℕ → ScheduleOutcome
scheduling start end = record {
  action = some Action.create;
  payload = some (
      for_create (record {
        person_id = 3;
        effective_start_date = some start;
        effective_end_date = some end;
        entries = [];
        external_id = none;
      }));
  matched_id = none;
  identity = none;
  errors = [];
}

abbrev existing_range : List Range
existing_range = record { person_id = 3; id = 8; start = some 100; end = some 110 } ∷ []

check_schedules-IsSeparate_example : IsSeparate (
    existing_range
    ++ written_ranges
        (20 ∷ 21 ∷ [])
        (check_schedules
          ((20, scheduling 111 120) ∷ (21, scheduling 115 130) ∷ [])
          existing_range).0
        existing_range)
check_schedules-IsSeparate_example =
    check_schedules-IsSeparate ((20, scheduling 111 120) ∷ (21, scheduling 115 130) ∷ [])
      existing_range (tt, tt)
