-- ===== src/Import/Packed.antt =====
-- Rows with a packed cell: `normalize_working_schedule_row` and
-- `normalize_project_priority_score_row` of apps/api/app/domain/import_export_diff.py.
use Prim.Native.String.{String, ◌++◌, compare}
use text.Mathlib.Text.{◌==◌ as str_eq, is_le}
use capacityos.Base.{
  ℕ, Bool, true, false, ◌&&◌, ◌||◌, not, Option, none, some, List, [], ◌∷◌, ◌++◌ as append, map,
  any, ltb, ◌==◌, if◌then◌else◌,
}
use capacityos.Base.Sort.{sorted}
use capacityos.Base.Errors.{Result, ok, err}
use capacityos.Capacity.{Uuid}
use capacityos.Import.{
  Row, Cell, written, listed, Json, FieldError, ImportErrorCode, field_type_invalid, field_required,
  domain_rule_violated,
}
use capacityos.Import.Cells.{
  coerce_optional_str, coerce_entries_cell, coerce_criterion_values_cell, strip, is_empty,
}
use capacityos.Import.References.{
  ReferenceLookup, refused, found, resolve_person_reference, resolve_project_reference,
  resolve_framework_reference, reference_display,
}
use capacityos.Import.Outcomes.{
  Detail, Model, Validated, valid, invalid, Payload, Outcome, present_fields, is_unchanged,
  no_outcome, create_outcome, update_outcome, validation_errors, error_of,
}
use capacityos.Import.Fields.{cells, or_null, match_by, identity_by}
use capacityos.Import.Decisions.{id_of_match}

-- `[XInput.model_validate(item) for item in items]`
abbrev pub and_then : {E : Type 0} → Validated E → Validated (List E) → Validated (List E)
and_then (invalid d ds) rest = invalid d ds
and_then (valid e) (invalid d ds) = invalid d ds
and_then (valid e) (valid es) = valid (e ∷ es)

unfoldable pub validate_all :
    {E : Type 0}
    → (List (String × String) → Validated E)
    → List (List (String × String))
    → Validated (List E)
validate_all validate [] = valid []
validate_all validate (item ∷ items) = and_then (validate item) (validate_all validate items)

-- What the `try` block leaves: the items, if there are any, a ValidationError or a ValueError.
pub data Parsed (E : Type 0) : Type 0 where
  no_items : Parsed E
  items : List E → Parsed E
  not_valid : Detail → List Detail → Parsed E
  no_value : Parsed E

abbrev pub parsed_of : {E : Type 0} → Validated (List E) → Parsed E
parsed_of (invalid d ds) = not_valid d ds
parsed_of (valid es) = items es

-- The dictionaries `{"weekday": ..., "hours": ...}`.
abbrev pub dictionaries : String → String → List (String × String) → List (List (String × String))
dictionaries k v entries = map (λ e. (k, e.0) ∷ (v, e.1) ∷ []) entries

unfoldable pub parse_packed :
    {E : Type 0}
    → (List (String × String) → Validated E)
    → (String → Result (List (String × String)))
    → String
    → String
    → Cell
    → Parsed E
unfolding validate_all strip
parse_packed validate coerce k v (listed printed raw) = parsed_of (validate_all validate raw)
parse_packed validate coerce k v (written raw) =
    if is_empty (strip raw) then no_items else elim (coerce raw) [
      | err e ↦ no_value
      | ok entries ↦ parsed_of (validate_all validate (dictionaries k v entries))
    ]
parse_packed validate coerce k v _ = no_items

pub record WorkingScheduleFact : Type 0 where
  pub id : Uuid
  pub external_id : Option String
  pub person_id : Uuid
  pub effective_start_date : Option String
  pub effective_end_date : Option String
  pub entries : List (ℕ × String)

unfoldable pub list_eq : {A : Type 0} → (A → A → Bool) → List A → List A → Bool
list_eq eq [] [] = true
list_eq eq (x ∷ xs) (y ∷ ys) = eq x y && list_eq eq xs ys
list_eq eq _ _ = false

abbrev pub text_le : String → String → Bool
text_le s t = is_le (compare s t)

-- `_entries_key(a) == _entries_key(b)`: the pairs, sorted, are the same.
unfoldable pub same_entries : List (ℕ × String) → List (ℕ × String) → Bool
unfolding list_eq sorted
same_entries a b =
    let le = λ (p q : ℕ × String). ltb p.0 q.0 || (p.0 == q.0 && text_le p.1 q.1) in
    list_eq (λ p q. p.0 == q.0 && str_eq p.1 q.1) (sorted le a) (sorted le b)

-- `_values_key(a) == _values_key(b)`
unfoldable pub same_values : List (String × String) → List (String × String) → Bool
unfolding list_eq sorted
same_values a b =
    let le = λ (p q : String × String).
      (text_le p.0 q.0 && not (str_eq p.0 q.0)) || (str_eq p.0 q.0 && text_le p.1 q.1) in
    list_eq (λ p q. str_eq p.0 q.0 && str_eq p.1 q.1) (sorted le a) (sorted le b)

abbrev pub on_field : String → ImportErrorCode → FieldError
on_field name code = record { field = some name; code = code }

abbrev pub entries_json : Option (List (ℕ × String)) → Json
entries_json none = Json.null
entries_json (some es) = Json.entries es

-- `entries is None or _entries_key(entries) == _entries_key(current.entries)`
abbrev pub keeps_entries : Option (List (ℕ × String)) → List (ℕ × String) → Bool
keeps_entries none current = true
keeps_entries (some es) current = same_entries es current

module _ {C U : Type 0} (create_model : Model C) (update_model : Model U)
    (read_uuid : String → Option Uuid) where
  unfoldable pub current_schedule : WorkingScheduleFact → U
  current_schedule f = update_model.construct (
      ("effective_start_date", or_null f.effective_start_date)
      ∷ ("effective_end_date", or_null f.effective_end_date)
      ∷ ("entries", Json.entries f.entries)
      ∷ ("external_id", or_null f.external_id)
      ∷ [])

  -- The part after the entries, which may be left out, are read.
  unfoldable pub normalize_schedule_fields :
      Row
      → ReferenceLookup
      → Option WorkingScheduleFact
      → Option (List (ℕ × String))
      → Outcome (Payload C U)
  normalize_schedule_fields row lookup matched entries =
      let external_id = coerce_optional_str (row "external_id") in
      let identity = identity_by "external_id" external_id in
      let dates = present_fields (cells row ("effective_start_date" ∷ "effective_end_date" ∷ [])) in
      elim matched [
        | none ↦ elim (resolve_person_reference read_uuid row lookup) [
          | refused error ↦ no_outcome none identity error []
          | found person ↦ elim entries [
            | none ↦ no_outcome none identity (on_field "entries" field_required) []
            | some es ↦
                create_outcome (λ p. p) identity
                  (create_model.validate (
                    ("person_id", Json.ref person)
                    ∷ ("entries", Json.entries es)
                    ∷ ("external_id", or_null external_id)
                    ∷ dates))
          ]
        ]
        | some existing ↦
            update_outcome (λ p. p) existing.id identity
              (λ p.
                is_unchanged update_model ("entries" ∷ []) p (current_schedule existing)
                && keeps_entries entries existing.entries)
              (update_model.validate (
                ("entries", entries_json entries)
                ∷ append dates (present_fields (cells row ("external_id" ∷ [])))))
      ]

  -- `validate_entry` is WorkingScheduleEntryCreate.model_validate.
  unfoldable pub normalize_working_schedule_row :
      (List (String × String) → Validated (ℕ × String))
      → Row
      → ReferenceLookup
      → (String → Option WorkingScheduleFact)
      → Outcome (Payload C U)
  normalize_working_schedule_row validate_entry row lookup existing_by_external_id =
      let external_id = coerce_optional_str (row "external_id") in
      let matched = match_by existing_by_external_id external_id in
      let wrong =
        no_outcome (id_of_match (λ f. f.id) matched) (identity_by "external_id" external_id)
          (on_field "entries" field_type_invalid) [] in
      elim (parse_packed validate_entry coerce_entries_cell "weekday" "hours" (row "entries")) [
        | not_valid d ds ↦ wrong
        | no_value ↦ wrong
        | no_items ↦ normalize_schedule_fields row lookup matched none
        | items es ↦ normalize_schedule_fields row lookup matched (some es)
      ]

-- ProjectPriorityScoreFact
pub record ScoreFact : Type 0 where
  pub id : Uuid
  pub project_id : Uuid
  pub framework_id : Uuid
  pub category : Option String
  pub notes : Option String
  pub values : List (String × String)

-- `MoscowCategory`
abbrev pub moscow_categories : List String
moscow_categories = "must" ∷ "should" ∷ "could" ∷ "wont" ∷ []

-- The checks of the category: its value, and the framework's type.
unfoldable pub check_category : Option String → String → Option FieldError
check_category none framework_type = none
check_category (some raw) framework_type =
    if not (any (λ c. str_eq raw c) moscow_categories)
    then some (on_field "category" field_type_invalid)
    else if not (str_eq framework_type "moscow")
    then some (on_field "category" domain_rule_violated)
    else none

-- Some value's key is no criterion of the framework.
unfoldable pub has_unknown : List String → List (String × String) → Bool
has_unknown keys values = any (λ v. not (any (λ k. str_eq v.0 k) keys)) values

abbrev pub values_or_empty : Option (List (String × String)) → List (String × String)
values_or_empty none = []
values_or_empty (some vs) = vs

abbrev pub values_field : Option (List (String × String)) → List (String × Json)
values_field none = []
values_field (some vs) = ("values", Json.pairs vs) ∷ []

abbrev pub keeps_values : Option (List (String × String)) → List (String × String) → Bool
keeps_values none current = true
keeps_values (some vs) current = same_values vs current

module _ {C U : Type 0} (create_model : Model C) (update_model : Model U)
    (read_uuid : String → Option Uuid) where
  unfoldable pub current_score : ScoreFact → U
  current_score f = update_model.construct (
      ("category", or_null f.category)
      ∷ ("notes", or_null f.notes)
      ∷ ("values", Json.pairs f.values)
      ∷ [])

  -- The part after the category and the values are read and checked.
  unfoldable pub normalize_score_fields :
      Row
      → Option ScoreFact
      → Uuid
      → Uuid
      → Option String
      → Option (List (String × String))
      → Outcome (Payload (Uuid × C) (Uuid × U))
  normalize_score_fields row matched project framework identity values =
      let category = present_fields (cells row ("category" ∷ [])) in
      let notes = present_fields (cells row ("notes" ∷ [])) in
      elim matched [
        | none ↦
            create_outcome (λ p. (project, p)) identity
              (create_model.validate (
                ("framework_id", Json.ref framework)
                ∷ ("values", Json.pairs (values_or_empty values))
                ∷ append category notes))
        | some existing ↦
            update_outcome (λ p. (project, p)) existing.id identity
              (λ p.
                is_unchanged update_model ("values" ∷ []) p (current_score existing)
                && keeps_values values existing.values)
              (update_model.validate (append category (append notes (values_field values))))
      ]

  -- `validate_value` is CriterionValueInput.model_validate. The frameworks' mapping by id has the
  -- framework that was found; without it the subscript raises KeyError.
  unfoldable pub normalize_project_priority_score_row :
      (List (String × String) → Validated (String × String))
      → Row
      → ReferenceLookup
      → (Uuid → Uuid → Option ScoreFact)
      → Option (Outcome (Payload (Uuid × C) (Uuid × U)))
  normalize_project_priority_score_row validate_value row lookup existing_by_pair =
      elim (resolve_project_reference read_uuid row lookup) [
        | refused error ↦ some (no_outcome none none error [])
        | found project ↦ elim (resolve_framework_reference read_uuid row lookup) [
          | refused error ↦ some (no_outcome none none error [])
          | found framework ↦ elim (lookup.frameworks_by_id framework) [
            | none ↦ none
            | some fact ↦
                let identity : Option String = some (
                  reference_display row "project_id" "project_external_id"
                  ++ ("," ++ reference_display row "framework_id" "framework_name")) in
                let matched = existing_by_pair project framework in
                let old = id_of_match (λ f. f.id) matched in
                elim (check_category (coerce_optional_str (row "category")) fact.framework_type) [
                  | some error ↦ some (no_outcome old identity error [])
                  | none ↦
                      elim (parse_packed validate_value coerce_criterion_values_cell "criterion_key"
                        "value" (row "values")) [
                          | not_valid d ds ↦
                              some (no_outcome old identity (error_of d) (validation_errors ds))
                          | no_value ↦
                              some
                                (no_outcome old identity (on_field "values" field_type_invalid) [])
                          | no_items ↦
                              some
                                (normalize_score_fields row matched project framework identity none)
                          | items vs ↦ some (
                              if has_unknown fact.criterion_keys vs
                              then no_outcome old identity (on_field "values" domain_rule_violated)
                                  []
                              else normalize_score_fields row matched project framework identity
                                  (some vs))
                        ]
                ]
          ]
        ]
      ]
