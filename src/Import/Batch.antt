-- ===== src/Import/Batch.antt =====
-- A file's rows together: `_prepare`'s checks of the file, `_flag_duplicate_identities`,
-- `_to_row_result`, `_to_validation_report`, `_to_apply_result`, `apply` and `_write_row` of
-- apps/api/app/services/import_service.py. The parsed rows, the size of the file and the limits are
-- arguments; the services that write are a parameter.
pub mod Reports
pub mod Policy
pub mod Identities
pub mod Edges
pub mod Overlaps
use Prim.Native.String.{String}
use text.Mathlib.Text.{◌==◌ as str_eq}
use capacityos.Base.{
  ℕ, ◌+◌, Bool, true, false, ◌&&◌, not, Option, none, some, List, [], ◌∷◌, any, ltb, ◌==◌, length,
  total, if◌then◌else◌,
}
use capacityos.Base.Errors.{attribute_error, Result, ok, err, ◌>>=◌}
use capacityos.Capacity.{Uuid}
use capacityos.Import.{
  FieldError, ImportErrorCode, unsupported_format, file_too_large, row_limit_exceeded,
  duplicate_in_file, ImportMode, ExportFormat, Row,
}
use capacityos.Import.Outcomes.{
  Action, create, update, unchanged, Payload, for_create, for_update, Outcome, no_outcome,
  has_errors, apply_mode_policy,
}

pub record PreparedRow (P : Type 0) : Type 0 where
  pub row_number : ℕ
  pub outcome : Outcome P

pub record Prepared (P : Type 0) : Type 0 where
  pub file_error : Option ImportErrorCode
  pub rows : List (PreparedRow P)

-- `[_PreparedRow(i, apply_mode_policy(normalize(row), mode)) for i, row in enumerate(rows, start)]`
unfoldable pub prepare_rows :
    {P : Type 0} → (Row → Outcome P) → ImportMode → ℕ → List Row → List (PreparedRow P)
unfolding apply_mode_policy
prepare_rows normalize mode start [] = []
prepare_rows normalize mode start (row ∷ rows) =
    record { row_number = start; outcome = apply_mode_policy (normalize row) mode }
    ∷ prepare_rows normalize mode (start + 1) rows

abbrev pub duplicate_error : FieldError
duplicate_error = record { field = none; code = duplicate_in_file }

abbrev pub flagged : {P : Type 0} → PreparedRow P → PreparedRow P
flagged p = record p {
  outcome = no_outcome p.outcome.matched_id p.outcome.identity duplicate_error [];
}

abbrev pub is_in : String → List String → Bool
is_in identity seen = any (λ s. str_eq identity s) seen

-- The identity that the loop looks up: none for a row without one, or with errors.
abbrev pub checked_identity : {P : Type 0} → Outcome P → Option String
checked_identity o = if has_errors o then none else o.identity

-- `_flag_duplicate_identities`, from the identities that are seen.
unfoldable pub flag_duplicates :
    {P : Type 0} → List String → List (PreparedRow P) → List (PreparedRow P)
flag_duplicates seen [] = []
flag_duplicates seen (p ∷ rows) = elim (checked_identity p.outcome) [
  | none ↦ p ∷ flag_duplicates seen rows
  | some identity ↦ elim (is_in identity seen) [
    | true ↦ flagged p ∷ flag_duplicates seen rows
    | false ↦ p ∷ flag_duplicates (identity ∷ seen) rows
  ]
]

abbrev pub file_failure : {P : Type 0} → ImportErrorCode → Prepared P
file_failure code = record { file_error = some code; rows = [] }

-- What the parser of the format gives: the rows, or the code of a ParseFailure.
pub data ParsedFile : Type 0 where
  parse_failure : ImportErrorCode → ParsedFile
  parsed : List Row → ParsedFile

-- `_prepare`: `format` is what `detect_format` gives, `parse` reads the file, and `prepare` is the
-- entity's own preparation.
unfoldable pub prepare_file :
    {P : Type 0}
    → ℕ
    → ℕ
    → (ExportFormat → ParsedFile)
    → (List Row → List (PreparedRow P))
    → Option ExportFormat
    → ℕ
    → Prepared P
unfolding flag_duplicates
prepare_file max_bytes max_rows parse prepare none size = file_failure unsupported_format
prepare_file max_bytes max_rows parse prepare (some format) size =
    if ltb max_bytes size then file_failure file_too_large else elim (parse format) [
      | parse_failure code ↦ file_failure code
      | parsed rows ↦
          if ltb max_rows (length rows)
          then file_failure row_limit_exceeded
          else record { file_error = none; rows = flag_duplicates [] (prepare rows) }
    ]

pub data RowStatus : Type 0 where
  invalid valid_create valid_update valid_unchanged : RowStatus

abbrev pub status_of : {P : Type 0} → Outcome P → RowStatus
status_of o = if has_errors o then invalid else elim o.action [
  | some create ↦ valid_create
  | some update ↦ valid_update
  | _ ↦ valid_unchanged
]

abbrev pub is_status : RowStatus → RowStatus → Bool
is_status invalid invalid = true
is_status valid_create valid_create = true
is_status valid_update valid_update = true
is_status valid_unchanged valid_unchanged = true
is_status _ _ = false

-- ImportRowResult
pub record RowResult : Type 0 where
  pub row_number : ℕ
  pub status : RowStatus
  pub identity : Option String
  pub matched_id : Option Uuid
  pub errors : List FieldError

-- `_to_row_result` of each row
unfoldable pub to_row_results : {P : Type 0} → List (PreparedRow P) → List RowResult
to_row_results [] = []
to_row_results (p ∷ rows) =
    record {
      row_number = p.row_number;
      status = status_of p.outcome;
      identity = p.outcome.identity;
      matched_id = p.outcome.matched_id;
      errors = p.outcome.errors;
    }
    ∷ to_row_results rows

-- `sum(1 for r in results if r.status == status)`
abbrev pub count_status : RowStatus → List RowResult → ℕ
count_status status results = total (λ r. if is_status r.status status then 1 else 0) results

-- ImportValidationReport, and ImportApplyResult with `applied` for `ready`.
pub record Report : Type 0 where
  pub file_error : Option ImportErrorCode
  pub total_rows : ℕ
  pub create_count : ℕ
  pub update_count : ℕ
  pub unchanged_count : ℕ
  pub invalid_count : ℕ
  pub ready : Bool
  pub rows : List RowResult

abbrev pub empty_report : Option ImportErrorCode → Report
empty_report error = record {
  file_error = error;
  total_rows = 0;
  create_count = 0;
  update_count = 0;
  unchanged_count = 0;
  invalid_count = 0;
  ready = false;
  rows = [];
}

-- `_to_validation_report`
unfoldable pub to_validation_report : {P : Type 0} → Prepared P → Report
unfolding to_row_results
to_validation_report prepared = elim prepared.file_error [
  | some code ↦ empty_report (some code)
  | none ↦
      let results = to_row_results prepared.rows in
      let failures = count_status invalid results in
      record {
        file_error = none;
        total_rows = length results;
        create_count = count_status valid_create results;
        update_count = count_status valid_update results;
        unchanged_count = count_status valid_unchanged results;
        invalid_count = failures;
        ready = failures == 0 && ltb 0 (length results);
        rows = results;
      }
]

-- `_to_apply_result`
unfoldable pub to_apply_result : {P : Type 0} → Prepared P → Bool → Report
unfolding to_row_results
to_apply_result prepared applied = elim prepared.file_error [
  | some code ↦ empty_report (some code)
  | none ↦
      let results = to_row_results prepared.rows in
      record {
        file_error = none;
        total_rows = length results;
        create_count = if applied then count_status valid_create results else 0;
        update_count = if applied then count_status valid_update results else 0;
        unchanged_count = if applied then count_status valid_unchanged results else 0;
        invalid_count = count_status invalid results;
        ready = applied;
        rows = results;
      }
]

-- The services of an entity, on the state of the database.
pub record Writer (C U S : Type 0) : Type 0 where
  pub create_record : C → S → Result S
  pub update_record : Uuid → U → S → Result S

-- A cast does not check: a call on a payload of the other kind, or on none, is an AttributeError.
abbrev pub write_create : {C U S : Type 0} → Writer C U S → Option (Payload C U) → S → Result S
write_create w (some (for_create c)) s = w.create_record c s
write_create w (some (for_update u)) s = err attribute_error
write_create w none s = err attribute_error

abbrev pub write_update :
    {C U S : Type 0} → Writer C U S → Option Uuid → Option (Payload C U) → S → Result S
write_update w (some i) (some (for_update u)) s = w.update_record i u s
write_update w (some i) (some (for_create c)) s = err attribute_error
write_update w (some i) none s = err attribute_error
write_update w none payload s = err attribute_error

-- `_write_row`
unfoldable pub write_row : {C U S : Type 0} → Writer C U S → Outcome (Payload C U) → S → Result S
write_row w o s = elim o.action [
  | none ↦ ok s
  | some unchanged ↦ ok s
  | some create ↦ write_create w o.payload s
  | some update ↦ write_update w o.matched_id o.payload s
]

unfoldable pub write_rows :
    {C U S : Type 0} → Writer C U S → List (PreparedRow (Payload C U)) → S → Result S
unfolding write_row
write_rows w [] s = ok s
write_rows w (p ∷ rows) s = write_row w p.outcome s >>= λ t. write_rows w rows t

-- `prepared.file_error is not None or any(p.outcome.errors for p in prepared.rows)`
abbrev pub is_refused : {P : Type 0} → Prepared P → Bool
is_refused prepared = elim prepared.file_error [
  | some code ↦ true
  | none ↦ any (λ p. has_errors p.outcome) prepared.rows
]

-- `apply`, after the preparation. An exception rolls the request's transaction back.
unfoldable pub apply_import :
    {C U S : Type 0} → Writer C U S → Prepared (Payload C U) → S → Result (S × Report)
unfolding write_rows to_apply_result
apply_import w prepared s =
    if is_refused prepared
    then ok (s, to_apply_result prepared false)
    else (write_rows w prepared.rows s >>= λ t. ok (t, to_apply_result prepared true))
