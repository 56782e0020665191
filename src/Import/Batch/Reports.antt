-- ===== src/Import/Batch/Reports.antt =====
-- The report of a validation and what `apply` then does: apps/api/app/services/import_service.py.
use capacityos.Base.{
  ◌+◌, ◌≡◌, ◌≢◌, refl, inl, inr, true, false, ◌&&◌, none, List, [], ◌∷◌, ltb, ◌==◌, length, arith,
  if◌then◌else◌, Option-cases,
}
use capacityos.Base.Errors.{ok, ◌>>=◌}
use capacityos.Import.Outcomes.{Payload}
use capacityos.Import.Batch.{
  PreparedRow, Prepared, to_row_results, count_status, invalid, valid_create, valid_update,
  valid_unchanged, Report, to_validation_report, Writer, write_rows, apply_import, status_of,
  is_status, RowStatus,
}

status_cases :
    (status : RowStatus)
    → (if is_status status valid_create then 1 else 0)
        + (if is_status status valid_update then 1 else 0)
        + (if is_status status valid_unchanged then 1 else 0)
        + (if is_status status invalid then 1 else 0)
      ≡ 1
status_cases invalid = refl
status_cases valid_create = refl
status_cases valid_update = refl
status_cases valid_unchanged = refl

counts_add_up :
    {P : Type 0} (rows : List (PreparedRow P))
    → count_status valid_create (to_row_results rows)
        + count_status valid_update (to_row_results rows)
        + count_status valid_unchanged (to_row_results rows)
        + count_status invalid (to_row_results rows)
      ≡ length (to_row_results rows)
unfolding to_row_results
counts_add_up [] = refl
counts_add_up (p ∷ rows) = omega (arith, counts_add_up rows, status_cases (status_of p.outcome))

abbrev pub CountsAddUp : Report → Type 0
CountsAddUp r =
    (r.create_count + r.update_count + r.unchanged_count + r.invalid_count ≡ r.total_rows)
    × (r.ready ≡ (r.invalid_count == 0 && ltb 0 r.total_rows))

-- In every report of a validation the rows that create, that update, that change nothing and that
-- are invalid are as many as all rows; the file is ready to apply exactly if it has rows and none
-- is invalid, which a file with an error of its own has not.
pub to_validation_report_counts :
    {P : Type 0} (prepared : Prepared P) → CountsAddUp (to_validation_report prepared)
unfolding to_validation_report
to_validation_report_counts prepared = elim (Option-cases prepared.file_error) [
  | inl fine ↦ rw fine (counts_add_up prepared.rows, refl)
  | inr (code, failed) ↦ rw failed (refl, refl)
]

module _ {C U S : Type 0} (w : Writer C U S) (prepared : Prepared (Payload C U)) (s : S) where
  abbrev pub Agrees : Type 0
  Agrees =
      let r = to_validation_report prepared in
      (r.ready ≡ true
        → apply_import w prepared s ≡ (write_rows w prepared.rows s >>= λ t. ok (t, r)))
      × ((r.invalid_count == 0) ≡ false
          → apply_import w prepared s
            ≡ ok (
              s,
              record r { ready = false; create_count = 0; update_count = 0; unchanged_count = 0 },
            ))
      × (r.file_error ≢ none → apply_import w prepared s ≡ ok (s, r))
