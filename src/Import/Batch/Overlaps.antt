-- ===== src/Import/Batch/Overlaps.antt =====
-- The overlap check of a file of working schedules: `_check_working_schedule_overlap` and the loop
-- of `_prepare_working_schedule` of apps/api/app/services/import_service.py. The ranges of all
-- people are one list, a new one at its end; a new id is an argument.
pub mod Separate
use capacityos.Base.{
  ◌≡◌, inl, inr, Bool, true, false, ◌&&◌, not, Option, none, some, List, [], ◌∷◌, ◌++◌, ◌==◌, any,
  find, arith, if◌then◌else◌, Bool-cases, Option-cases, All,
}
use capacityos.Dates.{Date, ranges_overlap}
use capacityos.Capacity.{Uuid}
use capacityos.Schedules.{WorkingScheduleCreate, WorkingScheduleUpdate, or_keep}
use capacityos.Import.{FieldError, domain_rule_violated}
use capacityos.Import.Outcomes.{
  Action, create, update, Payload, for_create, for_update, Outcome, no_outcome, has_errors,
}

pub record Range : Type 0 where
  pub person_id : Uuid
  pub id : Uuid
  pub start : Option Date
  pub end : Option Date

abbrev pub ScheduleOutcome : Type 0
ScheduleOutcome = Outcome (Payload WorkingScheduleCreate WorkingScheduleUpdate)

abbrev pub overlap_error : FieldError
overlap_error = record { field = none; code = domain_rule_violated }

abbrev pub is_self : Option Uuid → Uuid → Bool
is_self none i = false
is_self (some self) i = i == self

abbrev pub merged : WorkingScheduleUpdate → Uuid → Option Range → Option Range
merged request self none = none
merged request self (some owner) = some (record owner {
  id = self;
  start = or_keep request.effective_start_date owner.start;
  end = or_keep request.effective_end_date owner.end;
})

-- The range that a payload asks for: an update changes the first range that has its id, and is not
-- compared if there is none.
abbrev pub candidate :
    Uuid
    → Option (Payload WorkingScheduleCreate WorkingScheduleUpdate)
    → Option Uuid
    → List Range
    → Option Range
candidate new_id none matched ranges = none
candidate new_id (some (for_create request)) matched ranges = some (record {
  person_id = request.person_id;
  id = new_id;
  start = request.effective_start_date;
  end = request.effective_end_date;
})
candidate new_id (some (for_update request)) none ranges = none
candidate new_id (some (for_update request)) (some self) ranges =
    merged request self (find (λ r. r.id == self) ranges)

-- Only an update has a range of its own to pass over.
abbrev pub self_of :
    Option (Payload WorkingScheduleCreate WorkingScheduleUpdate) → Option Uuid → Option Uuid
self_of (some (for_update request)) matched = matched
self_of _ matched = none

abbrev pub overlaps_another : Option Uuid → Range → List Range → Bool
overlaps_another self c ranges =
    any
      (λ r.
        r.person_id == c.person_id
        && not (is_self self r.id)
        && ranges_overlap c.start c.end r.start r.end)
      ranges

abbrev pub writes_schedule : Option Action → Bool
writes_schedule (some create) = true
writes_schedule (some update) = true
writes_schedule _ = false

abbrev pub wanted_range : Uuid → ScheduleOutcome → List Range → Option Range
wanted_range new_id o ranges =
    if has_errors o
    then none
    else if writes_schedule o.action
    then candidate new_id o.payload o.matched_id ranges
    else none

unfoldable pub check_working_schedule_overlap :
    Uuid → ScheduleOutcome → List Range → ScheduleOutcome × List Range
unfolding ranges_overlap
check_working_schedule_overlap new_id o ranges = elim (wanted_range new_id o ranges) [
  | none ↦ (o, ranges)
  | some c ↦
      if overlaps_another (self_of o.payload o.matched_id) c ranges
      then (no_outcome o.matched_id o.identity overlap_error [], ranges)
      else (o, ranges ++ c ∷ [])
]

-- The loop over the rows' outcomes, in the order of the file, each with the id of a new row.
unfoldable pub check_schedules :
    List (Uuid × ScheduleOutcome) → List Range → List ScheduleOutcome × List Range
unfolding check_working_schedule_overlap
check_schedules [] ranges = ([], ranges)
check_schedules ((new_id, o) ∷ rows) ranges =
    let first = check_working_schedule_overlap new_id o ranges in
    let rest = check_schedules rows first.1 in (first.0 ∷ rest.0, rest.1)
