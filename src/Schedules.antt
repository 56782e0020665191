-- ===== src/Schedules.antt =====
-- apps/api/app/services/working_schedule.py with the queries of
-- apps/api/app/repositories/working_schedule.py: the working schedules of people.
-- A table has no order of its own; a new row is written at its front. The id and the creation time
-- of a new row are arguments, and an external id, which is only compared, is a number.
pub mod Disjoint
pub mod Requests
pub mod Effective
mod Tests
use capacityos.Base.{
  ℕ, Bool, true, false, ◌&&◌, not, Option, none, some, List, [], ◌∷◌, map, ◌==◌, ltb, find, any,
  keep, if◌then◌else◌, leb,
}
use capacityos.Base.Errors.{
  not_found_error, conflict_error, domain_validation_error, Result, ok, err, ◌>>=◌, ◌>>◌, raise_if,
  or_raise,
}
use capacityos.Dates.{Date, ranges_overlap}
use capacityos.Capacity.{Uuid, Hours, ScheduleFact}

pub record WorkingSchedule : Type 0 where
  pub id : Uuid
  pub organization_id : Uuid
  pub person_id : Uuid
  pub effective_start_date : Option Date
  pub effective_end_date : Option Date
  pub external_id : Option ℕ
  pub entries : List (ℕ × Hours)
  pub created_at : ℕ

pub record WorkingScheduleCreate : Type 0 where
  pub person_id : Uuid
  pub effective_start_date : Option Date
  pub effective_end_date : Option Date
  pub entries : List (ℕ × Hours)
  pub external_id : Option ℕ

-- The fields that a request sets (`exclude_unset`); a date or an external id may be set to null.
pub record WorkingScheduleUpdate : Type 0 where
  pub effective_start_date : Option (Option Date)
  pub effective_end_date : Option (Option Date)
  pub entries : Option (List (ℕ × Hours))
  pub external_id : Option (Option ℕ)

-- `people` has the organization of each person.
pub record Store : Type 0 where
  pub people : List (Uuid × Uuid)
  pub schedules : List WorkingSchedule

abbrev pub has_person : Uuid → Uuid → Store → Bool
has_person person org store = any (λ p. p.0 == person && p.1 == org) store.people

abbrev pub is_of : Uuid → Uuid → WorkingSchedule → Bool
is_of person org s = s.person_id == person && s.organization_id == org

abbrev pub list_for_person : Uuid → Uuid → Store → List WorkingSchedule
list_for_person person org store = keep (is_of person org) store.schedules

abbrev pub is_external : Option ℕ → ℕ → Bool
is_external none external_id = false
is_external (some e) external_id = e == external_id

abbrev pub get_by_external_id : ℕ → Uuid → Store → Option WorkingSchedule
get_by_external_id external_id org store =
    find (λ s. is_external s.external_id external_id && s.organization_id == org) store.schedules

abbrev pub overlaps : Option Date → Option Date → WorkingSchedule → Bool
overlaps start end existing =
    ranges_overlap start end existing.effective_start_date existing.effective_end_date

-- `data.external_id is not None and get_by_external_id(data.external_id)`
abbrev pub external_id_taken : Option ℕ → Uuid → Store → Bool
external_id_taken none org store = false
external_id_taken (some e) org store = elim (get_by_external_id e org store) [
  | none ↦ false
  | some _ ↦ true
]

unfoldable pub create : Uuid → WorkingScheduleCreate → Uuid → ℕ → Store → Result Store
create org request new_id now store = do
  raise_if (not (has_person request.person_id org store)) not_found_error
  raise_if (external_id_taken request.external_id org store) conflict_error
  raise_if
      (any (overlaps request.effective_start_date request.effective_end_date)
        (list_for_person request.person_id org store))
      domain_validation_error
  let schedule : WorkingSchedule = record {
    id = new_id;
    organization_id = org;
    person_id = request.person_id;
    effective_start_date = request.effective_start_date;
    effective_end_date = request.effective_end_date;
    external_id = request.external_id;
    entries = request.entries;
    created_at = now;
  }
  ok (record store { schedules = schedule ∷ store.schedules })

unfoldable pub get : Uuid → Uuid → Store → Result WorkingSchedule
get org schedule_id store =
    or_raise (find (λ s. s.id == schedule_id && s.organization_id == org) store.schedules)
      not_found_error

-- `updates.get(field, old)`
abbrev pub or_keep {ℓ} : {A : Type ℓ} → Option A → A → A
or_keep none old = old
or_keep (some new) old = new

-- `merged_start and merged_end and merged_end < merged_start`
abbrev pub is_reversed : Option Date → Option Date → Bool
is_reversed none end = false
is_reversed (some s) none = false
is_reversed (some s) (some e) = ltb e s

-- A new external id that another schedule of the organization has.
abbrev pub external_id_clash : Option (Option ℕ) → WorkingSchedule → Uuid → Store → Bool
external_id_clash none schedule org store = false
external_id_clash (some none) schedule org store = false
external_id_clash (some (some e)) schedule org store =
    not (is_external schedule.external_id e) && elim (get_by_external_id e org store) [
      | none ↦ false
      | some existing ↦ not (existing.id == schedule.id)
    ]

abbrev pub updated : WorkingScheduleUpdate → WorkingSchedule → WorkingSchedule
updated request s = record s {
  effective_start_date = or_keep request.effective_start_date s.effective_start_date;
  effective_end_date = or_keep request.effective_end_date s.effective_end_date;
  external_id = or_keep request.external_id s.external_id;
  entries = or_keep request.entries s.entries;
}

unfoldable pub update : Uuid → Uuid → WorkingScheduleUpdate → Store → Result Store
unfolding get
update org schedule_id request store = do
  schedule ← get org schedule_id store
  let merged_start = or_keep request.effective_start_date schedule.effective_start_date
  let merged_end = or_keep request.effective_end_date schedule.effective_end_date
  raise_if (is_reversed merged_start merged_end) domain_validation_error
  raise_if
      (any
        (λ existing. not (existing.id == schedule.id) && overlaps merged_start merged_end existing)
        (list_for_person schedule.person_id org store))
      domain_validation_error
  raise_if (external_id_clash request.external_id schedule org store) conflict_error
  ok (record store {
    schedules = map (λ s. if s.id == schedule.id then updated request s else s) store.schedules;
  })

unfoldable pub delete : Uuid → Uuid → Store → Result Store
unfolding get
delete org schedule_id store = do
  schedule ← get org schedule_id store
  ok (record store { schedules = keep (λ s. not (s.id == schedule.id)) store.schedules })

-- What the capacity engine reads of a schedule.
abbrev pub to_fact : WorkingSchedule → ScheduleFact
to_fact s = record {
  effective_start_date = s.effective_start_date;
  effective_end_date = s.effective_end_date;
  entries = s.entries;
  created_at = s.created_at;
}

abbrev pub in_range : Date → Date → WorkingSchedule → Bool
in_range start_date end_date s =
    elim s.effective_start_date [ none ↦ true | some d ↦ leb d end_date ]
    && elim s.effective_end_date [ none ↦ true | some d ↦ leb start_date d ]

-- The schedules of some people that overlap a range.
abbrev pub list_for_people : List Uuid → Date → Date → Uuid → Store → List WorkingSchedule
list_for_people person_ids start_date end_date org store =
    keep
      (λ s.
        any (λ i. i == s.person_id) person_ids
        && s.organization_id == org
        && in_range start_date end_date s)
      store.schedules

-- `schedules_by_person.get(person_id, [])`, as facts.
unfoldable pub person_schedules : Uuid → List WorkingSchedule → List ScheduleFact
person_schedules person_id schedules = map to_fact (keep (λ s. s.person_id == person_id) schedules)
