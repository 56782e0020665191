-- ===== src/Schedules/Tests.antt =====
-- Runs of the schedule service and its theorems on the schedules of one person.
use capacityos.Base.{arith, ◌≡◌, refl, none, some, [], ◌∷◌, map, inl, inr}
use capacityos.Base.Errors.{domain_validation_error, ok, err}
use capacityos.Dates.{ranges_overlap}
use capacityos.Capacity.{scheduled_hours_for_date}
use capacityos.Schedules.{
  WorkingSchedule, WorkingScheduleCreate, WorkingScheduleUpdate, Store, list_for_person,
  list_for_people, person_schedules, to_fact, create, update,
}
use capacityos.Schedules.Disjoint.{IsDisjoint}
use capacityos.Schedules.Requests.{create-IsDisjoint, update-IsDisjoint}
use capacityos.Schedules.Effective.{scheduled_hours_lem}

abbrev first : WorkingSchedule
first = record {
  id = 1;
  organization_id = 9;
  person_id = 5;
  effective_start_date = none;
  effective_end_date = some 100;
  external_id = none;
  entries = (0, 800) ∷ [];
  created_at = 1;
}

abbrev store : Store
store = record { people = (5, 9) ∷ []; schedules = first ∷ [] }

abbrev request : WorkingScheduleCreate
request = record {
  person_id = 5;
  effective_start_date = some 101;
  effective_end_date = none;
  entries = (0, 400) ∷ [];
  external_id = none;
}

abbrev second : WorkingSchedule
second = record {
  id = 2;
  organization_id = 9;
  person_id = 5;
  effective_start_date = some 101;
  effective_end_date = none;
  external_id = none;
  entries = (0, 400) ∷ [];
  created_at = 7;
}

abbrev both : Store
both = record store { schedules = second ∷ first ∷ [] }

create_run : create 9 request 2 7 store ≡ ok both
unfolding create ranges_overlap
create_run = refl

overlap_run :
    create 9 (record request { effective_start_date = some 100 }) 2 7 store
    ≡ err domain_validation_error
unfolding create ranges_overlap
overlap_run = refl

store-IsDisjoint : IsDisjoint store.schedules
store-IsDisjoint = (tt, tt)

abbrev later_start : WorkingScheduleUpdate
later_start = record {
  effective_start_date = some (some 150);
  effective_end_date = none;
  entries = none;
  external_id = none;
}

abbrev both_after : Store
both_after = record store {
  schedules = record second { effective_start_date = some 150 } ∷ first ∷ [];
}

update_run : update 9 2 later_start both ≡ ok both_after
unfolding update ranges_overlap
update_run = refl

both-IsDisjoint : IsDisjoint both.schedules
both-IsDisjoint = create-IsDisjoint 9 request 2 7 store both store-IsDisjoint create_run

update-IsDisjoint_example : IsDisjoint both_after.schedules
update-IsDisjoint_example =
    update-IsDisjoint 9 2 later_start both both_after ((refl, tt), (tt, tt)) both-IsDisjoint
      update_run

-- Day 8 is a Monday.
scheduled_hours_lem_example :
    (scheduled_hours_for_date (map to_fact (list_for_person 5 9 both)) 8 ≡ 800)
    × (scheduled_hours_for_date (person_schedules 5 (list_for_people (4 ∷ 5 ∷ []) 7 20 9 both)) 8
        ≡ 800)
scheduled_hours_lem_example =
    scheduled_hours_lem 5 9 (4 ∷ 5 ∷ []) 7 20 8 both first both-IsDisjoint (inr (inl refl)) refl
      refl refl (omega arith) (omega arith)
