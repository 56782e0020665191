-- ===== src/Scenario/Tests.antt =====
-- A run of a scenario, and the theorems on its operations at a concrete state.
use capacityos.Base.{
  find, ◌≤◌, ◌+◌, ◌≡◌, refl, ◌&&◌, none, some, [], ◌∷◌, arith, min, leb, ◌==◌, if◌then◌else◌,
}
use capacityos.Base.Int.{pos}
use capacityos.Base.Errors.{ok}
use capacityos.Capacity.{AvailabilityExceptionFact, available_hours}
use capacityos.Scenario.{
  has_id, or_else, IdentifiedAllocationFact, PlanningState, add_allocation, remove_allocation,
  move_allocation, shift_project, availability_override, clip_exceptions, apply_one,
  apply_scenario_operations, shift_all, shift_allocation,
}
use capacityos.Base.Sort.{sorted}
use capacityos.Dates.{shift_days}
use capacityos.Scenario.Clip.{hours_on, hours_on-clip_exceptions}
use capacityos.Scenario.Availability.{effective_on, availability_override_lem}
use capacityos.Scenario.Move.{person_hours, project_hours, move_allocation-project_hours}
use capacityos.Scenario.Shift.{AreShifted, shift_project_lem}

abbrev allocation : IdentifiedAllocationFact
allocation = record {
  id = 1;
  person_id = 5;
  project_id = 7;
  start_date = 8;
  end_date = 10;
  allocation_hours = 2000;
}

abbrev vacation : AvailabilityExceptionFact
vacation = record { start_date = 1; end_date = 20; hours = none }

abbrev state : PlanningState
state = record {
  schedules = [];
  exceptions = (5, vacation ∷ []) ∷ [];
  allocations = allocation ∷ [];
}

abbrev state_after_move : PlanningState
state_after_move = record state {
  allocations =
      record allocation { allocation_hours = 1500 }
      ∷ record allocation { id = 99; person_id = 6; allocation_hours = 500 }
      ∷ [];
}

abbrev state_after_shift : PlanningState
state_after_shift = record state {
  allocations = record allocation { start_date = 11; end_date = 13 } ∷ [];
}

-- The operations are applied in the order of their sequence numbers.
order_run :
    apply_scenario_operations state
      (remove_allocation 31 2 30 ∷ add_allocation 30 1 5 7 100 8 9 ∷ [])
    ≡ ok state
unfolding apply_scenario_operations apply_one sorted
order_run = refl

move_run : apply_one state (move_allocation 99 1 1 6 (some 500)) ≡ ok state_after_move
unfolding apply_one
move_run = refl

shift_run : apply_one state (shift_project 99 1 7 (pos 3)) ≡ ok state_after_shift
unfolding apply_one shift_all shift_allocation shift_days
shift_run = refl

hours_on-clip_exceptions_example : hours_on 12 (clip_exceptions (vacation ∷ []) 8 10) ≡ none ∷ []
hours_on-clip_exceptions_example = hours_on-clip_exceptions 12 8 10 (vacation ∷ []) (omega arith)

availability_override_lem_example :
    (state' : PlanningState) × (apply_one state (availability_override 99 1 5 8 10 (some 400))
      ≡ ok state')
    × (effective_on state' 5 800 9 ≡ (
        if (5 == 5) && (leb 8 9 && leb 9 10)
        then min 800 (available_hours (some 400))
        else effective_on state 5 800 9))
availability_override_lem_example =
    availability_override_lem state 99 1 5 8 10 (some 400) 5 800 9 (omega arith)

move_allocation-project_hours_example :
    (target : IdentifiedAllocationFact) × (find (has_id 1) state.allocations ≡ some target)
    × ((or_else (some 500) target.allocation_hours ≤ target.allocation_hours)
        × (person_hours 6 7 state_after_move.allocations
              + (if 6 == target.person_id && 7 == target.project_id
                  then or_else (some 500) target.allocation_hours
                  else 0)
            ≡ person_hours 6 7 state.allocations
              + (if 6 == 6 && 7 == target.project_id
                  then or_else (some 500) target.allocation_hours
                  else 0))
        × (project_hours 7 state_after_move.allocations ≡ project_hours 7 state.allocations))
move_allocation-project_hours_example =
    move_allocation-project_hours state state_after_move 99 1 1 6 (some 500) 7 6 (tt, tt) move_run

shift_project_lem_example :
    AreShifted 7 (pos 3) state.allocations state_after_shift.allocations
    × (state_after_shift.schedules ≡ state.schedules)
    × (state_after_shift.exceptions ≡ state.exceptions)
shift_project_lem_example = shift_project_lem state state_after_shift 99 1 7 (pos 3) shift_run
