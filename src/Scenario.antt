-- ===== src/Scenario.antt =====
-- apps/api/app/domain/scenario.py: hypothetical planning states and the operations on them.
-- A state is a value, so that no operation can change the baseline; an operation returns a new one.
pub mod Clip
pub mod Availability
pub mod Move
pub mod Shift
mod Tests
use capacityos.Base.{
  ℕ, suc, ◌+◌, ◌-◌, Bool, true, false, ◌||◌, not, Option, none, some, List, [], ◌∷◌, ◌++◌, map, ltb,
  leb, ◌==◌, if◌then◌else◌, keep, find, any, length,
}
use capacityos.Base.Int.{ℤ}
use capacityos.Base.Errors.{value_error, Result, ok, err, ◌>>=◌, ◌>>◌, raise_if, or_raise}
use capacityos.Base.Sort.{sorted}
use capacityos.Dates.{Date, shift_days}
use capacityos.Capacity.{
  Hours, Uuid, ScheduleFact, AvailabilityExceptionFact, AllocationFact, ProjectAllocationFact,
  PersonCapacityResult, ProjectDemandResult, get_or, round_div, calculate_period_capacity,
  calculate_project_demand,
}

pub record IdentifiedAllocationFact : Type 0 where
  pub id : Uuid
  pub person_id : Uuid
  pub project_id : Uuid
  pub start_date : Date
  pub end_date : Date
  pub allocation_hours : Hours

abbrev pub to_fact : IdentifiedAllocationFact → AllocationFact
to_fact a = record {
  start_date = a.start_date;
  end_date = a.end_date;
  allocation_hours = a.allocation_hours;
}

pub record PlanningState : Type 0 where
  pub schedules : List (Uuid × List ScheduleFact)
  pub exceptions : List (Uuid × List AvailabilityExceptionFact)
  pub allocations : List IdentifiedAllocationFact

unfoldable pub person_capacity_from_state :
    PlanningState → Uuid → Date → Date → Result PersonCapacityResult
person_capacity_from_state state person start end =
    calculate_period_capacity start end (get_or person [] state.schedules)
      (get_or person [] state.exceptions)
      (map to_fact (keep (λ a. a.person_id == person) state.allocations))

abbrev pub to_project_fact : IdentifiedAllocationFact → ProjectAllocationFact
to_project_fact a = record { person_id = a.person_id; allocation = to_fact a }

unfoldable pub project_demand_from_state :
    PlanningState → Uuid → Date → Date → Result ProjectDemandResult
project_demand_from_state state project start end =
    calculate_project_demand start end
      (map to_project_fact (keep (λ a. a.project_id == project) state.allocations))

-- Every operation has its own id and its place in the sequence.
pub data ScenarioOperation : Type 0 where
  add_allocation :
      (id : Uuid) (sequence : ℕ) (person_id project_id : Uuid) (hours : Hours)
      (start_date end_date : Date)
      → ScenarioOperation
  adjust_allocation :
      (id : Uuid) (sequence : ℕ) (allocation_id : Uuid) (hours : Option Hours)
      (start_date end_date : Option Date)
      → ScenarioOperation
  remove_allocation : (id : Uuid) (sequence : ℕ) (allocation_id : Uuid) → ScenarioOperation
  move_allocation :
      (id : Uuid) (sequence : ℕ) (allocation_id to_person_id : Uuid) (hours : Option Hours)
      → ScenarioOperation
  shift_project :
      (id : Uuid) (sequence : ℕ) (project_id : Uuid) (day_offset : ℤ) → ScenarioOperation
  availability_override :
      (id : Uuid) (sequence : ℕ) (person_id : Uuid) (start_date end_date : Date)
      (hours : Option Hours)
      → ScenarioOperation
  availability_clear :
      (id : Uuid) (sequence : ℕ) (person_id : Uuid) (start_date end_date : Date) → ScenarioOperation
  add_hypothetical_resource :
      (id : Uuid) (sequence : ℕ) (hours_per_week : Hours) (start_date end_date : Date)
      → ScenarioOperation

-- What is left of one exception outside of [start, end]. The day before `start` and the day after
-- `end` exist, as the exception reaches beyond them.
abbrev pub clip_one : Date → Date → AvailabilityExceptionFact → List AvailabilityExceptionFact
clip_one start end e =
    if ltb e.end_date start || ltb end e.start_date
    then e ∷ []
    else (if ltb e.start_date start then record e { end_date = start - 1 } ∷ [] else [])
      ++ (if ltb end e.end_date then record e { start_date = end + 1 } ∷ [] else [])

unfoldable pub clip_exceptions :
    List AvailabilityExceptionFact → Date → Date → List AvailabilityExceptionFact
clip_exceptions [] start end = []
clip_exceptions (e ∷ es) start end = clip_one start end e ++ clip_exceptions es start end

-- `{**d, key: value}`
abbrev pub set_key {ℓ} : {V : Type ℓ} → ℕ → V → List (ℕ × V) → List (ℕ × V)
set_key k v [] = (k, v) ∷ []
set_key k v ((j, w) ∷ m) = if k == j then (k, v) ∷ m else (j, w) ∷ set_key k v m

-- `value if value is not None else default`
abbrev pub or_else {ℓ} : {A : Type ℓ} → Option A → A → A
or_else none d = d
or_else (some a) d = a

abbrev pub has_id : Uuid → IdentifiedAllocationFact → Bool
has_id i a = a.id == i

abbrev pub adjust_one :
    Uuid
    → Option Hours
    → Option Date
    → Option Date
    → IdentifiedAllocationFact
    → IdentifiedAllocationFact
adjust_one i hours start end a =
    if has_id i a
    then record a {
      allocation_hours = or_else hours a.allocation_hours;
      start_date = or_else start a.start_date;
      end_date = or_else end a.end_date;
    }
    else a

-- The allocations after `target` has given `move_hours` to another person: in whole, or leaving
-- the rest to `target` and the part to a new allocation under the operation's id.
abbrev pub moved :
    Uuid
    → Uuid
    → IdentifiedAllocationFact
    → Hours
    → List IdentifiedAllocationFact
    → List IdentifiedAllocationFact
moved operation_id to_person target move_hours allocations =
    let others = keep (λ a. not (has_id target.id a)) allocations in
    let remainder = target.allocation_hours - move_hours in
    if ltb 0 remainder
    then others
      ++ record target { allocation_hours = remainder }
        ∷ record target { id = operation_id; person_id = to_person; allocation_hours = move_hours }
        ∷ []
    else others ++ record target { person_id = to_person } ∷ []

unfoldable pub shift_allocation :
    Uuid → ℤ → IdentifiedAllocationFact → Result IdentifiedAllocationFact
shift_allocation project offset a =
    if a.project_id == project
    then (shift_days a.start_date offset >>= λ start. shift_days a.end_date offset >>= λ end.
        ok (record a { start_date = start; end_date = end }))
    else ok a

unfoldable pub shift_all :
    Uuid → ℤ → List IdentifiedAllocationFact → Result (List IdentifiedAllocationFact)
shift_all project offset [] = ok []
shift_all project offset (a ∷ rest) = do
  a' ← shift_allocation project offset a
  rest' ← shift_all project offset rest
  ok (a' ∷ rest')

-- The made-up resource works a fifth of its week on each day from Monday to Friday.
abbrev pub hypothetical_schedule : Hours → Date → Date → ScheduleFact
hypothetical_schedule hours_per_week start end =
    let per_day = round_div hours_per_week 5 in
    record {
      effective_start_date = some start;
      effective_end_date = some end;
      entries = (0, per_day) ∷ (1, per_day) ∷ (2, per_day) ∷ (3, per_day) ∷ (4, per_day) ∷ [];
      created_at = 0;
    }

unfoldable pub apply_one : PlanningState → ScenarioOperation → Result PlanningState
apply_one state (add_allocation id _ person project hours start end) =
    let new_allocation : IdentifiedAllocationFact = record {
      id = id;
      person_id = person;
      project_id = project;
      start_date = start;
      end_date = end;
      allocation_hours = hours;
    } in
    ok (record state { allocations = state.allocations ++ new_allocation ∷ [] })
apply_one state (adjust_allocation _ _ allocation_id hours start end) = do
  raise_if (not (any (has_id allocation_id) state.allocations)) value_error
  ok (record state {
    allocations = map (adjust_one allocation_id hours start end) state.allocations;
  })
apply_one state (remove_allocation _ _ allocation_id) = do
  let remaining = keep (λ a. not (has_id allocation_id a)) state.allocations
  raise_if (length remaining == length state.allocations) value_error
  ok (record state { allocations = remaining })
apply_one state (move_allocation id _ allocation_id to_person hours) = do
  target ← or_raise (find (has_id allocation_id) state.allocations) value_error
  let move_hours = or_else hours target.allocation_hours
  raise_if (ltb target.allocation_hours move_hours) value_error
  ok (record state { allocations = moved id to_person target move_hours state.allocations })
apply_one state (shift_project _ _ project offset) = do
  shifted ← shift_all project offset state.allocations
  ok (record state { allocations = shifted })
apply_one state (availability_override _ _ person start end hours) =
    let clipped = clip_exceptions (get_or person [] state.exceptions) start end in
    let override : AvailabilityExceptionFact = record {
      start_date = start;
      end_date = end;
      hours = hours;
    } in
    ok (record state { exceptions = set_key person (clipped ++ override ∷ []) state.exceptions })
apply_one state (availability_clear _ _ person start end) =
    let clipped = clip_exceptions (get_or person [] state.exceptions) start end in
    ok (record state { exceptions = set_key person clipped state.exceptions })
apply_one state (add_hypothetical_resource id _ hours_per_week start end) = ok (record state {
  schedules = set_key id (hypothetical_schedule hours_per_week start end ∷ []) state.schedules;
})

abbrev pub sequence_of : ScenarioOperation → ℕ
sequence_of (add_allocation _ n _ _ _ _ _) = n
sequence_of (adjust_allocation _ n _ _ _ _) = n
sequence_of (remove_allocation _ n _) = n
sequence_of (move_allocation _ n _ _ _) = n
sequence_of (shift_project _ n _ _) = n
sequence_of (availability_override _ n _ _ _ _) = n
sequence_of (availability_clear _ n _ _ _) = n
sequence_of (add_hypothetical_resource _ n _ _ _) = n

abbrev pub by_sequence : ScenarioOperation → ScenarioOperation → Bool
by_sequence a b = leb (sequence_of a) (sequence_of b)

unfoldable pub apply_all : PlanningState → List ScenarioOperation → Result PlanningState
apply_all state [] = ok state
apply_all state (op ∷ ops) = do state' ← apply_one state op; apply_all state' ops

unfoldable pub apply_scenario_operations :
    PlanningState → List ScenarioOperation → Result PlanningState
unfolding apply_all
apply_scenario_operations baseline operations = apply_all baseline (sorted by_sequence operations)
