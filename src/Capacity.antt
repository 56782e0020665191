-- ===== src/Capacity.antt =====
-- apps/api/app/domain/capacity.py: the capacity engine.
-- Hours are hundredths of an hour, as the columns that they come from store them (Numeric(6,2) and
-- Numeric(4,2), never negative); a utilization is in ten-thousandths. A quotient is rounded half up
-- once: the engine first rounds it to 28 digits, which cannot move a quotient of such numbers
-- across a half. A difference is an integer.
pub mod Day
pub mod Phasing
pub mod Period
pub mod Team
pub mod Demand
mod Tests
use capacityos.Base.{
  ℕ, suc, ◌+◌, ◌-◌, ◌*◌, ◌/◌, Bool, true, false, ◌&&◌, Option, none, some, List, [], ◌∷◌, map, min,
  ltb, leb, ◌==◌, if◌then◌else◌, keep, total, length,
}
use capacityos.Base.Int.{ℤ, pos, ◌-ℤ◌, max_zero, total_ℤ}
use capacityos.Base.Errors.{Result, ok, err, ◌>>=◌}
use capacityos.Base.Sort.{sorted}
use capacityos.Dates.{Date, weekday, iterate_dates}

abbrev pub Hours : Type 0
Hours = ℕ

-- A `uuid.UUID` is its 128-bit integer; its text, of lower-case hexadecimal digits at fixed
-- places, is ordered in the same way.
abbrev pub Uuid : Type 0
Uuid = ℕ

-- `n / d`, rounded to a whole number of the unit, halves upwards.
abbrev pub round_div : ℕ → ℕ → ℕ
round_div n d = (2 * n + d) / (2 * d)

-- A dict read by `.get(key, default)`.
abbrev pub get_or {ℓ} : {V : Type ℓ} → ℕ → V → List (ℕ × V) → V
get_or k d [] = d
get_or k d ((j, v) ∷ m) = if k == j then v else get_or k d m

pub record ScheduleFact : Type 0 where
  pub effective_start_date : Option Date
  pub effective_end_date : Option Date
  pub entries : List (ℕ × Hours)
  pub created_at : ℕ

pub record AvailabilityExceptionFact : Type 0 where
  pub start_date : Date
  pub end_date : Date
  pub hours : Option Hours

pub record AllocationFact : Type 0 where
  pub start_date : Date
  pub end_date : Date
  pub allocation_hours : Hours

pub record DailyCapacity : Type 0 where
  pub date : Date
  pub scheduled_hours : Hours
  pub unavailable_hours : ℤ
  pub effective_capacity : Hours
  pub allocated_hours : Hours
  pub remaining_capacity : ℤ
  pub utilization : Option ℕ
  pub over_allocation : ℤ

-- The fields that PersonCapacityResult and TeamCapacityResult share.
pub record CapacityTotals : Type 0 where
  pub start_date : Date
  pub end_date : Date
  pub gross_capacity : Hours
  pub unavailable_hours : ℤ
  pub effective_capacity : Hours
  pub allocated_hours : Hours
  pub remaining_capacity : ℤ
  pub utilization : Option ℕ
  pub over_allocation : ℤ

pub record PersonCapacityResult : Type 0 where
  pub totals : CapacityTotals
  pub open totals use *
  pub daily_breakdown : List DailyCapacity

abbrev pub TeamCapacityResult : Type 0
TeamCapacityResult = CapacityTotals

-- A schedule is in effect on the day.
abbrev pub is_effective : Date → ScheduleFact → Bool
is_effective target s =
    elim s.effective_start_date [ none ↦ true | some d ↦ leb d target ]
    && elim s.effective_end_date [ none ↦ true | some d ↦ leb target d ]

-- `max(matching, key=created_at)`: the first of those that were created last.
abbrev pub latest : ScheduleFact → List ScheduleFact → ScheduleFact
latest best [] = best
latest best (s ∷ rest) = latest (if ltb best.created_at s.created_at then s else best) rest

abbrev pub hours_of_matching : Date → List ScheduleFact → Hours
hours_of_matching target [] = 0
hours_of_matching target (s ∷ rest) = get_or (weekday target) 0 (latest s rest).entries

unfoldable pub scheduled_hours_for_date : List ScheduleFact → Date → Hours
scheduled_hours_for_date schedules target =
    hours_of_matching target (keep (is_effective target) schedules)

abbrev pub covers : Date → AvailabilityExceptionFact → Bool
covers target e = leb e.start_date target && leb target e.end_date

abbrev pub available_hours : Option Hours → Hours
available_hours none = 0
available_hours (some h) = h

-- `min(scheduled_hours, *available_values)`, which is the first argument if there are no others.
abbrev pub min_available : Hours → List AvailabilityExceptionFact → Hours
min_available h [] = h
min_available h (e ∷ rest) = min_available (min h (available_hours e.hours)) rest

unfoldable pub effective_capacity_for_date : Hours → List AvailabilityExceptionFact → Date → Hours
effective_capacity_for_date scheduled exceptions target =
    min_available scheduled (keep (covers target) exceptions)

unfoldable pub allocation_amount_for_date : AllocationFact → Date → Hours
allocation_amount_for_date a target =
    if leb a.start_date target && leb target a.end_date
    then round_div a.allocation_hours (a.end_date - a.start_date + 1)
    else 0

-- `_quantize_utilization(allocated / effective) if effective > ZERO else None`
abbrev pub utilization_of : Hours → Hours → Option ℕ
utilization_of allocated effective =
    if ltb 0 effective then some (round_div (10000 * allocated) effective) else none

unfoldable pub calculate_daily_capacity :
    Date → List ScheduleFact → List AvailabilityExceptionFact → List AllocationFact → DailyCapacity
calculate_daily_capacity target schedules exceptions allocations =
    let scheduled = scheduled_hours_for_date schedules target in
    let effective = effective_capacity_for_date scheduled exceptions target in
    let allocated = total (λ a. allocation_amount_for_date a target) allocations in
    record {
      date = target;
      scheduled_hours = scheduled;
      unavailable_hours = pos scheduled -ℤ pos effective;
      effective_capacity = effective;
      allocated_hours = allocated;
      remaining_capacity = pos effective -ℤ pos allocated;
      utilization = utilization_of allocated effective;
      over_allocation = max_zero (pos allocated -ℤ pos effective);
    }

unfoldable pub calculate_period_capacity :
    Date
    → Date
    → List ScheduleFact
    → List AvailabilityExceptionFact
    → List AllocationFact
    → Result PersonCapacityResult
calculate_period_capacity start end schedules exceptions allocations = do
  days ← iterate_dates start end
  let daily = map (λ day. calculate_daily_capacity day schedules exceptions allocations) days
  let effective = total (λ day. day.effective_capacity) daily
  let allocated = total (λ day. day.allocated_hours) daily
  ok (record {
    totals = record {
      start_date = start;
      end_date = end;
      gross_capacity = total (λ day. day.scheduled_hours) daily;
      unavailable_hours = total_ℤ (λ day. day.unavailable_hours) daily;
      effective_capacity = effective;
      allocated_hours = allocated;
      remaining_capacity = pos effective -ℤ pos allocated;
      utilization = utilization_of allocated effective;
      over_allocation = max_zero (pos allocated -ℤ pos effective);
    };
    daily_breakdown = daily;
  })

unfoldable pub aggregate_team_capacity :
    Date → Date → List PersonCapacityResult → TeamCapacityResult
aggregate_team_capacity start end members =
    let effective = total (λ m. m.effective_capacity) members in
    let allocated = total (λ m. m.allocated_hours) members in
    record {
      start_date = start;
      end_date = end;
      gross_capacity = total (λ m. m.gross_capacity) members;
      unavailable_hours = total_ℤ (λ m. m.unavailable_hours) members;
      effective_capacity = effective;
      allocated_hours = allocated;
      remaining_capacity = pos effective -ℤ pos allocated;
      utilization = utilization_of allocated effective;
      over_allocation = max_zero (pos allocated -ℤ pos effective);
    }

pub record ProjectAllocationFact : Type 0 where
  pub person_id : Uuid
  pub allocation : AllocationFact

pub record ProjectDailyDemand : Type 0 where
  pub date : Date
  pub allocated_hours : Hours

pub record ProjectPersonDemand : Type 0 where
  pub person_id : Uuid
  pub allocated_hours : Hours

pub record ProjectDemandResult : Type 0 where
  pub start_date : Date
  pub end_date : Date
  pub allocated_hours : Hours
  pub allocated_people : ℕ
  pub daily_breakdown : List ProjectDailyDemand
  pub by_person : List ProjectPersonDemand

-- `person_totals[id] = person_totals.get(id, ZERO) + amount`, at the key's place in the dict.
abbrev pub add_amount : Uuid → Hours → List (Uuid × Hours) → List (Uuid × Hours)
add_amount k v [] = (k, v) ∷ []
add_amount k v ((j, w) ∷ m) = if k == j then (j, w + v) ∷ m else (j, w) ∷ add_amount k v m

-- The inner loop of `calculate_project_demand`: the day's total and the totals of the people.
unfoldable pub demand_day :
    Date → List ProjectAllocationFact → Hours × List (Uuid × Hours) → Hours × List (Uuid × Hours)
demand_day day [] acc = acc
demand_day day (entry ∷ rest) (day_total, people) =
    let amount = allocation_amount_for_date entry.allocation day in
    demand_day day rest (
      if ltb 0 amount
      then (day_total + amount, add_amount entry.person_id amount people)
      else (day_total, people))

-- The outer loop.
unfoldable pub demand_days :
    List ProjectAllocationFact
    → List Date
    → List (Uuid × Hours)
    → List ProjectDailyDemand × List (Uuid × Hours)
demand_days allocations [] people = ([], people)
demand_days allocations (day ∷ rest) people =
    let (day_total, people') = demand_day day allocations (0, people) in
    let (daily, people'') = demand_days allocations rest people' in
    (record { date = day; allocated_hours = day_total } ∷ daily, people'')

abbrev pub by_id : Uuid × Hours → Uuid × Hours → Bool
by_id a b = leb a.0 b.0

abbrev pub person_demand : Uuid × Hours → ProjectPersonDemand
person_demand e = record { person_id = e.0; allocated_hours = e.1 }

-- The keys of the dict are sorted and each one's value is read: that is, its items are sorted.
unfoldable pub calculate_project_demand :
    Date → Date → List ProjectAllocationFact → Result ProjectDemandResult
calculate_project_demand start end allocations = do
  days ← iterate_dates start end
  let ran = demand_days allocations days []
  let by_person = map person_demand (sorted by_id ran.1)
  ok (record {
    start_date = start;
    end_date = end;
    allocated_hours = total (λ d. d.allocated_hours) ran.0;
    allocated_people = length by_person;
    daily_breakdown = ran.0;
    by_person = by_person;
  })
