-- ===== src/Capacity/Tests.antt =====
-- Runs of the capacity engine, and its theorems at a concrete person, team and project.
use capacityos.Base.{◌+◌, ◌*◌, ◌≤◌, ◌≡◌, refl, inr, none, some, [], ◌∷◌, arith, total, keep}
use capacityos.Base.Int.{pos, negsuc, total_ℤ, ◌≤ℤ◌, ◌-ℤ◌, ◌+ℤ◌}
use capacityos.Base.Errors.{ok}
use capacityos.Dates.{days_from}
use capacityos.Capacity.{
  ScheduleFact, AvailabilityExceptionFact, AllocationFact, PersonCapacityResult,
  ProjectAllocationFact, covers, scheduled_hours_for_date, effective_capacity_for_date,
  allocation_amount_for_date, calculate_daily_capacity, calculate_period_capacity,
  aggregate_team_capacity,
}
use capacityos.Capacity.Day.{IsLeastOf, effective_capacity-IsLeastOf}
use capacityos.Capacity.Phasing.{phased_drift}
use capacityos.Capacity.Period.{
  IsLedger, IsSum, calculate_period_capacity-IsLedger, calculate_period_capacity-split,
}
use capacityos.Capacity.Team.{aggregate_team_capacity-IsLedger}

-- Eight hours on Mondays and Tuesdays; day 8 is a Monday.
abbrev schedule : ScheduleFact
schedule = record {
  effective_start_date = none;
  effective_end_date = none;
  entries = (0, 800) ∷ (1, 800) ∷ [];
  created_at = 1;
}

abbrev half_day : AvailabilityExceptionFact
half_day = record { start_date = 9; end_date = 9; hours = some 400 }

abbrev allocation : AllocationFact
allocation = record { start_date = 8; end_date = 10; allocation_hours = 2000 }

abbrev staffing : ProjectAllocationFact
staffing = record { person_id = 5; allocation = allocation }

phasing_run : allocation_amount_for_date allocation 9 ≡ 667
unfolding allocation_amount_for_date
phasing_run = refl

day_run :
    let day = calculate_daily_capacity 9 (schedule ∷ []) (half_day ∷ []) (allocation ∷ []) in
    (day.effective_capacity ≡ 400)
    × (day.remaining_capacity ≡ negsuc 266)
    × (day.over_allocation ≡ pos 267)
    × (day.utilization ≡ some 16675)
unfolding calculate_daily_capacity effective_capacity_for_date scheduled_hours_for_date ◌-ℤ◌
    allocation_amount_for_date
day_run = (refl, refl, refl, refl)

effective_capacity-IsLeastOf_example :
    IsLeastOf
      (effective_capacity_for_date 800 (half_day ∷ []) 9)
      800
      (keep (covers 9) (half_day ∷ []))
effective_capacity-IsLeastOf_example = effective_capacity-IsLeastOf 800 (half_day ∷ []) 9

phased_drift_example :
    let drawn = total (λ day. allocation_amount_for_date allocation day) (days_from 8 5) in
    (2 * drawn ≤ 4003) × (4000 ≤ 2 * drawn + 3)
phased_drift_example = phased_drift allocation 5 12 (omega arith) (omega arith) (omega arith)

calculate_period_capacity-IsLedger_example :
    (r : PersonCapacityResult) × (calculate_period_capacity 8 14
        (schedule ∷ [])
        (half_day ∷ [])
        (allocation ∷ [])
      ≡ ok r)
    × IsLedger r.totals
calculate_period_capacity-IsLedger_example =
    calculate_period_capacity-IsLedger 8 14 (schedule ∷ []) (half_day ∷ []) (allocation ∷ [])
      (omega arith) (omega arith)

calculate_period_capacity-split_example :
    (a b whole : PersonCapacityResult) × (calculate_period_capacity 8 9
        (schedule ∷ [])
        (half_day ∷ [])
        (allocation ∷ [])
      ≡ ok a)
    × (calculate_period_capacity 10 14 (schedule ∷ []) (half_day ∷ []) (allocation ∷ []) ≡ ok b)
    × (calculate_period_capacity 8 14 (schedule ∷ []) (half_day ∷ []) (allocation ∷ []) ≡ ok whole)
    × IsSum a b whole
calculate_period_capacity-split_example =
    calculate_period_capacity-split 8 9 14 (schedule ∷ []) (half_day ∷ []) (allocation ∷ [])
      (omega arith) (omega arith) (omega arith)

-- A member of a team with the totals of a period that has nothing left.
abbrev member : PersonCapacityResult
member = record {
  totals = record {
    start_date = 8;
    end_date = 14;
    gross_capacity = 1600;
    unavailable_hours = pos 400;
    effective_capacity = 1200;
    allocated_hours = 2001;
    remaining_capacity = negsuc 800;
    utilization = some 16675;
    over_allocation = pos 801;
  };
  daily_breakdown = [];
}

member-IsLedger : IsLedger member.totals
unfolding ◌+ℤ◌
member-IsLedger = record {
  split = ground arith;
  nonneg = omega arith;
  spent = ground arith;
  excess = ground arith;
  floor = omega arith;
  tight = inr (ground arith);
}

aggregate_team_capacity-IsLedger_example :
    let team = aggregate_team_capacity 8 14 (member ∷ member ∷ []) in
    IsLedger team
    × (team.remaining_capacity ≡ total_ℤ (λ m. m.remaining_capacity) (member ∷ member ∷ []))
    × (team.over_allocation ≤ℤ total_ℤ (λ m. m.over_allocation) (member ∷ member ∷ []))
aggregate_team_capacity-IsLedger_example =
    aggregate_team_capacity-IsLedger 8 14 (member ∷ member ∷ [])
      (member-IsLedger, (member-IsLedger, tt))
