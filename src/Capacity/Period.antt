-- ===== src/Capacity/Period.antt =====
-- A period of the engine: its totals are those of its days, and periods add up.
use mathlib.Core.List.{map-append}
use capacityos.Base.{
  suc, ◌+◌, ◌-◌, ◌≤◌, ◌<◌, ◌≡◌, refl, List, [], ◌∷◌, ◌++◌, map, arith, total, total-append, All,
}
use capacityos.Base.Int.{
  pos, ◌+ℤ◌, ◌-ℤ◌, ◌≤ℤ◌, max_zero, total_ℤ, total_ℤ-append, int_laws, max_zero-sub-le, split_add,
  nonneg_add,
}
use capacityos.Base.Errors.{ok}
use capacityos.Dates.{Date, date_max, days_from}
use capacityos.Dates.Ranges.{iterate_dates-eq-days, days_from-split}
use capacityos.Capacity.{
  ScheduleFact, AvailabilityExceptionFact, AllocationFact, DailyCapacity, CapacityTotals,
  PersonCapacityResult, utilization_of, calculate_daily_capacity, calculate_period_capacity,
}
use capacityos.Capacity.Day.{IsBalanced, IsBalanced-of_split, calculate_daily_capacity-IsBalanced}

-- The relations of a period's or a team's totals.
abbrev pub IsLedger : CapacityTotals → Type 0
IsLedger r =
    IsBalanced r.gross_capacity r.unavailable_hours r.effective_capacity r.allocated_hours
      r.remaining_capacity r.over_allocation

abbrev IsDay : DailyCapacity → Type 0
IsDay day =
    IsBalanced day.scheduled_hours day.unavailable_hours day.effective_capacity day.allocated_hours
      day.remaining_capacity day.over_allocation

days-split :
    (ds : List DailyCapacity)
    → All IsDay ds
    → (total_ℤ (λ d. d.unavailable_hours) ds +ℤ pos (total (λ d. d.effective_capacity) ds)
        ≡ pos (total (λ d. d.scheduled_hours) ds))
      × (pos 0 ≤ℤ total_ℤ (λ d. d.unavailable_hours) ds)
days-split [] h = omega int_laws
days-split (d ∷ ds) (b, rest) =
    let (e, n) = days-split ds rest in (split_add _ _ _ _ _ _ b.split e, nonneg_add _ _ b.nonneg n)

module _ (schedules : List ScheduleFact) (exceptions : List AvailabilityExceptionFact)
    (allocations : List AllocationFact) where
  abbrev daily : List Date → List DailyCapacity
  daily days = map (λ day. calculate_daily_capacity day schedules exceptions allocations) days

  -- The result for a list of days.
  abbrev summary : Date → Date → List DailyCapacity → PersonCapacityResult
  summary start end ds =
      let effective = total (λ d. d.effective_capacity) ds in
      let allocated = total (λ d. d.allocated_hours) ds in
      record {
        totals = record {
          start_date = start;
          end_date = end;
          gross_capacity = total (λ d. d.scheduled_hours) ds;
          unavailable_hours = total_ℤ (λ d. d.unavailable_hours) ds;
          effective_capacity = effective;
          allocated_hours = allocated;
          remaining_capacity = pos effective -ℤ pos allocated;
          utilization = utilization_of allocated effective;
          over_allocation = max_zero (pos allocated -ℤ pos effective);
        };
        daily_breakdown = ds;
      }

  daily-All : (days : List Date) → All IsDay (daily days)
  daily-All [] = tt
  daily-All (day ∷ days) =
      (calculate_daily_capacity-IsBalanced day schedules exceptions allocations, daily-All days)

  period-eq-summary :
      (start end : Date)
      → start ≤ end
      → end < date_max
      → calculate_period_capacity start end schedules exceptions allocations
        ≡ ok (summary start end (daily (days_from (suc end - start) start)))
  unfolding calculate_period_capacity
  period-eq-summary s e h k = rw (iterate_dates-eq-days s e h k)

-- A period that is not reversed and ends before the calendar's last day has a result, in whose
-- totals the gross capacity is the effective capacity and the unavailable hours, which are not
-- negative; the effective capacity is the allocated and the remaining hours; and the
-- over-allocation covers what is allocated beyond the effective capacity, and is zero or exactly
-- the hours by which the remaining ones fall short.
pub calculate_period_capacity-IsLedger :
    (start end : Date) (schedules : List ScheduleFact) (exceptions : List AvailabilityExceptionFact)
    (allocations : List AllocationFact)
    → start ≤ end
    → end < date_max
    → (r : PersonCapacityResult) × (calculate_period_capacity start end schedules exceptions
          allocations
        ≡ ok r)
      × IsLedger r.totals
calculate_period_capacity-IsLedger s e schedules exceptions allocations h k =
    let days = days_from (suc e - s) s in
    let ds = daily schedules exceptions allocations days in
    let (split, nonneg) = days-split ds (daily-All schedules exceptions allocations days) in
    (
      summary schedules exceptions allocations s e ds,
      period-eq-summary schedules exceptions allocations s e h k,
      IsBalanced-of_split (total (λ d. d.scheduled_hours) ds) (total (λ d. d.effective_capacity) ds)
          (total (λ d. d.allocated_hours) ds) (total_ℤ (λ d. d.unavailable_hours) ds) split nonneg,
    )

-- The figures of a whole are the sums of those of its two parts.
pub record IsSum (a b whole : PersonCapacityResult) : Type 0 where
  pub gross : whole.gross_capacity ≡ a.gross_capacity + b.gross_capacity
  pub unavailable : whole.unavailable_hours ≡ a.unavailable_hours +ℤ b.unavailable_hours
  pub effective : whole.effective_capacity ≡ a.effective_capacity + b.effective_capacity
  pub allocated : whole.allocated_hours ≡ a.allocated_hours + b.allocated_hours
  pub remaining : whole.remaining_capacity ≡ a.remaining_capacity +ℤ b.remaining_capacity
  pub over : whole.over_allocation ≤ℤ a.over_allocation +ℤ b.over_allocation
  pub breakdown : whole.daily_breakdown ≡ a.daily_breakdown ++ b.daily_breakdown

module _ (schedules : List ScheduleFact) (exceptions : List AvailabilityExceptionFact)
    (allocations : List AllocationFact) where
  summary-append :
      (s m e : Date) (xs ys : List DailyCapacity)
      → IsSum
          (summary schedules exceptions allocations s m xs)
          (summary schedules exceptions allocations (suc m) e ys)
          (summary schedules exceptions allocations s e (xs ++ ys))
  summary-append s m e xs ys =
      let eff = total-append (λ d. d.effective_capacity) xs ys in
      let all = total-append (λ d. d.allocated_hours) xs ys in
      record {
        gross = total-append (λ d. d.scheduled_hours) xs ys;
        unavailable = total_ℤ-append (λ d. d.unavailable_hours) xs ys;
        effective = eff;
        allocated = all;
        remaining = rw (eff, all) (omega int_laws);
        over = rw (eff, all) (max_zero-sub-le _ _ _ (omega int_laws) (omega int_laws));
        breakdown = refl;
      }

-- A period is the sum of the two that it is cut into behind one of its days: gross, unavailable,
-- effective, allocated and remaining hours add up, the days stand one after the other, and the
-- over-allocation of the whole is at most that of the parts together.
pub calculate_period_capacity-split :
    (start middle end : Date) (schedules : List ScheduleFact)
    (exceptions : List AvailabilityExceptionFact) (allocations : List AllocationFact)
    → start ≤ middle
    → middle < end
    → end < date_max
    → (a b whole : PersonCapacityResult) × (calculate_period_capacity start middle schedules
          exceptions allocations
        ≡ ok a)
      × (calculate_period_capacity (suc middle) end schedules exceptions allocations ≡ ok b)
      × (calculate_period_capacity start end schedules exceptions allocations ≡ ok whole)
      × IsSum a b whole
calculate_period_capacity-split s m e ss es al h k l =
    let xs = daily ss es al (days_from (suc m - s) s) in
    let ys = daily ss es al (days_from (suc e - suc m) (suc m)) in
    (
      summary ss es al s m xs,
      summary ss es al (suc m) e ys,
      summary ss es al s e (xs ++ ys),
      period-eq-summary ss es al s m h (omega arith),
      period-eq-summary ss es al (suc m) e (omega arith) l,
      rw (
        period-eq-summary ss es al s e (omega arith) l,
        days_from-split s m e h (omega arith),
        map-append,
      ),
      summary-append ss es al s m e xs ys,
    )
