-- ===== src/Capacity/Day.antt =====
-- One day of the engine: scheduled hours, effective capacity and the day's ledger.
use capacityos.Base.{
  ◌≤◌, ◌≡◌, refl, ◌⊎◌, inl, inr, List, [], ◌∷◌, arith, All, Any, keep, total, min,
}
use capacityos.Base.Int.{ℤ, pos, ◌+ℤ◌, ◌-ℤ◌, ◌≤ℤ◌, max_zero, int_laws, max_zero-sub}
use capacityos.Dates.{Date}
use capacityos.Capacity.{
  Hours, ScheduleFact, AvailabilityExceptionFact, AllocationFact, scheduled_hours_for_date, covers,
  available_hours, min_available, effective_capacity_for_date, allocation_amount_for_date,
  calculate_daily_capacity,
}

-- The value is at most the schedule and at most what each exception of the list leaves, and it is
-- one of these.
abbrev pub IsLeastOf : Hours → Hours → List AvailabilityExceptionFact → Type 0
IsLeastOf value scheduled exceptions =
    (value ≤ scheduled)
    × All (λ e. value ≤ available_hours e.hours) exceptions
    × ((value ≡ scheduled) ⊎ Any (λ e. value ≡ available_hours e.hours) exceptions)

min_available-le : (h : Hours) (es : List AvailabilityExceptionFact) → min_available h es ≤ h
min_available-le h [] = omega arith
min_available-le h (e ∷ es) = omega (arith, min_available-le (min h (available_hours e.hours)) es)

min_available-All :
    (h : Hours) (es : List AvailabilityExceptionFact)
    → All (λ e. min_available h es ≤ available_hours e.hours) es
min_available-All h [] = tt
min_available-All h (e ∷ es) =
    let m = min h (available_hours e.hours) in
    (omega (arith, min_available-le m es), min_available-All m es)

min_available-Any :
    (h : Hours) (es : List AvailabilityExceptionFact)
    → (min_available h es ≡ h) ⊎ Any (λ e. min_available h es ≡ available_hours e.hours) es
min_available-Any h [] = inl refl
min_available-Any h (e ∷ es) = elim (min_available-Any (min h (available_hours e.hours)) es) [
  | inl same ↦ ground arith
  | inr other ↦ inr (inr other)
]

-- The effective capacity of a day is the least of the scheduled hours and of the hours that each
-- exception covering the day leaves: the most restrictive one wins, and none raises it.
pub effective_capacity-IsLeastOf :
    (scheduled : Hours) (exceptions : List AvailabilityExceptionFact) (target : Date)
    → IsLeastOf
        (effective_capacity_for_date scheduled exceptions target)
        scheduled
        (keep (covers target) exceptions)
unfolding effective_capacity_for_date
effective_capacity-IsLeastOf h es target = (
  min_available-le h (keep (covers target) es),
  min_available-All h (keep (covers target) es),
  min_available-Any h (keep (covers target) es),
)

-- What the fields of a day, or of a period's totals, have to do with one another.
pub record IsBalanced (gross : Hours) (unavailable : ℤ) (effective allocated : Hours)
    (remaining over : ℤ) : Type 0 where
  pub split : unavailable +ℤ pos effective ≡ pos gross
  pub nonneg : pos 0 ≤ℤ unavailable
  pub spent : remaining +ℤ pos allocated ≡ pos effective
  pub excess : pos allocated ≤ℤ over +ℤ pos effective
  pub floor : pos 0 ≤ℤ over
  pub tight : (over ≡ pos 0) ⊎ (over +ℤ remaining ≡ pos 0)

pub IsBalanced-of_split :
    (gross effective allocated : Hours) (unavailable : ℤ)
    → unavailable +ℤ pos effective ≡ pos gross
    → pos 0 ≤ℤ unavailable
    → IsBalanced gross unavailable effective allocated
        (pos effective -ℤ pos allocated)
        (max_zero (pos allocated -ℤ pos effective))
IsBalanced-of_split gross effective allocated unavailable split nonneg = record {
  split = split;
  nonneg = nonneg;
  spent = omega int_laws;
  excess = omega int_laws;
  floor = omega int_laws;
  tight = max_zero-sub allocated effective;
}

-- In the ledger of a day the scheduled hours are the effective and the unavailable ones, which are
-- not negative; the effective hours are the allocated and the remaining ones; and the
-- over-allocation covers what is allocated beyond the effective hours, and is zero or exactly the
-- hours by which the remaining ones fall short.
pub calculate_daily_capacity-IsBalanced :
    (target : Date) (schedules : List ScheduleFact) (exceptions : List AvailabilityExceptionFact)
    (allocations : List AllocationFact)
    → let day = calculate_daily_capacity target schedules exceptions allocations in
      IsBalanced day.scheduled_hours day.unavailable_hours day.effective_capacity
        day.allocated_hours day.remaining_capacity day.over_allocation
unfolding calculate_daily_capacity
calculate_daily_capacity-IsBalanced target schedules exceptions allocations =
    let scheduled = scheduled_hours_for_date schedules target in
    let effective = effective_capacity_for_date scheduled exceptions target in
    let allocated = total (λ a. allocation_amount_for_date a target) allocations in
    let less = (effective_capacity-IsLeastOf scheduled exceptions target).0 in
    IsBalanced-of_split scheduled effective allocated (pos scheduled -ℤ pos effective)
      (omega int_laws) (omega int_laws)
