-- ===== src/Dates/Weeks.antt =====
-- The week that `week_range` gives.
use capacityos.Base.{◌+◌, ◌-◌, ◌≤◌, ◌≡◌, arith}
use capacityos.Base.Errors.{ok}
use capacityos.Dates.{Date, date_max, weekday, add_days, sub_days, week_range}

-- The week of a day that is at least six days before the end of the calendar starts on a Monday
-- and ends on the Sunday six days later, and holds the day.
pub week_range_lem :
    (any_date : Date)
    → 1 ≤ any_date
    → any_date + 6 ≤ date_max
    → (monday sunday : Date) × (week_range any_date ≡ ok (monday, sunday))
      × (weekday monday ≡ 0)
      × (weekday sunday ≡ 6)
      × (sunday ≡ monday + 6)
      × (monday ≤ any_date)
      × (any_date ≤ sunday)
unfolding week_range add_days sub_days
week_range_lem d h k = (
  d - weekday d,
  d - weekday d + 6,
  ground arith,
  omega arith,
  omega arith,
  omega arith,
  omega arith,
  omega arith,
)
