-- ===== src/Dates.antt =====
-- apps/api/app/domain/dates.py: ranges of days and weeks.
-- A `date` is its proleptic Gregorian ordinal (`date.toordinal()`): day 1 is 0001-01-01, a Monday,
-- and day 3652059 is 9999-12-31, the last; a step past either end raises OverflowError.
pub mod Ranges
pub mod Weeks
mod Tests
use capacityos.Base.{
  ℕ, zero, suc, ◌+◌, ◌-◌, ◌%◌, ◌≤◌, Bool, true, false, ◌&&◌, ◌||◌, Option, none, some, List, [],
  ◌∷◌, ltb, leb, if◌then◌else◌,
}
use capacityos.Base.Int.{ℤ, pos, negsuc}
use capacityos.Base.Errors.{
  Error, value_error, overflow_error, Result, ok, err, ◌>>=◌, ◌>>◌, raise_if,
}

abbrev pub Date : Type 0
Date = ℕ

abbrev pub date_max : Date
date_max = 3652059

-- `date.weekday()`: Monday is 0.
abbrev pub weekday : Date → ℕ
weekday d = (d + 6) % 7

-- `d + timedelta(days=n)`
unfoldable pub add_days : Date → ℕ → Result Date
add_days d n = if leb (d + n) date_max then ok (d + n) else err overflow_error

-- `d - timedelta(days=n)`
unfoldable pub sub_days : Date → ℕ → Result Date
sub_days d n = if ltb n d then ok (d - n) else err overflow_error

-- `d + timedelta(days=offset)` for an offset of either sign.
unfoldable pub shift_days : Date → ℤ → Result Date
unfolding add_days sub_days
shift_days d (pos n) = add_days d n
shift_days d (negsuc n) = sub_days d (suc n)

-- `n` days in a row from `d` on.
abbrev pub days_from : ℕ → Date → List Date
days_from zero d = []
days_from (suc n) d = d ∷ days_from n (suc d)

-- The loop of `iterate_dates`, run to the end by its caller: `n` more days are yielded from
-- `current` on, and `current` is stepped after each.
iterate_from : ℕ → Date → Result (List Date)
unfolding add_days
iterate_from zero current = ok []
iterate_from (suc n) current = do
  next ← add_days current 1
  rest ← iterate_from n next
  ok (current ∷ rest)

unfoldable pub iterate_dates : Date → Date → Result (List Date)
unfolding iterate_from
iterate_dates start_date end_date = do
  raise_if (ltb end_date start_date) value_error
  iterate_from (suc end_date - start_date) start_date

unfoldable pub week_range : Date → Result (Date × Date)
unfolding add_days sub_days
week_range any_date = do
  monday ← sub_days any_date (weekday any_date)
  sunday ← add_days monday 6
  ok (monday, sunday)

-- `a is None or b is None or a <= b`
abbrev pub before_or_open : Option Date → Option Date → Bool
before_or_open none b = true
before_or_open (some a) none = true
before_or_open (some a) (some b) = leb a b

unfoldable pub ranges_overlap : Option Date → Option Date → Option Date → Option Date → Bool
ranges_overlap start_a end_a start_b end_b =
    before_or_open start_a end_b && before_or_open start_b end_a
