-- ===== src/Dates/Ranges.antt =====
-- What `iterate_dates` yields, and what `ranges_overlap` decides.
use capacityos.Base.{
  ℕ, zero, suc, ◌+◌, ◌-◌, ◌≤◌, ◌<◌, ◌≡◌, refl, ◌↔◌, true, Option, none, some, arith, max, ap, ◌∙◌,
  ◌++◌, ◌∷◌, ltb, ◌==◌, if◌then◌else◌,
}
use native.Mathlib.Nat.{zero-add, add-zero, suc-add, add-suc}
use capacityos.Base.Errors.{value_error, overflow_error, ok, err}
use capacityos.Dates.{
  Date, date_max, days_from, add_days, iterate_from, iterate_dates, ranges_overlap,
}

iterate_from_lem : (n : ℕ) (d : Date) → d + n ≤ date_max → iterate_from n d ≡ ok (days_from n d)
unfolding iterate_from add_days
iterate_from_lem zero d h = refl
iterate_from_lem (suc n) d h = ground (arith, iterate_from_lem n (suc d))

-- A range that ends before the last day of the calendar yields each of its days, in order.
pub iterate_dates-eq-days :
    (start_date end_date : Date)
    → start_date ≤ end_date
    → end_date < date_max
    → iterate_dates start_date end_date ≡ ok (days_from (suc end_date - start_date) start_date)
unfolding iterate_dates
iterate_dates-eq-days s e h k = ground (arith, iterate_from_lem (suc e - s) s)

iterate_from-overflows :
    (n : ℕ) (d : Date) → d ≤ date_max → date_max < d + n → iterate_from n d ≡ err overflow_error
unfolding iterate_from add_days
iterate_from-overflows zero d h k = absurd (omega arith)
iterate_from-overflows (suc n) d h k = ground (arith, iterate_from-overflows n (suc d))

-- `iterate_dates` on every pair of dates: a reversed range raises ValueError; a range that ends on
-- the last day of the calendar raises OverflowError, since the day after it is computed once it has
-- been yielded; and any other range yields each of its days, in order.
pub iterate_dates_lem :
    (start_date end_date : Date)
    → end_date ≤ date_max
    → iterate_dates start_date end_date ≡ (
        if ltb end_date start_date
        then err value_error
        else if end_date == date_max
        then err overflow_error
        else ok (days_from (suc end_date - start_date) start_date))
unfolding iterate_dates
iterate_dates_lem s e m =
    ground (arith, iterate_from_lem (suc e - s) s, iterate_from-overflows (suc e - s) s)

-- What a bound that may be missing says of a day.
abbrev pub AtLeast : Option Date → Date → Type 0
AtLeast none day = Unit
AtLeast (some s) day = s ≤ day

abbrev pub AtMost : Option Date → Date → Type 0
AtMost none day = Unit
AtMost (some e) day = day ≤ e

abbrev pub IsDate : Date → Type 0
IsDate d = (1 ≤ d) × (d ≤ date_max)

-- The day lies in the range [start, end].
abbrev pub Within : Option Date → Option Date → Date → Type 0
Within start end day = IsDate day × AtLeast start day × AtMost end day

abbrev pub IsBound : Option Date → Type 0
IsBound none = Unit
IsBound (some d) = IsDate d

-- The bounds are dates, and not reversed.
abbrev pub IsRange : Option Date → Option Date → Type 0
IsRange (some s) (some e) = IsDate s × IsDate e × (s ≤ e)
IsRange start end = IsBound start × IsBound end

abbrev start_or_first : Option Date → Date
start_or_first none = 1
start_or_first (some s) = s

overlaps→shared :
    (sa ea sb eb : Option Date)
    → IsRange sa ea
    → IsRange sb eb
    → ranges_overlap sa ea sb eb ≡ true
    → (day : Date) × Within sa ea day × Within sb eb day
unfolding ranges_overlap
overlaps→shared sa ea sb eb a b h =
    (max (start_or_first sa) (start_or_first sb), ground arith, ground arith)

shared→overlaps :
    (sa ea sb eb : Option Date) (day : Date)
    → Within sa ea day
    → Within sb eb day
    → ranges_overlap sa ea sb eb ≡ true
unfolding ranges_overlap
shared→overlaps sa ea sb eb day a b = ground arith

-- Two ranges, each with or without its bounds and neither of them reversed, are found to overlap
-- exactly when some day of the calendar lies in both.
pub ranges_overlap_iff :
    (start_a end_a start_b end_b : Option Date)
    → IsRange start_a end_a
    → IsRange start_b end_b
    → (ranges_overlap start_a end_a start_b end_b ≡ true)
      ↔ ((day : Date) × Within start_a end_a day × Within start_b end_b day)
ranges_overlap_iff sa ea sb eb a b =
    (overlaps→shared sa ea sb eb a b, λ (day, x, y). shared→overlaps sa ea sb eb day x y)

-- A run of days is cut after any number of them.
pub days_from-add :
    (n m : ℕ) (d : Date) → days_from (n + m) d ≡ days_from n d ++ days_from m (d + n)
days_from-add zero m d = rw (zero-add, add-zero)
days_from-add (suc n) m d =
    rw (suc-add n m, add-suc d n) (ap (λ days. d ∷ days) (days_from-add n m (suc d) ∙ step))
  where
    step :
        days_from n (suc d) ++ days_from m (suc d + n)
        ≡ days_from n (suc d) ++ days_from m (suc (d + n))
    step = rw (suc-add d n)

-- A range is cut behind one of its days.
pub days_from-split :
    (start middle end : Date)
    → start ≤ middle
    → middle ≤ end
    → days_from (suc end - start) start
      ≡ days_from (suc middle - start) start ++ days_from (suc end - suc middle) (suc middle)
days_from-split s m e h k =
    let cut : suc e - s ≡ (suc m - s) + (suc e - suc m) = omega arith in
    let at : s + (suc m - s) ≡ suc m = omega arith in
    rw cut (rw (days_from-add (suc m - s) (suc e - suc m) s) (rw at))
