-- ===== src/Dates/Tests.antt =====
-- Runs of the date helpers, and their theorems at concrete days.
use capacityos.Base.{◌≡◌, refl, ◌↔◌, true, none, some, [], ◌∷◌, arith}
use capacityos.Base.Errors.{overflow_error, ok, err}
use capacityos.Dates.{Date, weekday, iterate_dates, week_range, ranges_overlap}
use capacityos.Dates.Ranges.{Within, iterate_dates_lem, ranges_overlap_iff}

-- 2026-09-01, a Tuesday.
abbrev september : Date
september = 739860

weekday_run : weekday september ≡ 1
weekday_run = refl

iterate_run : iterate_dates 10 12 ≡ ok (10 ∷ 11 ∷ 12 ∷ [])
unfolding iterate_dates
iterate_run = refl

week_run : week_range september ≡ ok (739859, 739865)
unfolding week_range
week_run = refl

iterate_dates_lem_example : iterate_dates 10 12 ≡ ok (10 ∷ 11 ∷ 12 ∷ [])
iterate_dates_lem_example = iterate_dates_lem 10 12 (omega arith)

iterate_overflow_run : iterate_dates 3652058 3652059 ≡ err overflow_error
unfolding iterate_dates
iterate_overflow_run = refl

ranges_overlap_iff_example :
    (ranges_overlap none (some 20) (some 15) none ≡ true)
    ↔ ((day : Date) × Within none (some 20) day × Within (some 15) none day)
ranges_overlap_iff_example =
    ranges_overlap_iff none (some 20) (some 15) none (omega arith) (omega arith)
