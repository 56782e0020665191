-- ===== src/Scenario/Clip.antt =====
-- Which exceptions cover a day after `clip_exceptions`.
use mathlib.Core.List.{map-append}
use capacityos.Base.{
  ◌≤◌, ◌≡◌, ◌∙◌, Option, List, [], ◌∷◌, ◌++◌, map, arith, keep, keep-append, ◌&&◌, leb,
  if◌then◌else◌,
}
use capacityos.Dates.{Date}
use capacityos.Capacity.{Hours, AvailabilityExceptionFact, covers}
use capacityos.Scenario.{clip_one, clip_exceptions}

-- The hours that the exceptions covering a day leave, in order.
abbrev pub hours_on : Date → List AvailabilityExceptionFact → List (Option Hours)
hours_on day es = map (λ e. e.hours) (keep (covers day) es)

pub hours_on-append :
    (day : Date) (xs ys : List AvailabilityExceptionFact)
    → hours_on day (xs ++ ys) ≡ hours_on day xs ++ hours_on day ys
hours_on-append day xs ys = rw (keep-append (covers day) xs ys, map-append)

hours_on-clip_one :
    (day start end : Date) (e : AvailabilityExceptionFact)
    → start ≤ end
    → hours_on day (clip_one start end e)
      ≡ (if leb start day && leb day end then [] else hours_on day (e ∷ []))
hours_on-clip_one day s t e h = ground arith

hours_on-cons :
    (day : Date) (e : AvailabilityExceptionFact) (es : List AvailabilityExceptionFact)
    → hours_on day (e ∷ es) ≡ hours_on day (e ∷ []) ++ hours_on day es
hours_on-cons day e es = ground arith

-- After the window is clipped no exception covers a day inside it, and the exceptions that cover a
-- day outside it leave the same hours, in the same order, as before.
pub hours_on-clip_exceptions :
    (day start end : Date) (es : List AvailabilityExceptionFact)
    → start ≤ end
    → hours_on day (clip_exceptions es start end)
      ≡ (if leb start day && leb day end then [] else hours_on day es)
unfolding clip_exceptions
hours_on-clip_exceptions day s t [] h = ground arith
hours_on-clip_exceptions day s t (e ∷ es) h =
    hours_on-append day (clip_one s t e) (clip_exceptions es s t)
    ∙ ground (
      arith,
      hours_on-clip_one day s t e h,
      hours_on-clip_exceptions day s t es h,
      hours_on-cons day e es,
    )
