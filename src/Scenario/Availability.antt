-- ===== src/Scenario/Availability.antt =====
-- What an availability override or clear does to a person's effective capacity.
use capacityos.Base.{
  ℕ, ◌≤◌, ◌≡◌, refl, sym, ◌∙◌, ap, Option, List, [], ◌∷◌, ◌++◌, map, arith, keep, min, Bool, ◌&&◌,
  leb, ◌==◌, if◌then◌else◌, Bool-cases, inl, inr, append-nil, subst,
}
use capacityos.Base.Errors.{ok}
use capacityos.Dates.{Date}
use capacityos.Capacity.{
  Hours, Uuid, AvailabilityExceptionFact, covers, available_hours, min_available, get_or,
  effective_capacity_for_date,
}
use capacityos.Scenario.{
  PlanningState, availability_override, availability_clear, set_key, clip_exceptions, apply_one,
}
use capacityos.Scenario.Clip.{hours_on, hours_on-append, hours_on-clip_exceptions}

-- The least of the scheduled hours and of a list of available hours.
abbrev least : Hours → List (Option Hours) → Hours
least h [] = h
least h (o ∷ os) = least (min h (available_hours o)) os

min_available-eq-least :
    (h : Hours) (es : List AvailabilityExceptionFact)
    → min_available h es ≡ least h (map (λ e. e.hours) es)
min_available-eq-least h [] = refl
min_available-eq-least h (e ∷ es) = min_available-eq-least (min h (available_hours e.hours)) es

least-snoc :
    (h : Hours) (os : List (Option Hours)) (o : Option Hours)
    → least h (os ++ o ∷ []) ≡ min (least h os) (available_hours o)
least-snoc h [] o = refl
least-snoc h (p ∷ os) o = least-snoc (min h (available_hours p)) os o

get_or-set_key {ℓ} :
    {V : Type ℓ} (k j : ℕ) (v d : V) (m : List (ℕ × V))
    → get_or j d (set_key k v m) ≡ (if j == k then v else get_or j d m)
get_or-set_key k j v d [] = refl
get_or-set_key k j v d (e ∷ m) = ground (arith, get_or-set_key k j v d m)

-- A person's effective capacity on a day in a planning state.
abbrev pub effective_on : PlanningState → Uuid → Hours → Date → Hours
effective_on state person scheduled day =
    effective_capacity_for_date scheduled (get_or person [] state.exceptions) day

effective-eq-least :
    (scheduled : Hours) (es : List AvailabilityExceptionFact) (day : Date)
    → effective_capacity_for_date scheduled es day ≡ least scheduled (hours_on day es)
unfolding effective_capacity_for_date
effective-eq-least h es day = min_available-eq-least h (keep (covers day) es)

module _ (scheduled : Hours) (es : List AvailabilityExceptionFact) (day start end : Date)
    (ordered : start ≤ end) where
  effective-cleared : effective_capacity_for_date scheduled (clip_exceptions es start end) day ≡ (
      if leb start day && leb day end
      then scheduled
      else effective_capacity_for_date scheduled es day)
  effective-cleared =
      effective-eq-least scheduled (clip_exceptions es start end) day
      ∙ ap (least scheduled) (hours_on-clip_exceptions day start end es ordered)
      ∙ ground (arith, effective-eq-least scheduled es day)

  effective-overridden :
      (hours : Option Hours)
      → let override : AvailabilityExceptionFact = record {
        start_date = start;
        end_date = end;
        hours = hours;
      } in
        effective_capacity_for_date scheduled (clip_exceptions es start end ++ override ∷ []) day
        ≡ (if leb start day && leb day end
            then min scheduled (available_hours hours)
            else effective_capacity_for_date scheduled es day)
  effective-overridden hours =
      let override : AvailabilityExceptionFact = record {
        start_date = start;
        end_date = end;
        hours = hours;
      } in
      let clipped = clip_exceptions es start end in
      effective-eq-least scheduled (clipped ++ override ∷ []) day
      ∙ ap (least scheduled) (hours_on-append day clipped (override ∷ []))
      ∙ ap (λ os. least scheduled (os ++ hours_on day (override ∷ [])))
          (hours_on-clip_exceptions day start end es ordered)
      ∙ elim (Bool-cases (leb start day && leb day end)) [
        | inl inside ↦ rw inside refl
        | inr outside ↦ rw (outside, append-nil) (sym (effective-eq-least scheduled es day))
      ]

-- One person's exceptions are replaced.
effective_on-set_key :
    (state : PlanningState) (person other : Uuid) (new : List AvailabilityExceptionFact)
    (inside : Bool) (value scheduled : Hours) (day : Date)
    → effective_capacity_for_date scheduled new day
      ≡ (if inside then value else effective_on state person scheduled day)
    → effective_capacity_for_date scheduled
        (get_or other [] (set_key person new state.exceptions))
        day
      ≡ (if other == person && inside then value else effective_on state other scheduled day)
effective_on-set_key state person other new inside value scheduled day h =
    rw (get_or-set_key person other new [] state.exceptions) (elim (Bool-cases (other == person)) [
      | inl same ↦
          let e : person ≡ other = ground arith in
          rw same (
            subst
              (λ p.
                effective_capacity_for_date scheduled new day
                ≡ (if inside then value else effective_on state p scheduled day))
              e h)
      | inr different ↦ rw different refl
    ])

-- An override for a window that is not reversed changes the effective capacity of its person on the
-- days of the window, and of no one else and on no other day: inside it the capacity is the lesser
-- of the scheduled hours and the hours that the override leaves, whatever exceptions there were.
pub availability_override_lem :
    (state : PlanningState) (id : Uuid) (sequence : ℕ) (person : Uuid) (start end : Date)
    (hours : Option Hours) (other : Uuid) (scheduled : Hours) (day : Date)
    → start ≤ end
    → (state' : PlanningState) × (apply_one state
          (availability_override id sequence person start end hours)
        ≡ ok state')
      × (effective_on state' other scheduled day ≡ (
          if other == person && (leb start day && leb day end)
          then min scheduled (available_hours hours)
          else effective_on state other scheduled day))
unfolding apply_one
availability_override_lem state id n person s e hours other scheduled day h =
    let old = get_or person [] state.exceptions in
    let override : AvailabilityExceptionFact = record {
      start_date = s;
      end_date = e;
      hours = hours;
    } in
    let new = clip_exceptions old s e ++ override ∷ [] in
    (
      record state { exceptions = set_key person new state.exceptions },
      refl,
      effective_on-set_key state person other new (leb s day && leb day e)
          (min scheduled (available_hours hours)) scheduled day
          (effective-overridden scheduled old day s e h hours),
    )

-- Clearing a window that is not reversed gives its person the scheduled hours back on the days of
-- the window, and changes the effective capacity of no one else and on no other day.
pub availability_clear_lem :
    (state : PlanningState) (id : Uuid) (sequence : ℕ) (person : Uuid) (start end : Date)
    (other : Uuid) (scheduled : Hours) (day : Date)
    → start ≤ end
    → (state' : PlanningState) × (apply_one state (availability_clear id sequence person start end)
        ≡ ok state')
      × (effective_on state' other scheduled day ≡ (
          if other == person && (leb start day && leb day end)
          then scheduled
          else effective_on state other scheduled day))
unfolding apply_one
availability_clear_lem state id n person s e other scheduled day h =
    let old = get_or person [] state.exceptions in
    let new = clip_exceptions old s e in
    (
      record state { exceptions = set_key person new state.exceptions },
      refl,
      effective_on-set_key state person other new (leb s day && leb day e) scheduled scheduled day
          (effective-cleared scheduled old day s e h),
    )
