-- ===== src/Schedules/Effective.antt =====
-- What the schedules of one person, which never overlap, give the capacity engine.
use capacityos.Base.{
  ◌≡◌, refl, sym, ◌∙◌, inl, inr, true, false, List, [], ◌∷◌, map, arith, keep, Bool-cases, subst,
  All, Any, ap, any, ◌==◌, ◌≤◌, ==_iff,
}
use capacityos.Dates.{Date, weekday, ranges_overlap}
use capacityos.Capacity.{
  Uuid, is_effective, ScheduleFact, scheduled_hours_for_date, hours_of_matching, get_or,
}
use capacityos.Schedules.{
  WorkingSchedule, Store, is_of, list_for_person, to_fact, list_for_people, person_schedules,
  in_range,
}
use capacityos.Schedules.Disjoint.{IsDisjoint, clashes}

-- Two schedules of one person in effect on one day overlap.
both_effective :
    (person org : Uuid) (day : Date) (a b : WorkingSchedule)
    → is_of person org a ≡ true
    → is_of person org b ≡ true
    → is_effective day (to_fact a) ≡ true
    → is_effective day (to_fact b) ≡ true
    → clashes a b ≡ true
unfolding ranges_overlap
both_effective person org day a b p q e f = ground arith

abbrev facts_of : Uuid → Uuid → List WorkingSchedule → List ScheduleFact
facts_of person org rows = map to_fact (keep (is_of person org) rows)

module _ (person org : Uuid) (day : Date) (s : WorkingSchedule)
    (of_person : is_of person org s ≡ true) (in_effect : is_effective day (to_fact s) ≡ true) where
  none_other :
      (rows : List WorkingSchedule)
      → All (λ r. clashes s r ≡ false) rows
      → keep (is_effective day) (facts_of person org rows) ≡ []
  none_other [] h = refl
  none_other (r ∷ rows) h = elim (Bool-cases (is_of person org r)) [
    | inr other ↦ rw other (none_other rows h.1)
    | inl same ↦ elim (Bool-cases (is_effective day (to_fact r))) [
      | inl e ↦
          let clash = both_effective person org day s r of_person same in_effect e in
          let free = h.0 in absurd (let bad : true ≡ false = sym clash ∙ free in cc)
      | inr e ↦ rw same (rw e (none_other rows h.1))
    ]
  ]

  only_effective :
      (rows : List WorkingSchedule)
      → IsDisjoint rows
      → Any (λ r. r ≡ s) rows
      → keep (is_effective day) (facts_of person org rows) ≡ to_fact s ∷ []
  only_effective [] d h = absurd h
  only_effective (r ∷ rows) d (inl e) =
      let rest = none_other rows (subst (λ t. All (λ q. clashes t q ≡ false) rows) e d.0) in
      rw e (rw of_person (rw in_effect (ap (λ xs. to_fact s ∷ xs) rest)))
  only_effective (r ∷ rows) d (inr h) = elim (Bool-cases (is_of person org r)) [
    | inr other ↦ rw other (only_effective rows d.1 h)
    | inl same ↦ elim (Bool-cases (is_effective day (to_fact r))) [
      | inl e ↦
          let clash = both_effective person org day r s same of_person e in_effect in
          let free = clash_free r rows d.0 h in
          absurd (let bad : true ≡ false = sym clash ∙ free in cc)
      | inr e ↦ rw same (rw e (only_effective rows d.1 h))
    ]
  ]
    where
      clash_free :
          (r : WorkingSchedule) (rows : List WorkingSchedule)
          → All (λ q. clashes r q ≡ false) rows
          → Any (λ q. q ≡ s) rows
          → clashes r s ≡ false
      clash_free r [] a m = absurd m
      clash_free r (q ∷ rows) a (inl e) = subst (λ t. clashes r t ≡ false) e a.0
      clash_free r (q ∷ rows) a (inr m) = clash_free r rows a.1 m

effective_in_range :
    (start end day : Date) (s : WorkingSchedule)
    → start ≤ day
    → day ≤ end
    → is_effective day (to_fact s) ≡ true
    → in_range start end s ≡ true
effective_in_range start end day s after before e = ground arith

-- What the queries leave out is not in effect on a day of the range.
module _ (person org : Uuid) (start end day : Date) (people : List Uuid)
    (asked : any (λ i. i == person) people ≡ true) (after : start ≤ day) (before : day ≤ end) where
  listed-effective :
      (rows : List WorkingSchedule)
      → keep (is_effective day) (
          person_schedules person
            (list_for_people people start end org (record { people = []; schedules = rows })))
        ≡ keep (is_effective day) (facts_of person org rows)
  unfolding person_schedules
  listed-effective [] = refl
  listed-effective (r ∷ rows) =
      let rest = listed-effective rows in
      elim (Bool-cases (r.person_id == person)) [
        | inr other ↦ ground (arith, rest, other)
        | inl same ↦
            let own = (==_iff r.person_id person).0 same in
            let named : any (λ i. i == r.person_id) people ≡ true =
              subst (λ q. any (λ i. i == q) people ≡ true) (sym own) asked in
            elim (Bool-cases (is_effective day (to_fact r))) [
              | inl e ↦
                  let listed = effective_in_range start end day r after before e in
                  ground (arith, rest, same, named, listed, e)
              | inr e ↦ ground (arith, rest, same, named, e)
            ]
      ]

-- Where no two schedules of one person overlap, the scheduled hours of a person on a day are those
-- of the one schedule in effect on it, at the day's weekday: no other can be chosen, and the order
-- of the rows and the creation times do not matter. So it is with all the schedules of the person,
-- and with those that the capacity engine reads of several people for a range that has the day.
pub scheduled_hours_lem :
    (person org : Uuid) (people : List Uuid) (start end day : Date) (store : Store)
    (s : WorkingSchedule)
    → IsDisjoint store.schedules
    → Any (λ r. r ≡ s) store.schedules
    → is_of person org s ≡ true
    → is_effective day (to_fact s) ≡ true
    → any (λ i. i == person) people ≡ true
    → start ≤ day
    → day ≤ end
    → (scheduled_hours_for_date (map to_fact (list_for_person person org store)) day
        ≡ get_or (weekday day) 0 s.entries)
      × (scheduled_hours_for_date
            (person_schedules person (list_for_people people start end org store))
            day
          ≡ get_or (weekday day) 0 s.entries)
unfolding scheduled_hours_for_date
scheduled_hours_lem person org people start end day store s disjoint row p e asked after before =
    let only = only_effective person org day s p e store.schedules disjoint row in
    (
      ap (hours_of_matching day) only,
      ap (hours_of_matching day) (
          listed-effective person org start end day people asked after before store.schedules
          ∙ only),
    )
