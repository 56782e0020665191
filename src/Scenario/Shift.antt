-- ===== src/Scenario/Shift.antt =====
-- Shifting a project in time.
use capacityos.Base.{
  ℕ, ◌+◌, ◌≡◌, refl, List, [], ◌∷◌, arith, ◌==◌, if◌then◌else◌, inl, inr, Bool-cases, subst,
}
use capacityos.Base.Int.{ℤ, pos, negsuc, pos_part, neg_part}
use capacityos.Base.Errors.{ok, Result-cases}
use capacityos.Dates.{Date, shift_days, add_days, sub_days}
use capacityos.Capacity.{Uuid}
use capacityos.Scenario.{
  IdentifiedAllocationFact, PlanningState, shift_project, shift_allocation, shift_all, apply_one,
}

-- `b` is `a` with both dates moved by the offset.
pub record IsShifted (offset : ℤ) (a b : IdentifiedAllocationFact) : Type 0 where
  pub same_id : b.id ≡ a.id
  pub same_person : b.person_id ≡ a.person_id
  pub same_project : b.project_id ≡ a.project_id
  pub same_hours : b.allocation_hours ≡ a.allocation_hours
  pub start : b.start_date + neg_part offset ≡ a.start_date + pos_part offset
  pub end : b.end_date + neg_part offset ≡ a.end_date + pos_part offset

-- The allocations of the project are shifted, and the others are as they were.
abbrev pub AreShifted :
    Uuid → ℤ → List IdentifiedAllocationFact → List IdentifiedAllocationFact → Type 0
AreShifted project offset [] [] = Unit
AreShifted project offset (a ∷ l) (b ∷ m) =
    (if a.project_id == project then IsShifted offset a b else b ≡ a)
    × AreShifted project offset l m
AreShifted project offset l m = ⊥

shift_days_lem :
    (d e : Date) (offset : ℤ)
    → shift_days d offset ≡ ok e
    → e + neg_part offset ≡ d + pos_part offset
unfolding shift_days add_days sub_days
shift_days_lem d e (pos n) h = ground arith
shift_days_lem d e (negsuc n) h = ground arith

shift_allocation_lem :
    (project : Uuid) (offset : ℤ) (a b : IdentifiedAllocationFact)
    → shift_allocation project offset a ≡ ok b
    → (if a.project_id == project then IsShifted offset a b else b ≡ a)
unfolding shift_allocation
shift_allocation_lem project offset a b h = elim (Bool-cases (a.project_id == project)) [
  | inl owned ↦ rw owned (elim (Result-cases (shift_days a.start_date offset)) [
    | inl (s, es) ↦ elim (Result-cases (shift_days a.end_date offset)) [
      | inl (e, ee) ↦
          let eq : record a { start_date = s; end_date = e } ≡ b = ground arith in
          subst (IsShifted offset a) eq (record {
            same_id = refl;
            same_person = refl;
            same_project = refl;
            same_hours = refl;
            start = shift_days_lem a.start_date s offset es;
            end = shift_days_lem a.end_date e offset ee;
          })
      | inr (_, ee) ↦ ground arith
    ]
    | inr (_, es) ↦ ground arith
  ])
  | inr other ↦ rw other (ground arith)
]

shift_all_lem :
    (project : Uuid) (offset : ℤ) (l m : List IdentifiedAllocationFact)
    → shift_all project offset l ≡ ok m
    → AreShifted project offset l m
unfolding shift_all
shift_all_lem project offset [] [] h = tt
shift_all_lem project offset [] (b ∷ m) h = cc
shift_all_lem project offset (a ∷ l) m h = elim (Result-cases (shift_allocation project offset a)) [
  | inl (b, eb) ↦ elim (Result-cases (shift_all project offset l)) [
    | inl (l', el) ↦
        let eq : b ∷ l' ≡ m = ground arith in
        subst (AreShifted project offset (a ∷ l)) eq
          (shift_allocation_lem project offset a b eb, shift_all_lem project offset l l' el)
    | inr (_, el) ↦ ground arith
  ]
  | inr (_, eb) ↦ ground arith
]

-- A shift that succeeds moves both dates of each of the project's allocations by the offset, and
-- keeps their order, ids, people and hours; the other allocations, the schedules and the
-- exceptions stay as they were.
pub shift_project_lem :
    (state state' : PlanningState) (id : Uuid) (sequence : ℕ) (project : Uuid) (offset : ℤ)
    → apply_one state (shift_project id sequence project offset) ≡ ok state'
    → AreShifted project offset state.allocations state'.allocations
      × (state'.schedules ≡ state.schedules)
      × (state'.exceptions ≡ state.exceptions)
unfolding apply_one
shift_project_lem state state' id n project offset h =
    elim (Result-cases (shift_all project offset state.allocations)) [
      | inl (l, e) ↦
          let eq : l ≡ state'.allocations = ground arith in
          (
            subst (AreShifted project offset state.allocations) eq
                (shift_all_lem project offset state.allocations l e),
            ground arith,
            ground arith,
          )
      | inr (_, e) ↦ ground arith
    ]
