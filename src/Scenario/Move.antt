-- ===== src/Scenario/Move.antt =====
-- Moving allocations between people.
use capacityos.Base.{
  ℕ, ◌+◌, ◌-◌, ◌≤◌, ◌≡◌, ◌≢◌, refl, inl, inr, Option, some, List, [], ◌∷◌, arith, keep, find, total,
  total-append, not, ◌==◌, if◌then◌else◌, All, Option-cases, Bool-cases, subst, sym, any, length,
  ◌&&◌,
}
use capacityos.Base.Errors.{ok, err, value_error}
use capacityos.Capacity.{Hours, Uuid}
use capacityos.Scenario.{
  IdentifiedAllocationFact, PlanningState, move_allocation, remove_allocation, has_id, or_else,
  moved, apply_one,
}

-- No allocation id stands twice.
abbrev pub IsDistinct : List IdentifiedAllocationFact → Type 0
IsDistinct [] = Unit
IsDistinct (a ∷ rest) = All (λ b. a.id ≢ b.id) rest × IsDistinct rest

-- The hours that a person has on a project.
abbrev pub person_hours : Uuid → Uuid → List IdentifiedAllocationFact → Hours
person_hours q p l =
    total (λ a. if a.person_id == q && a.project_id == p then a.allocation_hours else 0) l

-- The hours that a project has.
abbrev pub project_hours : Uuid → List IdentifiedAllocationFact → Hours
project_hours p l = total (λ a. if a.project_id == p then a.allocation_hours else 0) l

keep-absent :
    (f : IdentifiedAllocationFact → Hours) (i : Uuid) (l : List IdentifiedAllocationFact)
    → All (λ b. i ≢ b.id) l
    → total f (keep (λ a. not (has_id i a)) l) ≡ total f l
keep-absent f i [] h = refl
keep-absent f i (a ∷ l) h = ground (arith, keep-absent f i l h.1)

find-some :
    (i : Uuid) (l : List IdentifiedAllocationFact) (t : IdentifiedAllocationFact)
    → find (has_id i) l ≡ some t
    → t.id ≡ i
find-some i [] t h = cc
find-some i (a ∷ l) t h = ground (arith, find-some i l t)

-- Taking out the allocation that `find` finds takes out its part of any sum.
total-others :
    (f : IdentifiedAllocationFact → Hours) (i : Uuid) (l : List IdentifiedAllocationFact)
    (t : IdentifiedAllocationFact)
    → IsDistinct l
    → find (has_id i) l ≡ some t
    → total f (keep (λ a. not (has_id i a)) l) + f t ≡ total f l
total-others f i [] t d h = cc
total-others f i (a ∷ l) t d h = elim (Bool-cases (has_id i a)) [
  | inl named ↦
      let e : a.id ≡ i = ground arith in
      let absent = subst (λ k. All (λ b. k ≢ b.id) l) e d.0 in
      let found : a ≡ t = ground arith in ground (arith, keep-absent f i l absent)
  | inr other ↦ ground (arith, total-others f i l t d.1)
]

-- What a successful move did, as the code computes it.
move-eq-moved :
    (state state' : PlanningState) (id : Uuid) (n : ℕ) (source to : Uuid) (hours : Option Hours)
    → apply_one state (move_allocation id n source to hours) ≡ ok state'
    → (target : IdentifiedAllocationFact) × (find (has_id source) state.allocations ≡ some target)
      × (or_else hours target.allocation_hours ≤ target.allocation_hours)
      × (state'.allocations
          ≡ moved id to target (or_else hours target.allocation_hours) state.allocations)
unfolding apply_one
move-eq-moved state state' id n source to hours h =
    elim (Option-cases (find (has_id source) state.allocations)) [
      | inl missing ↦ ground arith
      | inr (target, found) ↦ (target, found, ground arith, ground arith)
    ]

-- The others keep their part of a sum, and the target's part is split.
total-moved :
    (f : IdentifiedAllocationFact → Hours) (id to source : Uuid) (target : IdentifiedAllocationFact)
    (x : Hours) (l : List IdentifiedAllocationFact)
    → IsDistinct l
    → find (has_id source) l ≡ some target
    → x ≤ target.allocation_hours
    → total f (moved id to target x l) + f target
      ≡ total f l
        + (if x == target.allocation_hours
            then f (record target { person_id = to })
            else f (record target { allocation_hours = target.allocation_hours - x })
              + f (record target { id = id; person_id = to; allocation_hours = x }))
total-moved f id to source target x l d found h =
    let named = find-some source l target found in
    let others = keep (λ a. not (has_id target.id a)) l in
    let rest = record target { allocation_hours = target.allocation_hours - x } in
    let part = record target { id = id; person_id = to; allocation_hours = x } in
    let whole = record target { person_id = to } in
    let removed =
      total-others f target.id l target d
        (subst (λ k. find (has_id k) l ≡ some target) (sym named) found) in
    ground
      (arith, removed, total-append f others (rest ∷ part ∷ []), total-append f others (whole ∷ []))

-- In a state where no allocation id stands twice, a move that succeeds moves some hours of the
-- allocation that it names, the given ones or all of them: on that allocation's project its person
-- loses these hours and the other person gains them, every other person has the hours on every
-- project that they had, and so has each person on every other project; and every project keeps its
-- hours.
pub move_allocation-project_hours :
    (state state' : PlanningState) (id : Uuid) (sequence : ℕ) (source to : Uuid)
    (hours : Option Hours) (project person : Uuid)
    → IsDistinct state.allocations
    → apply_one state (move_allocation id sequence source to hours) ≡ ok state'
    → (target : IdentifiedAllocationFact) × (find (has_id source) state.allocations ≡ some target)
      × let x = or_else hours target.allocation_hours in
        (x ≤ target.allocation_hours)
        × (person_hours person project state'.allocations
              + (if person == target.person_id && project == target.project_id then x else 0)
            ≡ person_hours person project state.allocations
              + (if person == to && project == target.project_id then x else 0))
        × (project_hours project state'.allocations ≡ project_hours project state.allocations)
move_allocation-project_hours state state' id n source to hours p q d h =
    let (target, found, le, e) = move-eq-moved state state' id n source to hours h in
    let x = or_else hours target.allocation_hours in
    let of_person =
      total-moved (λ a. if a.person_id == q && a.project_id == p then a.allocation_hours else 0) id
        to source target x state.allocations d found le in
    let of_project =
      total-moved (λ a. if a.project_id == p then a.allocation_hours else 0) id to source target x
        state.allocations d found le in
    (target, found, (le, rw e (ground (arith, of_person)), rw e (ground (arith, of_project))))

length-keep :
    (i : Uuid) (l : List IdentifiedAllocationFact)
    → (length (keep (λ a. not (has_id i a)) l) ≤ length l)
      × ((length (keep (λ a. not (has_id i a)) l) == length l) ≡ not (any (has_id i) l))
length-keep i [] = (omega arith, refl)
length-keep i (a ∷ l) = let (le, e) = length-keep i l in ground arith

-- Removing an allocation succeeds exactly when some allocation has the id, and then leaves those
-- that have another id; otherwise ValueError is raised. The code compares two lengths for this.
pub remove_allocation_lem :
    (state : PlanningState) (id : Uuid) (sequence : ℕ) (source : Uuid)
    → apply_one state (remove_allocation id sequence source) ≡ (
        if any (has_id source) state.allocations
        then ok (record state { allocations = keep (λ a. not (has_id source a)) state.allocations })
        else err value_error)
unfolding apply_one
remove_allocation_lem state id n source =
    let (le, e) = length-keep source state.allocations in ground (arith, e)
