-- ===== src/Import/Batch/Overlaps/Separate.antt =====
-- The ranges of the rows that pass the overlap check: `_check_working_schedule_overlap` and the
-- loop of `_prepare_working_schedule` of apps/api/app/services/import_service.py.
use capacityos.Base.{
  ◌≡◌, refl, ◌∙◌, inl, inr, Bool, true, false, ◌&&◌, not, Option, none, some, List, [], ◌∷◌, ◌++◌,
  ◌==◌, find, arith, Bool-cases, Option-cases, All, append-nil, append_assoc,
}
use capacityos.Dates.{ranges_overlap}
use capacityos.Capacity.{Uuid}
use capacityos.Schedules.{WorkingScheduleCreate, WorkingScheduleUpdate}
use capacityos.Import.Outcomes.{create, update, Payload, for_create, for_update, no_outcome}
use capacityos.Import.Batch.Overlaps.{
  Range, ScheduleOutcome, overlap_error, candidate, self_of, overlaps_another, wanted_range,
  check_working_schedule_overlap, check_schedules,
}

-- Ranges of two schedules of one person overlap.
abbrev pub collides : Range → Range → Bool
collides a b =
    a.person_id == b.person_id && not (a.id == b.id) && ranges_overlap b.start b.end a.start a.end

abbrev pub IsSeparate : List Range → Type 0
IsSeparate [] = Unit
IsSeparate (r ∷ ranges) = All (λ q. collides r q ≡ false) ranges × IsSeparate ranges

All-snoc_range :
    (P : Range → Type 0) (ranges : List Range) (c : Range)
    → All P ranges
    → P c
    → All P (ranges ++ c ∷ [])
All-snoc_range P [] c a p = (p, tt)
All-snoc_range P (r ∷ ranges) c a p = (a.0, All-snoc_range P ranges c a.1 p)

-- What passes the check collides with nothing.
IsSeparate-snoc :
    (self : Option Uuid) (c : Range) (ranges : List Range)
    → ((i : Uuid) → self ≡ some i → i ≡ c.id)
    → IsSeparate ranges
    → overlaps_another self c ranges ≡ false
    → IsSeparate (ranges ++ c ∷ [])
IsSeparate-snoc self c [] own h e = (tt, tt)
IsSeparate-snoc self c (r ∷ ranges) own h e =
    let apart : collides r c ≡ false = elim (Option-cases self) [
      | inl new ↦ ground arith
      | inr (i, old) ↦ ground (arith, own i old)
    ] in
    (
      All-snoc_range (λ q. collides r q ≡ false) ranges c h.0 apart,
      IsSeparate-snoc self c ranges own h.1 (ground arith),
    )

-- An update's range has the id that the update passes over.
candidate_self :
    (new_id : Uuid) (p : Option (Payload WorkingScheduleCreate WorkingScheduleUpdate))
    (m : Option Uuid) (ranges : List Range) (c : Range) (i : Uuid)
    → candidate new_id p m ranges ≡ some c
    → self_of p m ≡ some i
    → i ≡ c.id
candidate_self new_id none m ranges c i h k = cc
candidate_self new_id (some (for_create request)) m ranges c i h k = cc
candidate_self new_id (some (for_update request)) none ranges c i h k = cc
candidate_self new_id (some (for_update request)) (some self) ranges c i h k =
    elim (Option-cases (find (λ r. r.id == self) ranges)) [
      | inl missing ↦ ground arith
      | inr (owner, present) ↦ ground arith
    ]

wanted_range_self :
    (new_id : Uuid) (o : ScheduleOutcome) (ranges : List Range) (c : Range) (i : Uuid)
    → wanted_range new_id o ranges ≡ some c
    → self_of o.payload o.matched_id ≡ some i
    → i ≡ c.id
wanted_range_self new_id o ranges c i h k =
    candidate_self new_id o.payload o.matched_id ranges c i (ground arith) k

-- The range that a payload writes: an update keeps what the first range of its id has.
abbrev pub payload_range :
    Uuid
    → Option (Payload WorkingScheduleCreate WorkingScheduleUpdate)
    → Option Uuid
    → List Range
    → Option Range
payload_range new_id none matched ranges = none
payload_range new_id (some (for_create request)) matched ranges = some (record {
  person_id = request.person_id;
  id = new_id;
  start = request.effective_start_date;
  end = request.effective_end_date;
})
payload_range new_id (some (for_update request)) none ranges = none
payload_range new_id (some (for_update request)) (some i) ranges =
    elim (find (λ r. r.id == i) ranges) [
      | none ↦ none
      | some owner ↦ some (record {
        person_id = owner.person_id;
        id = i;
        start = elim request.effective_start_date [ none ↦ owner.start | some day ↦ day ];
        end = elim request.effective_end_date [ none ↦ owner.end | some day ↦ day ];
      })
    ]

-- The range that a row writes, if it has no errors and creates or updates a schedule.
abbrev pub row_range : Uuid → ScheduleOutcome → List Range → Option Range
row_range new_id o ranges = elim o.errors [
  | _ ∷ _ ↦ none
  | [] ↦ elim o.action [
    | some create ↦ payload_range new_id o.payload o.matched_id ranges
    | some update ↦ payload_range new_id o.payload o.matched_id ranges
    | _ ↦ none
  ]
]

-- The ranges that rows write one after the other, each with the id of a new row.
abbrev pub written_ranges : List Uuid → List ScheduleOutcome → List Range → List Range
written_ranges [] outcomes ranges = []
written_ranges (i ∷ ids) [] ranges = []
written_ranges (i ∷ ids) (o ∷ outcomes) ranges = elim (row_range i o ranges) [
  | none ↦ written_ranges ids outcomes ranges
  | some r ↦ r ∷ written_ranges ids outcomes (ranges ++ r ∷ [])
]

abbrev pub new_ids : List (Uuid × ScheduleOutcome) → List Uuid
new_ids [] = []
new_ids ((i, o) ∷ rows) = i ∷ new_ids rows

payload_range-candidate :
    (i : Uuid) (p : Option (Payload WorkingScheduleCreate WorkingScheduleUpdate)) (m : Option Uuid)
    (ranges : List Range)
    → payload_range i p m ranges ≡ candidate i p m ranges
payload_range-candidate i none m ranges = refl
payload_range-candidate i (some (for_create request)) m ranges = refl
payload_range-candidate i (some (for_update request)) none ranges = refl
payload_range-candidate i (some (for_update request)) (some self) ranges = ground arith

row_range-wanted :
    (i : Uuid) (o : ScheduleOutcome) (ranges : List Range)
    → row_range i o ranges ≡ wanted_range i o ranges
row_range-wanted i o ranges =
    ground (arith, payload_range-candidate i o.payload o.matched_id ranges)

module _ (i : Uuid) (o : ScheduleOutcome) (ranges : List Range) where
  check-unwanted :
      wanted_range i o ranges ≡ none → check_working_schedule_overlap i o ranges ≡ (o, ranges)
  unfolding check_working_schedule_overlap
  check-unwanted e = rw (e, check_working_schedule_overlap) refl

  check-taken :
      (c : Range)
      → wanted_range i o ranges ≡ some c
      → overlaps_another (self_of o.payload o.matched_id) c ranges ≡ true
      → check_working_schedule_overlap i o ranges
        ≡ (no_outcome o.matched_id o.identity overlap_error [], ranges)
  unfolding check_working_schedule_overlap
  check-taken c e taken = rw (e, check_working_schedule_overlap) (rw taken refl)

  check-free :
      (c : Range)
      → wanted_range i o ranges ≡ some c
      → overlaps_another (self_of o.payload o.matched_id) c ranges ≡ false
      → check_working_schedule_overlap i o ranges ≡ (o, ranges ++ c ∷ [])
  unfolding check_working_schedule_overlap
  check-free c e free = rw (e, check_working_schedule_overlap) (rw free refl)

module _ (i : Uuid) (ids : List Uuid) (o : ScheduleOutcome) (outcomes : List ScheduleOutcome)
    (ranges : List Range) where
  written-none :
      row_range i o ranges ≡ none
      → written_ranges (i ∷ ids) (o ∷ outcomes) ranges ≡ written_ranges ids outcomes ranges
  written-none e = rw (e, written_ranges) refl

  written-some :
      (c : Range)
      → row_range i o ranges ≡ some c
      → written_ranges (i ∷ ids) (o ∷ outcomes) ranges
        ≡ c ∷ written_ranges ids outcomes (ranges ++ c ∷ [])
  written-some c e = rw (e, written_ranges) refl

-- From ranges of which no two of one person and of different schedules overlap, these ranges and
-- those that the rows returned by the check write, which are the new range of each row without
-- errors that creates a schedule and the merged one of each that updates a schedule, are such ranges
-- too, whichever creations and updates the file has.
pub check_schedules-IsSeparate :
    (rows : List (Uuid × ScheduleOutcome)) (ranges : List Range)
    → IsSeparate ranges
    → IsSeparate (ranges ++ written_ranges (new_ids rows) (check_schedules rows ranges).0 ranges)
unfolding check_schedules
check_schedules-IsSeparate [] ranges h = rw (append-nil ranges) h
check_schedules-IsSeparate ((i, o) ∷ rows) ranges h =
    elim (Option-cases (wanted_range i o ranges)) [
      | inl e ↦ rw (check-unwanted i o ranges e) (
          rw (written-none i (new_ids rows) o _ ranges (row_range-wanted i o ranges ∙ e))
            (check_schedules-IsSeparate rows ranges h))
      | inr (c, e) ↦
          elim (Bool-cases (overlaps_another (self_of o.payload o.matched_id) c ranges)) [
            | inl taken ↦
                rw (check-taken i o ranges c e taken) (check_schedules-IsSeparate rows ranges h)
            | inr free ↦ rw (check-free i o ranges c e free) (
                rw (written-some i (new_ids rows) o _ ranges c (row_range-wanted i o ranges ∙ e)) (
                  rw (← append_assoc ranges (c ∷ []) _) (
                    check_schedules-IsSeparate rows (ranges ++ c ∷ []) (
                      IsSeparate-snoc (self_of o.payload o.matched_id) c ranges
                        (λ k own. wanted_range_self i o ranges c k e own) h free))))
          ]
    ]
