-- ===== src/Schedules/Disjoint.antt =====
-- The schedules of one person never overlap.
use capacityos.Base.{
  ◌≡◌, ◌∙◌, ◌⊎◌, inl, inr, Bool, true, false, ◌&&◌, not, List, [], ◌∷◌, map, arith, ◌==◌, any, keep,
  if◌then◌else◌, Bool-cases, subst, All,
}
use capacityos.Dates.{ranges_overlap}
use capacityos.Capacity.{Uuid}
use capacityos.Schedules.{WorkingSchedule, is_of, overlaps}

-- Two schedules of one person in one organization overlap.
abbrev pub clashes : WorkingSchedule → WorkingSchedule → Bool
clashes a b =
    is_of a.person_id a.organization_id b && overlaps a.effective_start_date a.effective_end_date b

-- No two rows clash.
abbrev pub IsDisjoint : List WorkingSchedule → Type 0
IsDisjoint [] = Unit
IsDisjoint (s ∷ rows) = All (λ r. clashes s r ≡ false) rows × IsDisjoint rows

-- The ids of the rows are distinct (the table's primary key).
abbrev pub IsKeyed : List WorkingSchedule → Type 0
IsKeyed [] = Unit
IsKeyed (s ∷ rows) = All (λ r. (r.id == s.id) ≡ false) rows × IsKeyed rows

pub clashes-sym : (a b : WorkingSchedule) → clashes a b ≡ clashes b a
unfolding ranges_overlap
clashes-sym a b = ground arith

-- A person's rows pass a test, so no row clashes with what the test is for.
pub none_clash :
    (new : WorkingSchedule) (rows : List WorkingSchedule)
    → any
        (overlaps new.effective_start_date new.effective_end_date)
        (keep (is_of new.person_id new.organization_id) rows)
      ≡ false
    → All (λ r. clashes new r ≡ false) rows
none_clash new [] h = tt
none_clash new (r ∷ rows) h = elim (Bool-cases (is_of new.person_id new.organization_id r)) [
  | inl here ↦ (ground arith, none_clash new rows (ground arith))
  | inr other ↦ (ground arith, none_clash new rows (ground arith))
]

pub others_do_not_clash :
    (new : WorkingSchedule) (rows : List WorkingSchedule)
    → any
        (λ e. not (e.id == new.id) && overlaps new.effective_start_date new.effective_end_date e)
        (keep (is_of new.person_id new.organization_id) rows)
      ≡ false
    → All (λ r. ((r.id == new.id) ≡ true) ⊎ (clashes new r ≡ false)) rows
others_do_not_clash new [] h = tt
others_do_not_clash new (r ∷ rows) h = elim (Bool-cases (r.id == new.id)) [
  | inl same ↦ (inl same, others_do_not_clash new rows (ground arith))
  | inr other ↦ (inr (ground arith), others_do_not_clash new rows (ground arith))
]

module _ (schedule_id : Uuid) (change : WorkingSchedule → WorkingSchedule) where
  abbrev replaced : WorkingSchedule → WorkingSchedule
  replaced s = if s.id == schedule_id then change s else s

  unchanged :
      (s : WorkingSchedule) (rows : List WorkingSchedule)
      → All (λ r. (r.id == schedule_id) ≡ false) rows
      → All (λ r. ((r.id == schedule_id) ≡ true) ⊎ (clashes s r ≡ false)) rows
      → All (λ r. clashes s r ≡ false) (map replaced rows)
  unchanged s [] k h = tt
  unchanged s (r ∷ rows) k h = (
    elim h.0 [
      | inl same ↦ absurd (let off = k.0 in ground arith)
      | inr c ↦ let off = k.0 in rw off c
    ],
    unchanged s rows k.1 h.1,
  )

  one_changed :
      (s old : WorkingSchedule) (rows : List WorkingSchedule)
      → (clashes (change old) s ≡ false)
      → All (λ r. (r.id == schedule_id) ≡ true → r ≡ old) rows
      → All (λ r. clashes s r ≡ false) rows
      → All (λ r. clashes s r ≡ false) (map replaced rows)
  one_changed s old [] c k h = tt
  one_changed s old (r ∷ rows) c k h = (
    elim (Bool-cases (r.id == schedule_id)) [
      | inl same ↦ let e = k.0 same in rw same (rw e (clashes-sym s (change old) ∙ c))
      | inr other ↦ rw other h.0
    ],
    one_changed s old rows c k.1 h.1,
  )

  pub replace-IsDisjoint :
      (old : WorkingSchedule) (rows : List WorkingSchedule)
      → IsKeyed rows
      → IsDisjoint rows
      → All (λ r. (r.id == schedule_id) ≡ true → r ≡ old) rows
      → All (λ r. ((r.id == schedule_id) ≡ true) ⊎ (clashes (change old) r ≡ false)) rows
      → IsDisjoint (map replaced rows)
  replace-IsDisjoint old [] k d e h = tt
  replace-IsDisjoint old (s ∷ rows) k d e h = elim (Bool-cases (s.id == schedule_id)) [
    | inl same ↦
        let at : s ≡ old = e.0 same in
        let here : s.id ≡ schedule_id = ground arith in
        let keyed = subst (λ i. All (λ r. (r.id == i) ≡ false) rows) here k.0 in
        rw same (
          rw at (unchanged (change old) rows keyed h.1),
          replace-IsDisjoint old rows k.1 d.1 e.1 h.1,
        )
    | inr other ↦
        let free : clashes (change old) s ≡ false = elim h.0 [
          | inl same ↦ absurd (ground arith)
          | inr c ↦ c
        ] in
        rw other (one_changed s old rows free e.1 d.0, replace-IsDisjoint old rows k.1 d.1 e.1 h.1)
  ]
