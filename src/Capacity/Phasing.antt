-- ===== src/Capacity/Phasing.antt =====
-- The hours that an allocation puts on each day of its range.
use capacityos.Base.{
  ℕ, zero, suc, ◌+◌, ◌-◌, ◌*◌, ◌≤◌, ◌<◌, ◌≡◌, refl, arith, sym, ap, ◌∙◌, total, total-append, ◌⊎◌,
  inl, inr, Bool-cases, leb,
}
use capacityos.Dates.{Date, days_from}
use capacityos.Dates.Ranges.{days_from-split}
use capacityos.Capacity.{Hours, AllocationFact, round_div, allocation_amount_for_date}

pub round_div_bounds :
    (n d : ℕ)
    → 0 < d
    → (2 * (d * round_div n d) ≤ 2 * n + d) × (2 * n ≤ 2 * (d * round_div n d) + d)
round_div_bounds n d h = grind arith

-- What the days from `d` on get, `n` of them.
abbrev phased : AllocationFact → ℕ → Date → Hours
phased a n d = total (λ day. allocation_amount_for_date a day) (days_from n d)

phased-inside :
    (a : AllocationFact) (n : ℕ) (d : Date)
    → a.start_date ≤ d
    → d + n ≤ suc a.end_date
    → phased a n d ≡ n * round_div a.allocation_hours (a.end_date - a.start_date + 1)
unfolding allocation_amount_for_date
phased-inside a zero d h k = omega arith
phased-inside a (suc n) d h k = ground (arith, phased-inside a n (suc d))

phased-before : (a : AllocationFact) (n : ℕ) (d : Date) → d + n ≤ a.start_date → phased a n d ≡ 0
unfolding allocation_amount_for_date
phased-before a zero d h = refl
phased-before a (suc n) d h = ground (arith, phased-before a n (suc d))

phased-after : (a : AllocationFact) (n : ℕ) (d : Date) → a.end_date < d → phased a n d ≡ 0
unfolding allocation_amount_for_date
phased-after a zero d h = refl
phased-after a (suc n) d h = ground (arith, phased-after a n (suc d))

phased-split :
    (a : AllocationFact) (start middle end : Date)
    → start ≤ middle
    → middle ≤ end
    → phased a (suc end - start) start
      ≡ phased a (suc middle - start) start + phased a (suc end - suc middle) (suc middle)
phased-split a s m e h k = rw (days_from-split s m e h k) (
    total-append (λ day. allocation_amount_for_date a day) (days_from (suc m - s) s)
      (days_from (suc e - suc m) (suc m)))

phased_own :
    (a : AllocationFact)
    → a.start_date ≤ a.end_date
    → phased a (suc a.end_date - a.start_date) a.start_date
      ≡ (a.end_date - a.start_date + 1)
        * round_div a.allocation_hours (a.end_date - a.start_date + 1)
phased_own a h =
    let days : suc a.end_date - a.start_date ≡ a.end_date - a.start_date + 1 = omega arith in
    rw days
      (phased-inside a (a.end_date - a.start_date + 1) a.start_date (omega arith) (omega arith))

phased_to_end :
    (a : AllocationFact) (end : Date)
    → a.start_date ≤ a.end_date
    → a.end_date ≤ end
    → phased a (suc end - a.start_date) a.start_date
      ≡ (a.end_date - a.start_date + 1)
        * round_div a.allocation_hours (a.end_date - a.start_date + 1)
phased_to_end a e h k = omega (
  arith,
  phased-split a a.start_date a.end_date e h k,
  phased_own a h,
  phased-after a (suc e - suc a.end_date) (suc a.end_date) (omega arith),
)

-- A range that covers the whole allocation draws the same amount on each of its days, and nothing
-- on any other.
le_cases : (s t : ℕ) → s ≤ t → (s ≡ t) ⊎ ((m : ℕ) × (s ≤ m) × (t ≡ suc m))
le_cases s zero h = inl (omega arith)
le_cases s (suc m) h = elim (Bool-cases (leb s m)) [
  | inl le ↦ inr (m, ground arith, refl)
  | inr gt ↦ inl (ground arith)
]

pub phased_total :
    (a : AllocationFact) (start end : Date)
    → a.start_date ≤ a.end_date
    → start ≤ a.start_date
    → a.end_date ≤ end
    → let days = a.end_date - a.start_date + 1 in
      phased a (suc end - start) start ≡ days * round_div a.allocation_hours days
phased_total a s e h k l =
    let own = phased_to_end a e h l in
    let n : ℕ = a.end_date - a.start_date + 1 in
    let q : ℕ = round_div a.allocation_hours n in
    elim (le_cases s a.start_date k) [
      | inl same ↦ rw same own
      | inr (m, below, at) ↦
          let rest : phased a (suc e - suc m) (suc m) ≡ n * q =
            sym (ap (λ d. phased a (suc e - d) d) at) ∙ own in
          omega (
            arith,
            phased-split a s m e below (omega arith),
            phased-before a (suc m - s) s (omega arith),
            rest,
          )
    ]

-- The amounts that an allocation puts on the days of a range that covers it add up to its total
-- hours, up to half a hundredth of an hour for each of its days.
pub phased_drift :
    (a : AllocationFact) (start end : Date)
    → a.start_date ≤ a.end_date
    → start ≤ a.start_date
    → a.end_date ≤ end
    → let drawn =
        total (λ day. allocation_amount_for_date a day) (days_from (suc end - start) start) in
      let days = a.end_date - a.start_date + 1 in
      (2 * drawn ≤ 2 * a.allocation_hours + days) × (2 * a.allocation_hours ≤ 2 * drawn + days)
phased_drift a s e h k l = omega (
  arith,
  phased_total a s e h k l,
  round_div_bounds a.allocation_hours (a.end_date - a.start_date + 1) (omega arith),
)
