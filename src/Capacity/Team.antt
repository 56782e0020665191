-- ===== src/Capacity/Team.antt =====
-- A team's totals against those of its members.
use capacityos.Base.{◌≡◌, List, [], ◌∷◌, total, All}
use capacityos.Base.Int.{
  pos, ◌+ℤ◌, ◌≤ℤ◌, total_ℤ, int_laws, max_zero-sub-le, split_add, covers_add, nonneg_add,
  sub_of_add,
}
use capacityos.Dates.{Date}
use capacityos.Capacity.{PersonCapacityResult, aggregate_team_capacity}
use capacityos.Capacity.Day.{IsBalanced-of_split}
use capacityos.Capacity.Period.{IsLedger}

members-split :
    (members : List PersonCapacityResult)
    → All (λ m. IsLedger m.totals) members
    → (total_ℤ (λ m. m.unavailable_hours) members +ℤ pos (total (λ m. m.effective_capacity) members)
        ≡ pos (total (λ m. m.gross_capacity) members))
      × (pos 0 ≤ℤ total_ℤ (λ m. m.unavailable_hours) members)
members-split [] h = omega int_laws
members-split (m ∷ ms) (b, rest) =
    let (e, n) = members-split ms rest in
    (split_add _ _ _ _ _ _ b.split e, nonneg_add _ _ b.nonneg n)

members-spent :
    (members : List PersonCapacityResult)
    → All (λ m. IsLedger m.totals) members
    → (total_ℤ (λ m. m.remaining_capacity) members +ℤ pos (total (λ m. m.allocated_hours) members)
        ≡ pos (total (λ m. m.effective_capacity) members))
      × (pos (total (λ m. m.allocated_hours) members)
          ≤ℤ total_ℤ (λ m. m.over_allocation) members
            +ℤ pos (total (λ m. m.effective_capacity) members))
      × (pos 0 ≤ℤ total_ℤ (λ m. m.over_allocation) members)
members-spent [] h = (omega int_laws, omega int_laws, omega int_laws)
members-spent (m ∷ ms) (b, rest) =
    let (e, n, z) = members-spent ms rest in
    (split_add _ _ _ _ _ _ b.spent e, covers_add _ _ _ _ _ _ b.excess n, nonneg_add _ _ b.floor z)

-- The totals of a team whose members' totals are ledgers: they are a ledger themselves; the
-- remaining capacity is the sum of the members', and the over-allocation is at most the sum of
-- theirs, as one member's slack offsets another's excess.
pub aggregate_team_capacity-IsLedger :
    (start end : Date) (members : List PersonCapacityResult)
    → All (λ m. IsLedger m.totals) members
    → let team = aggregate_team_capacity start end members in
      IsLedger team
      × (team.remaining_capacity ≡ total_ℤ (λ m. m.remaining_capacity) members)
      × (team.over_allocation ≤ℤ total_ℤ (λ m. m.over_allocation) members)
unfolding aggregate_team_capacity
aggregate_team_capacity-IsLedger s e members h =
    let gross = total (λ m. m.gross_capacity) members in
    let effective = total (λ m. m.effective_capacity) members in
    let allocated = total (λ m. m.allocated_hours) members in
    let unavailable = total_ℤ (λ m. m.unavailable_hours) members in
    let (split, nonneg) = members-split members h in
    let (spent, excess, floor) = members-spent members h in
    (
      IsBalanced-of_split gross effective allocated unavailable split nonneg,
      sub_of_add _ _ _ spent,
      max_zero-sub-le allocated effective _ floor excess,
    )
