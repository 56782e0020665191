-- ===== src/Capacity/Demand.antt =====
-- A project's demand by day and by person.
use capacityos.Base.{◌<◌, List, [], ◌∷◌, total, All, ◌≢◌}
use capacityos.Dates.{Date}
use capacityos.Capacity.{
  Hours, Uuid, ProjectAllocationFact, ProjectDailyDemand, ProjectPersonDemand,
  allocation_amount_for_date,
}

abbrev amounts : List (Uuid × Hours) → Hours
amounts m = total (λ e. e.1) m

-- What the project's allocations put on a day.
abbrev pub demand_of : List ProjectAllocationFact → Date → Hours
demand_of allocations day = total (λ a. allocation_amount_for_date a.allocation day) allocations

abbrev pub day_demand : List ProjectAllocationFact → Date → ProjectDailyDemand
day_demand al day = record { date = day; allocated_hours = demand_of al day }

-- No person stands twice in the dict.
abbrev IsDistinct : List (Uuid × Hours) → Type 0
IsDistinct [] = Unit
IsDistinct (e ∷ m) = All (λ f. e.0 ≢ f.0) m × IsDistinct m

-- The ids rise from one entry to the next.
abbrev IsRising : List (Uuid × Hours) → Type 0
IsRising [] = Unit
IsRising (e ∷ m) = All (λ f. e.0 < f.0) m × IsRising m

-- The people of a demand, each once, in the order of their ids.
abbrev pub IsByPerson : List ProjectPersonDemand → Type 0
IsByPerson [] = Unit
IsByPerson (p ∷ ps) = All (λ q. p.person_id < q.person_id) ps × IsByPerson ps
