-- ===== src/Insights.antt =====
-- apps/api/app/domain/insights.py and apps/api/app/domain/risk.py: signals derived from the numbers
-- of the capacity engine and from recorded risks. Hours are hundredths of an hour, as in
-- Capacity.antt.
pub mod Signals
pub mod Risks
pub mod Shares
mod Tests
use capacityos.Base.{
  ℕ, zero, suc, ◌+◌, ◌*◌, ◌/◌, ◌-◌, Bool, true, false, ◌&&◌, ◌||◌, not, Option, none, some, List,
  [], ◌∷◌, map, ltb, leb, ◌==◌, if◌then◌else◌, keep, total, length,
}
use capacityos.Base.Int.{ℤ, pos, negsuc, ltb_ℤ, pos_part}
use capacityos.Base.Sort.{sorted}
use capacityos.Dates.{Date}
use capacityos.Capacity.{Hours, Uuid, round_div, ProjectPersonDemand}

pub data CapacitySignalType : Type 0 where
  over_allocation zero_remaining_capacity low_capacity : CapacitySignalType

pub data Severity : Type 0 where
  critical warning info : Severity

pub data ScenarioRiskType : Type 0 where
  over_allocation zero_remaining_capacity : ScenarioRiskType

pub data ScenarioSignalTrend : Type 0 where
  worsened improved unchanged : ScenarioSignalTrend

abbrev pub is_zero : ℤ → Bool
is_zero (pos zero) = true
is_zero (pos (suc n)) = false
is_zero (negsuc n) = false

-- Where it is divided by, `period_days` is positive, and the remaining capacity too.
unfoldable pub classify_capacity_signal : Hours → ℤ → ℤ → ℕ → Hours → Option CapacitySignalType
classify_capacity_signal effective remaining over period_days threshold =
    if ltb_ℤ (pos 0) over
    then some CapacitySignalType.over_allocation
    else if ltb 0 effective && is_zero remaining
    then some CapacitySignalType.zero_remaining_capacity
    else if ltb 0 effective
        && ltb_ℤ (pos 0) remaining
        && leb (round_div (pos_part remaining) period_days) threshold
    then some CapacitySignalType.low_capacity
    else none

unfoldable pub capacity_signal_severity : CapacitySignalType → Severity
capacity_signal_severity CapacitySignalType.over_allocation = critical
capacity_signal_severity CapacitySignalType.low_capacity = warning
capacity_signal_severity CapacitySignalType.zero_remaining_capacity = info

unfoldable pub scenario_risk_severity : ScenarioRiskType → Severity
scenario_risk_severity ScenarioRiskType.over_allocation = critical
scenario_risk_severity ScenarioRiskType.zero_remaining_capacity = info

unfoldable pub scenario_risk_trend : ScenarioRiskType → ℤ → ℤ → ScenarioSignalTrend
scenario_risk_trend ScenarioRiskType.over_allocation baseline scenario =
    if ltb_ℤ baseline scenario
    then worsened
    else if ltb_ℤ scenario baseline
    then improved
    else unchanged
scenario_risk_trend ScenarioRiskType.zero_remaining_capacity baseline scenario =
    if ltb_ℤ scenario baseline
    then worsened
    else if ltb_ℤ baseline scenario
    then improved
    else unchanged

pub record ConcentrationResult : Type 0 where
  pub top_contributor_ids : List Uuid
  pub top_contributor_hours : Hours
  pub total_hours : Hours
  pub ratio : ℕ

-- `(-entry.allocated_hours, str(entry.person_id))`
abbrev pub by_hours : ProjectPersonDemand → ProjectPersonDemand → Bool
by_hours a b =
    ltb b.allocated_hours a.allocated_hours
    || (a.allocated_hours == b.allocated_hours) && leb a.person_id b.person_id

-- `entries[:n]`
abbrev pub take {ℓ} : {A : Type ℓ} → ℕ → List A → List A
take zero xs = []
take (suc n) [] = []
take (suc n) (x ∷ xs) = x ∷ take n xs

unfoldable pub calculate_concentration : List ProjectPersonDemand → ℕ → Option ConcentrationResult
calculate_concentration by_person top_n =
    let contributors = keep (λ e. ltb 0 e.allocated_hours) by_person in
    let total_hours = total (λ e. e.allocated_hours) contributors in
    let top = take top_n (sorted by_hours contributors) in
    let top_hours = total (λ e. e.allocated_hours) top in
    if leb (length contributors) top_n
    then none
    else if leb total_hours 0
    then none
    else some (record {
      top_contributor_ids = map (λ e. e.person_id) top;
      top_contributor_hours = top_hours;
      total_hours = total_hours;
      ratio = round_div (10000 * top_hours) total_hours;
    })

pub data RiskTier : Type 0 where
  low medium high : RiskTier

pub data RiskStatus : Type 0 where
  open_ mitigating monitoring closed : RiskStatus

pub data RiskSignalType : Type 0 where
  risk_high_exposure risk_review_overdue : RiskSignalType

-- `_EXPOSURE_MATRIX`, on a probability and an impact; all three have the same tiers.
unfoldable pub calculate_risk_exposure : RiskTier → RiskTier → RiskTier
calculate_risk_exposure low low = low
calculate_risk_exposure low medium = low
calculate_risk_exposure low high = medium
calculate_risk_exposure medium low = low
calculate_risk_exposure medium medium = medium
calculate_risk_exposure medium high = high
calculate_risk_exposure high low = medium
calculate_risk_exposure high medium = high
calculate_risk_exposure high high = high

abbrev pub is_closed : RiskStatus → Bool
is_closed closed = true
is_closed _ = false

abbrev pub is_high : RiskTier → Bool
is_high high = true
is_high _ = false

-- `review_date is not None and review_date < today`
abbrev pub is_overdue : Option Date → Date → Bool
is_overdue none today = false
is_overdue (some review_date) today = ltb review_date today

unfoldable pub classify_risk_signal :
    RiskTier → RiskStatus → Option Date → Date → Option RiskSignalType
classify_risk_signal exposure status review_date today =
    if is_closed status
    then none
    else if is_high exposure
    then some risk_high_exposure
    else if is_overdue review_date today
    then some risk_review_overdue
    else none
