-- ===== src/Insights/Signals.antt =====
-- Signals on the capacity of a person or a team.
use capacityos.Base.{ℕ, ◌≡◌, none, some, arith, ltb, leb, ◌==◌, if◌then◌else◌, ◌-◌}
use capacityos.Base.Int.{ℤ, pos, ◌-ℤ◌, max_zero}
use capacityos.Capacity.{Hours, round_div}
use capacityos.Insights.{
  CapacitySignalType, ScenarioRiskType, ScenarioSignalTrend, worsened, improved, unchanged,
  classify_capacity_signal, scenario_risk_trend,
}

-- On the remaining capacity and the over-allocation that the engine computes from effective and
-- allocated hours, the signal is: over-allocation exactly when more is allocated than there is; zero
-- remaining capacity when all of a capacity that is not zero is allocated; low capacity when some is
-- left, but per day, rounded, at most the threshold; and none otherwise.
pub classify_capacity_signal_lem :
    (effective allocated : Hours) (period_days : ℕ) (threshold : Hours)
    → classify_capacity_signal effective
        (pos effective -ℤ pos allocated)
        (max_zero (pos allocated -ℤ pos effective))
        period_days
        threshold
      ≡ (if ltb effective allocated
          then some CapacitySignalType.over_allocation
          else if effective == 0
          then none
          else if effective == allocated
          then some CapacitySignalType.zero_remaining_capacity
          else if leb (round_div (effective - allocated) period_days) threshold
          then some CapacitySignalType.low_capacity
          else none)
unfolding classify_capacity_signal ◌-ℤ◌
classify_capacity_signal_lem effective allocated period_days threshold = ground arith

abbrev pub opposite : ScenarioSignalTrend → ScenarioSignalTrend
opposite worsened = improved
opposite improved = worsened
opposite unchanged = unchanged

-- Swapping the baseline and the scenario turns a trend round, and so does reading the same two
-- numbers as the other kind of risk.
pub scenario_risk_trend-opposite :
    (type : ScenarioRiskType) (baseline scenario : ℤ)
    → (scenario_risk_trend type scenario baseline
        ≡ opposite (scenario_risk_trend type baseline scenario))
      × (scenario_risk_trend ScenarioRiskType.over_allocation baseline scenario
          ≡ opposite
              (scenario_risk_trend ScenarioRiskType.zero_remaining_capacity baseline scenario))
unfolding scenario_risk_trend
scenario_risk_trend-opposite type baseline scenario = ground arith
